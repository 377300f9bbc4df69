-- ===== src/Mail/Pages.antt =====
-- internal/service/mail.go, ListMessages: the pages of a folder.
use imap_mcp.Prelude.{
  ℕ, ◌+◌, ◌-◌, ◌^◌, ◌≤◌, ◌<◌, ◌≡◌, min, Bool, true, false, Option, none, some, arith, ltb, leb,
  ◌==◌, ◌||◌, if◌then◌else◌,
}

-- clampUint32, of an integer that is not negative
unfoldable pub clamp_uint32 : ℕ → ℕ
clamp_uint32 n = if leb (2 ^ 32 - 1) n then 2 ^ 32 - 1 else n

abbrev pub page_limit : ℕ → ℕ
page_limit limit = if limit == 0 || ltb 200 limit then 50 else limit

-- The sequence numbers of a page, first and last, or `none` for an empty page. A negative limit or
-- offset acts as 0.
unfoldable pub page_range : ℕ → ℕ → ℕ → Bool → Option (ℕ × ℕ)
unfolding clamp_uint32
page_range total offset limit ascending =
    let end = total - clamp_uint32 offset in
    if total == 0 || leb total offset
    then none
    else if ascending
    then some (clamp_uint32 (offset + 1), clamp_uint32 (min (offset + limit) total))
    else some (if ltb limit end then end - clamp_uint32 limit + 1 else 1, end)

-- Every page that is not empty lies within the folder, and has as many messages as the limit allows and
-- the folder has behind the offset.
pub page_range-bounds :
    (total offset limit first last : ℕ) (ascending : Bool)
    → total < 2 ^ 32
    → 1 ≤ limit
    → limit ≤ 200
    → page_range total offset limit ascending ≡ some (first, last)
    → (1 ≤ first) × (last ≤ total) × (last + 1 ≡ first + min limit (total - offset))
unfolding page_range clamp_uint32
page_range-bounds total offset limit first last true small some_limit few e = ground arith
page_range-bounds total offset limit first last false small some_limit few e = ground arith

-- The next page of the newest first starts where this one ends: nothing is left out or shown twice.
pub page_range-next :
    (total offset limit first last first' last' : ℕ)
    → total < 2 ^ 32
    → 1 ≤ limit
    → limit ≤ 200
    → page_range total offset limit false ≡ some (first, last)
    → page_range total (offset + limit) limit false ≡ some (first', last')
    → first ≡ last' + 1
unfolding page_range clamp_uint32
page_range-next total offset limit first last first' last' small some_limit few e e' = ground arith
