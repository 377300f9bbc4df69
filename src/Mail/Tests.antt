-- ===== src/Mail/Tests.antt =====
-- A server of one folder, INBOX, without MOVE, COPY and UIDPLUS, and the theorems of the mail on it.
use imap_mcp.Prelude.{
  ℕ, ◌≡◌, ◌≢◌, ◌⊎◌, refl, true, false, List, [], ◌∷◌, ◌++◌, Option, none, some, Text, bytes,
  contains, text_eq, ◌==◌, if◌then◌else◌, arith, Bool-cases, inl, inr, sym, text_eq_iff,
}
use imap_mcp.Mail.{
  Client, done, failed, among, deleted_flag, delete_uids, move_uids, move_message, copy_message,
  delete_message, set_flags,
}
use imap_mcp.Mail.Imap.{View, Kept, Other, IsImap}
use imap_mcp.Mail.Safety.{delete_uids-Kept, move_uids-uncopied}
use imap_mcp.Mail.Operations.{operations-Kept}
use imap_mcp.Mail.Pages.{page_range, clamp_uint32}

abbrev Box : Type 0
Box = List (ℕ × List Text)

flagged : List ℕ → List Text → Box → Box
flagged set add [] = []
flagged set add ((v, flags) ∷ box) =
    (v, if among set v then add ++ flags else flags) ∷ flagged set add box

purged : Box → Box
purged [] = []
purged ((v, flags) ∷ box) =
    let rest = purged box in if contains flags deleted_flag then rest else (v, flags) ∷ rest

marked : Box → List ℕ
marked [] = []
marked ((v, flags) ∷ box) =
    let rest = marked box in if contains flags deleted_flag then v ∷ rest else rest

-- The messages with the flags.
holds : Box → ℕ → Option (List Text)
holds [] u = none
holds ((v, flags) ∷ box) u = if v == u then some flags else holds box u

abbrev no_such : Text
no_such = bytes "NO"

abbrev client : Client Box
client = record {
  has_move = λ s. false;
  has_uidplus = λ s. false;
  select = λ name s. (done 0, s);
  search = λ q s. (done (marked s), s);
  fetch_ids = λ set s. (done [], s);
  list_boxes = λ s. (done [], s);
  store_add = λ set add s. (done true, flagged set add s);
  store_del = λ set del s. (failed no_such, s);
  move = λ set dest s. (failed no_such, s);
  copy = λ set dest s. (failed no_such, s);
  uid_expunge = λ set s. (failed no_such, s);
  expunge = λ s. (done true, purged s);
}

abbrev inbox : Text
inbox = bytes "INBOX"

shown : Box → Text → ℕ → Option (List Text)
shown s f u = if text_eq f inbox then holds s u else none

abbrev view : View Box
view = record { msg = shown; folder = λ s. inbox; canon = λ name. inbox }

flagged-other :
    (set : List ℕ) (add : List Text) (box : Box) (u : ℕ) (flags : List Text)
    → among set u ≡ false
    → holds box u ≡ some flags
    → holds (flagged set add box) u ≡ some flags
unfolding flagged holds
flagged-other set add [] u flags other here = cc
flagged-other set add ((v, old) ∷ box) u flags other here = elim (Bool-cases (v == u)) [
  | inl same ↦
      let e : v ≡ u = ground arith in let o : among set v ≡ false = rw e other in ground (arith, o)
  | inr differ ↦ let rest = flagged-other set add box u flags other in ground (arith, rest)
]

purged-plain :
    (box : Box) (u : ℕ) (flags : List Text)
    → contains flags deleted_flag ≡ false
    → holds box u ≡ some flags
    → holds (purged box) u ≡ some flags
unfolding purged holds
purged-plain [] u flags plain here = cc
purged-plain ((v, old) ∷ box) u flags plain here =
    let rest = purged-plain box u flags plain in ground (arith, rest)

marked-finds :
    (box : Box) (u : ℕ) (flags : List Text)
    → holds box u ≡ some flags
    → contains flags deleted_flag ≡ true
    → among (marked box) u ≡ true
unfolding marked holds among
marked-finds [] u flags here deleted = cc
marked-finds ((v, old) ∷ box) u flags here deleted =
    let rest = marked-finds box u flags in ground (arith, rest)

shown-lift :
    (s t : Box) (f : Text) (u : ℕ) (flags : List Text)
    → (f ≡ inbox → holds s u ≡ some flags → holds t u ≡ some flags)
    → shown s f u ≡ some flags
    → shown t f u ≡ some flags
unfolding shown
shown-lift s t f u flags step here =
    let same = text_eq_iff f inbox in
    elim (Bool-cases (text_eq f inbox)) [
      | inl e ↦ let there = step (same.0 e) in ground (arith, there)
      | inr e ↦ ground arith
    ]

add-keeps :
    (set : List ℕ) (add : List Text) (s : Box) (f : Text) (u : ℕ)
    → Other view set f u s
    → Kept view f u s (flagged set add s)
add-keeps set add s f u (inl away) flags = shown-lift s _ f u flags (λ e h. absurd (away (sym e)))
add-keeps set add s f u (inr free) flags =
    shown-lift s _ f u flags (λ e h. flagged-other set add s u flags free h)

expunge-keeps :
    (s : Box) (f : Text) (u : ℕ) (flags : List Text)
    → (inbox ≢ f) ⊎ (contains flags deleted_flag ≡ false)
    → shown s f u ≡ some flags
    → shown (purged s) f u ≡ some flags
expunge-keeps s f u flags (inl away) = shown-lift s _ f u flags (λ e h. absurd (away (sym e)))
expunge-keeps s f u flags (inr plain) =
    shown-lift s _ f u flags (λ e h. purged-plain s u flags plain h)

search-finds :
    (s : Box) (uids : List ℕ) (u : ℕ) (flags : List Text)
    → done (marked s) ≡ done uids
    → shown s inbox u ≡ some flags
    → contains flags deleted_flag ≡ true
    → among uids u ≡ true
unfolding shown text_eq
search-finds s uids u flags e here deleted =
    let same : marked s ≡ uids = ground arith in rw (← same) (marked-finds s u flags here deleted)

client-IsImap : IsImap client view
client-IsImap = record {
  select-keeps = λ name s f u flags h. h;
  select-opens = λ name s n e. refl;
  search-keeps = λ q s f u flags h. h;
  search-folder = λ q s. refl;
  search-finds = search-finds;
  fetch-keeps = λ set s f u flags h. h;
  fetch-folder = λ set s. refl;
  list-keeps = λ s f u flags h. h;
  list-folder = λ s. refl;
  add-keeps = add-keeps;
  add-folder = λ set add s. refl;
  del-keeps = λ set del s f u other flags h. h;
  move-keeps = λ set dest s f u other flags h. h;
  move-folder = λ set dest s. refl;
  copy-keeps = λ set dest s f u flags h. h;
  copy-folder = λ set dest s. refl;
  uid_expunge-keeps = λ set s f u other flags h. h;
  uid_expunge-folder = λ set s. refl;
  expunge-keeps = expunge-keeps;
  expunge-folder = λ s. refl;
}

-- UID 3 is marked by someone else.
abbrev box : Box
box = (1, []) ∷ (3, deleted_flag ∷ []) ∷ []

delete_uids-Kept_example : Kept view inbox 3 box (delete_uids client (1 ∷ []) box).1
unfolding among
delete_uids-Kept_example =
    delete_uids-Kept client view client-IsImap (1 ∷ []) box inbox 3 (inr refl)

move_uids-uncopied_example : Kept view inbox 1 box (move_uids client (1 ∷ []) (bytes "A") box).1
move_uids-uncopied_example =
    move_uids-uncopied client view client-IsImap (1 ∷ []) (bytes "A") no_such box inbox 1 refl refl

operations-Kept_example :
    Kept view inbox 3 box (move_message client inbox 1 (bytes "A") box).1
    × Kept view inbox 3 box (copy_message client inbox 1 (bytes "A") box).1
    × Kept view inbox 3 box (delete_message client inbox 1 true box).1
    × Kept view inbox 3 box (set_flags client inbox 1 (bytes "seen") [] box).1
operations-Kept_example =
    operations-Kept client view client-IsImap inbox 3 inbox 1 (bytes "A") (bytes "seen") [] true box
      (inr (omega arith))

last_page : page_range 120 100 50 false ≡ some (1, 20)
unfolding page_range clamp_uint32
last_page = refl

page_before : page_range 120 50 50 false ≡ some (21, 70)
unfolding page_range clamp_uint32
page_before = refl
