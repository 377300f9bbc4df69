-- ===== src/Cache/Queue.antt =====
-- The copies of a message in the enrichment queue.
use imap_mcp.Prelude.{
  ℕ, ◌+◌, ◌≤◌, ◌≡◌, refl, ap, Bool, false, not, ◌&&◌, List, [], ◌∷◌, ◌++◌, Text, text_eq, is_nil,
  text_eq_iff, if◌then◌else◌, arith, Bool-cases, inl, inr,
}
use imap_mcp.Cache.{
  Row, Cache, CachedMessage, at_key, is_queued, queued_copy, delete_where, count_where, insert,
  is_dup, row_of,
}

-- The queued copies of a Message-ID.
abbrev pub queued_as : Text → Row → Bool
queued_as mid r = text_eq r.message_id mid && is_queued r

-- No Message-ID is queued twice. Messages without one are not compared.
pub record IsOnce (rows : List Row) : Type 0 where
  pub once : (mid : Text) → is_nil mid ≡ false → count_where (queued_as mid) rows ≤ 1

count_where-append :
    (p : Row → Bool) (xs ys : List Row)
    → count_where p (xs ++ ys) ≡ count_where p xs + count_where p ys
unfolding count_where
count_where-append p [] ys = omega arith
count_where-append p (r ∷ xs) ys = omega (arith, count_where-append p xs ys)

pub count_where-delete-le :
    (p k : Row → Bool) (rows : List Row) → count_where p (delete_where k rows) ≤ count_where p rows
unfolding count_where delete_where
count_where-delete-le p k [] = omega arith
count_where-delete-le p k (r ∷ rows) = ground (arith, count_where-delete-le p k rows)

-- Behind the deletion of its own key, the queued copies of a message are those that Insert counts.
count_where-delete_key :
    (m : CachedMessage) (rows : List Row)
    → count_where (queued_as m.message_id) (delete_where (at_key m.account m.folder m.uid) rows)
      ≡ count_where (queued_copy m) rows
unfolding count_where delete_where
count_where-delete_key m [] = refl
count_where-delete_key m (r ∷ rows) = ground (arith, count_where-delete_key m rows)

count_one :
    (mid : Text) (m : CachedMessage) (id : ℕ) (dup : Bool)
    → count_where (queued_as mid) (row_of m id dup ∷ [])
      ≡ (if text_eq m.message_id mid && not dup then 1 else 0)
unfolding count_where row_of
count_one mid m id dup = ground arith

fits :
    (mid : Text) (m : CachedMessage) (rows : List Row) (id : ℕ)
    → is_nil mid ≡ false
    → count_where (queued_as mid) rows ≤ 1
    → count_where (queued_as mid) (delete_where (at_key m.account m.folder m.uid) rows)
        + count_where (queued_as mid) (row_of m id (is_dup m rows) ∷ [])
      ≤ 1
unfolding is_dup
fits mid m rows id named h = elim (Bool-cases (text_eq m.message_id mid)) [
  | inl same ↦
      let e : m.message_id ≡ mid = (text_eq_iff m.message_id mid).0 same in
      let own : count_where (queued_as mid) (delete_where (at_key m.account m.folder m.uid) rows)
          ≡ count_where (queued_copy m) rows =
        rw (← e) (count_where-delete_key m rows) in
      ground (
        arith,
        own,
        count_one mid m id (is_dup m rows),
        ap is_nil e,
        count_where-delete-le (queued_as mid) (at_key m.account m.folder m.uid) rows,
      )
  | inr other ↦ ground (
    arith,
    count_one mid m id (is_dup m rows),
    count_where-delete-le (queued_as mid) (at_key m.account m.folder m.uid) rows,
  )
]

-- Insert keeps every Message-ID that is not empty queued for enrichment at most once.
pub insert-IsOnce :
    (m : CachedMessage) (c : Cache) → IsOnce c.messages → IsOnce (insert m c).1.messages
unfolding insert
insert-IsOnce m c h = record {
  once =
      λ mid named. rw count_where-append (fits mid m c.messages c.next_id named (h.once mid named));
}
