-- ===== src/Cache/Tests.antt =====
-- The theorems of the cache at a cache with three rows.
use imap_mcp.Prelude.{ℕ, ◌≡◌, refl, false, [], ◌∷◌, Option, none, some, Text, bytes, text_eq, arith}
use imap_mcp.Cache.{Row, Cache, CachedMessage, pending, insert, is_dup, count_where}
use imap_mcp.Cache.Queue.{IsOnce}

abbrev row : ℕ → Text → ℕ → Text → Option ℕ → Row
row id folder uid mid lane = record {
  id = id;
  account = bytes "work";
  folder = folder;
  uid = uid;
  message_id = mid;
  flags = [];
  internal_date = 0;
  status = pending;
  lane = lane;
}

abbrev inbox : Text
inbox = bytes "INBOX"

abbrev start : Cache
start = record {
  messages =
      row 1 inbox 3 (bytes "a") (some 0)
      ∷ row 2 inbox 4 (bytes "b") none
      ∷ row 3 (bytes "Old") 9 (bytes "c") none
      ∷ [];
  sync_state = [];
  next_id = 4;
}

-- The copy of a queued message in another folder.
abbrev copy : CachedMessage
copy = record {
  account = bytes "work";
  folder = bytes "Old";
  uid = 10;
  message_id = bytes "a";
  flags = [];
  internal_date = 0;
  backfill = false;
}

not_queued : (insert copy start).0.queued ≡ false
unfolding insert is_dup count_where text_eq
not_queued = refl

start-IsOnce : IsOnce start.messages
unfolding count_where
start-IsOnce = record { once = λ mid named. ground arith }
