-- ===== src/Inbound/Watcher/Tests.antt =====
-- A watcher at a mailbox with an ordinary message and one that tries a command.
use imap_mcp.Prelude.{
  ap, ◌⊎◌, ℕ, ◌≡◌, refl, Bool, true, false, ◌&&◌, ◌||◌, List, [], ◌∷◌, ◌++◌, Option, none, some,
  Text, bytes, text_eq, text_eq_iff, ◌==◌, if◌then◌else◌, Bool-cases, inl, inr, arith,
}
use mathlib.Core.Path.{subst}
use imap_mcp.Prelude.Bytes.{text_contains, index, has_prefix}
use imap_mcp.Trust.{Store, fresh}
use imap_mcp.Trust.Envelope.{env_begin}
use imap_mcp.Mail.{Tried, done, failed, among}
use imap_mcp.Inbound.{has_envelope}
use imap_mcp.Inbound.Watcher.{Server, Watch, Watched, Fetched, text_part, run, body_of}
use imap_mcp.Inbound.Watcher.Mailboxes.{View, IsPolled, Kept, holds_command, times}
use imap_mcp.Inbound.Watcher.Untouched.{run-untouched}
use imap_mcp.Inbound.Watcher.Once.{IsMarking, IsDistinct}
use imap_mcp.Inbound.Watcher.Repeats.{run-at_most_once}

abbrev me : Text
me = bytes "me"

abbrev inbox : Text
inbox = bytes "INBOX"

abbrev ordinary : Fetched
ordinary = record { from = bytes "ann@x.org" ∷ []; parts = text_part (bytes "Hi") ∷ [] }

abbrev attempt : Fetched
attempt = record { from = bytes "eve@x.org" ∷ []; parts = text_part env_begin ∷ [] }

abbrev stored : Text → ℕ → Option Fetched
stored b u =
    if text_eq b me
    then if u == 1 then some ordinary else if u == 2 then some attempt else none
    else none

abbrev listing : Option Fetched → List Fetched
listing none = []
listing (some m) = m ∷ []

-- The state says which of the messages 1 and 2 are marked.
abbrev Marks : Type 0
Marks = Bool × Bool

abbrev mark : Text → ℕ → Marks → Marks
mark b u s = ((text_eq b me && u == 1) || s.0, (text_eq b me && u == 2) || s.1)

abbrev unread : Bool → Bool → List ℕ
unread true true = []
unread true false = 2 ∷ []
unread false true = 1 ∷ []
unread false false = 1 ∷ 2 ∷ []

abbrev server : Server Marks
server = record {
  resolve = λ b s. (done true, s);
  select = λ b g s. (if text_eq g inbox then done 2 else failed (bytes "no such folder"), s);
  search_unseen = λ b s. (done (unread s.0 s.1), s);
  fetch = λ b u s. (done (listing (stored b u)), s);
  store_seen = λ b u s. (done true, mark b u s);
}

abbrev view : View Marks
view = record {
  msg = λ s a f u. if text_eq f inbox then stored a u else none;
  seen = λ s a f u. (u == 1 && s.0) || (u == 2 && s.1);
  opened = λ s b. inbox;
  canon = λ b g. g;
}

opens :
    (g : Text) (n : ℕ)
    → (if text_eq g inbox then done 2 else failed (bytes "no such folder")) ≡ done n
    → inbox ≡ g
opens g n e = let same = text_eq_iff g inbox in ground arith

unseen :
    (r t : Bool) (uids : List ℕ) (u : ℕ)
    → done (unread r t) ≡ done uids
    → (u == 1 && r) || (u == 2 && t) ≡ true
    → among uids u ≡ false
unfolding among
unseen true true uids u e marked = ground arith
unseen true false uids u e marked = ground arith
unseen false true uids u e marked = ground arith
unseen false false uids u e marked = ground arith

unread-IsDistinct : (r t : Bool) → IsDistinct (unread r t)
unfolding among
unread-IsDistinct true true = tt
unread-IsDistinct true false = (refl, tt)
unread-IsDistinct false true = (refl, tt)
unread-IsDistinct false false = (refl, (refl, tt))

abbrev uids_of : Tried (List ℕ) → List ℕ
uids_of (done uids) = uids
uids_of (failed e) = []

listed-IsDistinct : (r t : Bool) (uids : List ℕ) → done (unread r t) ≡ done uids → IsDistinct uids
listed-IsDistinct r t uids e = subst IsDistinct (ap uids_of e) (unread-IsDistinct r t)

reads :
    (o : Option Fetched) (m m' : Fetched) (rest : List Fetched)
    → done (listing o) ≡ done (m' ∷ rest)
    → o ≡ some m
    → m' ≡ m
reads none m m' rest e e' = ground arith
reads (some x) m m' rest e e' = ground arith

present :
    (f a : Text) (u : ℕ) (m : Fetched)
    → (if text_eq f inbox then stored a u else none) ≡ some m
    → (inbox ≡ f) × (a ≡ me)
present f a u m there =
    let folder = text_eq_iff f inbox in let account = text_eq_iff a me in ground arith

stores :
    (b : Text) (w : ℕ) (s : Marks) (a f : Text) (u : ℕ)
    → ¬ ((b ≡ a) × (inbox ≡ f) × (w ≡ u))
    → Kept view a f u s (mark b w s)
stores b w s a f u out m there =
    let place = present f a u m there in
    let mine = text_eq_iff b me in
    elim (Bool-cases (text_eq b me)) [
      | inr other ↦ (there, rw other refl)
      | inl same ↦ elim (Bool-cases (w == u)) [
        | inl at ↦ absurd (out (ground arith, ground arith, ground arith))
        | inr elsewhere ↦ (there, rw same (ground arith))
      ]
    ]

marks :
    (b f : Text) (w : ℕ) (s : Marks) (m : Fetched)
    → inbox ≡ f
    → (if text_eq f inbox then stored b w else none) ≡ some m
    → (view.msg (mark b w s) b f w ≡ some m) × (view.seen (mark b w s) b f w ≡ true)
marks b f w s m opened there =
    let place = present f b w m there in let mine = text_eq_iff b me in (there, ground arith)

server-IsPolled : IsPolled server view
unfolding text_eq
server-IsPolled = record {
  resolve-keeps = λ b s a f u m there. (there, refl);
  select-keeps = λ b g s a f u m there. (there, refl);
  select-opens = λ b g s n e. opens g n e;
  search-keeps = λ b s a f u m there. (there, refl);
  search-opened = λ b s. refl;
  search-unseen = λ b s uids u e marked. unseen s.0 s.1 uids u e marked;
  fetch-keeps = λ b w s a f u m there. (there, refl);
  fetch-opened = λ b w s. refl;
  fetch-reads = λ b w s m m' rest e e'. reads (stored b w) m m' rest e e';
  store-keeps = λ b w s a f u out. stores b w s a f u out;
  store-opened = λ b w s. refl;
}

abbrev watched : Watched
watched = record {
  account = record {
    name = me;
    inbound = some (record {
      enabled = true;
      gates = record {
        allowlist = [];
        require_dkim = false;
        require_dmarc = false;
        hmac_secret = [];
        replay_window_minutes = 0;
        require_pgp = false;
      };
      capabilities = [];
    });
  };
  watch_folder = [];
}

abbrev mac : Text → Text → Text
mac secret text = secret ++ text

abbrev no_time : Text → Option ℕ
no_time s = none

abbrev blank : ℕ → Text
blank n = []

abbrev forgetful : Store ℕ
forgetful account nonce ts s = (fresh, s)

abbrev start : Watch Marks ℕ
start = record { server = (false, false); nonces = 0; events = []; handled = [] }

abbrev after : Watch Marks ℕ
after = run mac no_time blank (some forgetful) server (λ n. n) (watched ∷ []) 2 start

here : view.msg (false, false) me inbox 1 ≡ some ordinary
unfolding text_eq
here = refl

is_ordinary : holds_command ordinary ≡ false
unfolding has_envelope text_contains index has_prefix body_of
is_ordinary = refl

run-untouched_example :
    (view.msg after.server me inbox 1 ≡ some ordinary)
    × (view.seen after.server me inbox 1 ≡ false)
    × (times view me inbox 1 after.handled ≡ 0)
run-untouched_example =
    run-untouched mac no_time blank (some forgetful) server (λ n. n) view server-IsPolled
      (watched ∷ []) 2 start me inbox 1 ordinary here (inl is_ordinary)

server-IsMarking : IsMarking server view
server-IsMarking = record {
  store-marks = λ b f w s m opened there. marks b f w s m opened there;
  search-distinct = λ b s uids e. listed-IsDistinct s.0 s.1 uids e;
}

attempt_there : view.msg (false, false) me inbox 2 ≡ some attempt
unfolding text_eq
attempt_there = refl

run-at_most_once_example :
    ((times view me inbox 2 after.handled ≡ 0) × (view.seen after.server me inbox 2 ≡ false))
    ⊎ ((times view me inbox 2 after.handled ≡ 1) × (view.seen after.server me inbox 2 ≡ true))
run-at_most_once_example =
    run-at_most_once mac no_time blank (some forgetful) server (λ n. n) view server-IsPolled
      server-IsMarking (watched ∷ []) 2 start me inbox 2 attempt attempt_there refl

-- The attempt is marked at the first poll, and left out at the others.
tried_once : (after.server ≡ (false, true)) × (times view me inbox 2 after.handled ≡ 1)
unfolding run text_eq has_envelope text_contains
tried_once = (refl, refl)
