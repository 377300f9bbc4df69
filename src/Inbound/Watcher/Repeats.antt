-- ===== src/Inbound/Watcher/Repeats.antt =====
-- How often the watcher processes a message, over all its polls.
use imap_mcp.Prelude.{
  ℕ, zero, suc, ◌≡◌, ◌∙◌, refl, Bool, true, false, List, [], ◌∷◌, Option, some, Text, if◌then◌else◌,
  Bool-cases, inl, inr, ◌⊎◌, is_nil,
}
use imap_mcp.Trust.{Store}
use imap_mcp.Mail.{Tried, done, failed}
use imap_mcp.Inbound.Watcher.{
  Server, Watch, Watched, Fetched, folder_of, is_enabled, accounts, found, selected, resolved,
  poll_account, poll_all, poll_ticks, run,
}
use imap_mcp.Inbound.Watcher.Mailboxes.{View, IsPolled, times}
use imap_mcp.Inbound.Watcher.Intact.{Intact, OnFolder, kept}
use imap_mcp.Inbound.Watcher.Untouched.{polled-Intact}
use imap_mcp.Inbound.Watcher.Once.{IsMarking, Once, poll_uids-Once}

module _ (hmac_sha256 : Text → Text → Text) (parse_time : Text → Option ℕ) (format_time : ℕ → Text)
    {N : Type 0} (store : Option (Store N)) {S : Type 0} (c : Server S) (clock : ℕ → ℕ) (v : View S)
    (documented : IsPolled c v) (marking : IsMarking c v) (a f : Text) (u : ℕ) (m : Fetched)
    (n : ℕ) where
  abbrev Fresh : Watch S N → Type 0
  Fresh w = Intact hmac_sha256 parse_time format_time store c clock v documented a f u m false n w

  abbrev OnceMore : Watch S N → Type 0
  OnceMore w =
      Once hmac_sha256 parse_time format_time store c clock v documented marking a f u m n w

  found-Once :
      (acct : Watched) (uids : Tried (List ℕ)) (w : Watch S N) (s : S)
      → (c.search_unseen acct.account.name s).0 ≡ uids
      → OnFolder hmac_sha256 parse_time format_time store c clock v documented a f u m false n acct
          w
      → OnceMore (found hmac_sha256 parse_time format_time store c clock acct uids w).1
  unfolding found
  found-Once acct (failed e) w s listed h = inl h.0
  found-Once acct (done uids) w s listed h =
      poll_uids-Once hmac_sha256 parse_time format_time store c clock v documented marking a f u m n
        acct uids w (marking.search-distinct acct.account.name s uids listed) h

  selected-Once :
      (acct : Watched) (opens : Tried ℕ) (w : Watch S N)
      → ((k : ℕ)
          → opens ≡ done k
          → v.opened w.server acct.account.name ≡ v.canon acct.account.name (folder_of acct))
      → Fresh w
      → OnceMore (selected hmac_sha256 parse_time format_time store c clock acct opens w).1
  unfolding selected
  selected-Once acct (failed e) w opened h = inl h
  selected-Once acct (done k) w opened h =
      let name = acct.account.name in
      let (uids, s) = c.search_unseen name w.server in
      let now =
        kept hmac_sha256 parse_time format_time store c clock v documented a f u m false n w s
          (documented.search-keeps name w.server a f u) h in
      found-Once acct uids (record w { server = s }) w.server refl
        (now, documented.search-opened name w.server ∙ opened k refl)

  resolved-Once :
      (acct : Watched) (conn : Tried Bool) (w : Watch S N)
      → Fresh w
      → OnceMore (resolved hmac_sha256 parse_time format_time store c clock acct conn w).1
  unfolding resolved
  resolved-Once acct (failed e) w h = inl h
  resolved-Once acct (done conn) w h =
      let name = acct.account.name in
      let (opens, s) = c.select name (folder_of acct) w.server in
      selected-Once acct opens (record w { server = s })
        (λ k e. documented.select-opens name (folder_of acct) w.server k e)
        (kept hmac_sha256 parse_time format_time store c clock v documented a f u m false n w s
          (documented.select-keeps name (folder_of acct) w.server a f u) h)

  polled-Once :
      (acct : Watched) (w : Watch S N)
      → Fresh w
      → OnceMore (
          if is_enabled acct
          then (poll_account hmac_sha256 parse_time format_time store c clock acct w).1
          else w)
  unfolding poll_account
  polled-Once acct w h =
      let name = acct.account.name in
      let (conn, s) = c.resolve name w.server in
      let now =
        kept hmac_sha256 parse_time format_time store c clock v documented a f u m false n w s
          (documented.resolve-keeps name w.server a f u) h in
      elim (Bool-cases (is_enabled acct)) [
        | inl enabled ↦ rw enabled (resolved-Once acct conn (record w { server = s }) now)
        | inr disabled ↦ rw disabled (inl h)
      ]

  poll_all-Once :
      (cfg : List Watched) (w : Watch S N)
      → OnceMore w
      → OnceMore (poll_all hmac_sha256 parse_time format_time store c clock cfg w)
  unfolding poll_all
  poll_all-Once [] w h = h
  poll_all-Once (acct ∷ cfg) w (inl h) = poll_all-Once cfg _ (polled-Once acct w h)
  poll_all-Once (acct ∷ cfg) w (inr h) = poll_all-Once cfg _ (
      inr (
        polled-Intact hmac_sha256 parse_time format_time store c clock v documented a f u m true
          (suc n) acct w (inr refl) h))

  poll_ticks-Once :
      (cfg : List Watched) (ticks : ℕ) (w : Watch S N)
      → OnceMore w
      → OnceMore (poll_ticks hmac_sha256 parse_time format_time store c clock cfg ticks w)
  unfolding poll_ticks
  poll_ticks-Once cfg zero w h = poll_all-Once cfg w h
  poll_ticks-Once cfg (suc ticks) w h = poll_ticks-Once cfg ticks _ (poll_all-Once cfg w h)

  -- A run that idles or polls
  run-Once :
      (cfg : List Watched) (ticks : ℕ) (w : Watch S N)
      → Fresh w
      → OnceMore (run hmac_sha256 parse_time format_time store c clock cfg ticks w)
  unfolding run
  run-Once cfg ticks w h = elim (Bool-cases (is_nil (accounts cfg))) [
    | inl idle ↦ rw idle (inl h)
    | inr busy ↦ rw busy (poll_ticks-Once cfg ticks w (inl h))
  ]

module _ (hmac_sha256 : Text → Text → Text) (parse_time : Text → Option ℕ) (format_time : ℕ → Text)
    {N : Type 0} (store : Option (Store N)) {S : Type 0} (c : Server S) (clock : ℕ → ℕ) (v : View S)
    (documented : IsPolled c v) (marking : IsMarking c v) (cfg : List Watched) (ticks : ℕ)
    (w : Watch S N) where
  -- On servers that do what IMAP documents, whose STORE always succeeds and whose SEARCH lists no
  -- UID twice, and where no two accounts share a mailbox, an unseen message of an account is, however
  -- long the watcher runs, either not processed and stays unseen, or processed once and marked.
  pub run-at_most_once :
      (a f : Text) (u : ℕ) (m : Fetched)
      → v.msg w.server a f u ≡ some m
      → v.seen w.server a f u ≡ false
      → ((times v a f u (run hmac_sha256 parse_time format_time store c clock cfg ticks w).handled
            ≡ times v a f u w.handled)
          × (v.seen (run hmac_sha256 parse_time format_time store c clock cfg ticks w).server a f u
              ≡ false))
        ⊎ ((times v a f u (run hmac_sha256 parse_time format_time store c clock cfg ticks w).handled
              ≡ suc (times v a f u w.handled))
            × (v.seen
                  (run hmac_sha256 parse_time format_time store c clock cfg ticks w).server
                  a
                  f
                  u
                ≡ true))
  run-at_most_once a f u m there unseen =
      elim (run-Once hmac_sha256 parse_time format_time store c clock v documented marking a f u m
        (times v a f u w.handled) cfg ticks w (there, unseen, refl)) [
          | inl intact ↦ inl (intact.2, intact.1)
          | inr marked ↦ inr (marked.2, marked.1)
        ]
