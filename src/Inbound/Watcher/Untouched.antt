-- ===== src/Inbound/Watcher/Untouched.antt =====
-- What the watcher leaves alone.
use imap_mcp.Prelude.{
  ℕ, zero, suc, ◌≡◌, ◌∙◌, refl, Bool, true, false, List, [], ◌∷◌, Option, some, Text, if◌then◌else◌,
  Bool-cases, inl, inr, arith, ◌⊎◌, is_nil,
}
use imap_mcp.Trust.{Store}
use imap_mcp.Mail.{Tried, done, failed, among}
use imap_mcp.Inbound.Watcher.{
  Server, Watch, Watched, Fetched, folder_of, is_enabled, accounts, found, selected, resolved,
  poll_account, poll_all, poll_ticks, run,
}
use imap_mcp.Inbound.Watcher.Mailboxes.{View, IsPolled, holds_command, times}
use imap_mcp.Inbound.Watcher.Intact.{Intact, OnFolder, kept, poll_uids-Intact}

module _ (hmac_sha256 : Text → Text → Text) (parse_time : Text → Option ℕ) (format_time : ℕ → Text)
    {N : Type 0} (store : Option (Store N)) {S : Type 0} (c : Server S) (clock : ℕ → ℕ) (v : View S)
    (documented : IsPolled c v) (a f : Text) (u : ℕ) (m : Fetched) (b : Bool) (n : ℕ) where
  abbrev Here : Watch S N → Type 0
  Here w = Intact hmac_sha256 parse_time format_time store c clock v documented a f u m b n w

  -- The place is at rest: its message holds no command, or is marked.
  abbrev pub IsAtRest : Type 0
  IsAtRest = (holds_command m ≡ false) ⊎ (b ≡ true)

  unlisted : (uid : ℕ) (uids : List ℕ) → among uids uid ≡ true → among uids uid ≡ false → ⊥
  unlisted uid uids in_list out = ground arith

  found-Intact :
      (acct : Watched) (uids : Tried (List ℕ)) (w : Watch S N) (s : S)
      → IsAtRest
      → (c.search_unseen acct.account.name s).0 ≡ uids
      → v.opened s acct.account.name ≡ v.canon acct.account.name (folder_of acct)
      → v.seen s a f u ≡ b
      → OnFolder hmac_sha256 parse_time format_time store c clock v documented a f u m b n acct w
      → Here (found hmac_sha256 parse_time format_time store c clock acct uids w).1
  unfolding found
  found-Intact acct (failed e) w s rest listed opened mark h = h.0
  found-Intact acct (done uids) w s (inl ordinary) listed opened mark h =
      poll_uids-Intact hmac_sha256 parse_time format_time store c clock v documented a f u m b n
        acct uids w (λ uid in_list p q r. ordinary) h
  found-Intact acct (done uids) w s (inr marked) listed opened mark h =
      poll_uids-Intact hmac_sha256 parse_time format_time store c clock v documented a f u m b n
        acct uids w
        (λ uid in_list p q r. absurd (
          unlisted uid uids in_list (
            documented.search-unseen acct.account.name s uids uid listed
              (rw (opened ∙ q, p, r) (mark ∙ marked)))))
        h

  selected-Intact :
      (acct : Watched) (opens : Tried ℕ) (w : Watch S N)
      → IsAtRest
      → ((k : ℕ)
          → opens ≡ done k
          → v.opened w.server acct.account.name ≡ v.canon acct.account.name (folder_of acct))
      → Here w
      → Here (selected hmac_sha256 parse_time format_time store c clock acct opens w).1
  unfolding selected
  selected-Intact acct (failed e) w rest opened h = h
  selected-Intact acct (done k) w rest opened h =
      let name = acct.account.name in
      let (uids, s) = c.search_unseen name w.server in
      let now =
        kept hmac_sha256 parse_time format_time store c clock v documented a f u m b n w s
          (documented.search-keeps name w.server a f u) h in
      found-Intact acct uids (record w { server = s }) w.server rest refl (opened k refl) h.1
        (now, documented.search-opened name w.server ∙ opened k refl)

  resolved-Intact :
      (acct : Watched) (conn : Tried Bool) (w : Watch S N)
      → IsAtRest
      → Here w
      → Here (resolved hmac_sha256 parse_time format_time store c clock acct conn w).1
  unfolding resolved
  resolved-Intact acct (failed e) w rest h = h
  resolved-Intact acct (done conn) w rest h =
      let name = acct.account.name in
      let (opens, s) = c.select name (folder_of acct) w.server in
      selected-Intact acct opens (record w { server = s }) rest
        (λ k e. documented.select-opens name (folder_of acct) w.server k e)
        (kept hmac_sha256 parse_time format_time store c clock v documented a f u m b n w s
          (documented.select-keeps name (folder_of acct) w.server a f u) h)

  pub polled-Intact :
      (acct : Watched) (w : Watch S N)
      → IsAtRest
      → Here w
      → Here (
          if is_enabled acct
          then (poll_account hmac_sha256 parse_time format_time store c clock acct w).1
          else w)
  unfolding poll_account
  polled-Intact acct w rest h =
      let name = acct.account.name in
      let (conn, s) = c.resolve name w.server in
      let now =
        kept hmac_sha256 parse_time format_time store c clock v documented a f u m b n w s
          (documented.resolve-keeps name w.server a f u) h in
      elim (Bool-cases (is_enabled acct)) [
        | inl enabled ↦ rw enabled (resolved-Intact acct conn (record w { server = s }) rest now)
        | inr disabled ↦ rw disabled h
      ]

  poll_all-Intact :
      (cfg : List Watched) (w : Watch S N)
      → IsAtRest
      → Here w
      → Here (poll_all hmac_sha256 parse_time format_time store c clock cfg w)
  unfolding poll_all
  poll_all-Intact [] w rest h = h
  poll_all-Intact (acct ∷ cfg) w rest h = poll_all-Intact cfg _ rest (polled-Intact acct w rest h)

  poll_ticks-Intact :
      (cfg : List Watched) (ticks : ℕ) (w : Watch S N)
      → IsAtRest
      → Here w
      → Here (poll_ticks hmac_sha256 parse_time format_time store c clock cfg ticks w)
  unfolding poll_ticks
  poll_ticks-Intact cfg zero w rest h = poll_all-Intact cfg w rest h
  poll_ticks-Intact cfg (suc ticks) w rest h =
      poll_ticks-Intact cfg ticks _ rest (poll_all-Intact cfg w rest h)

module _ (hmac_sha256 : Text → Text → Text) (parse_time : Text → Option ℕ) (format_time : ℕ → Text)
    {N : Type 0} (store : Option (Store N)) {S : Type 0} (c : Server S) (clock : ℕ → ℕ) (v : View S)
    (documented : IsPolled c v) (cfg : List Watched) (ticks : ℕ) (w : Watch S N) where
  -- On servers that do what IMAP documents, however long the watcher runs, a message that holds no
  -- command, or that is marked as seen, keeps its content and its mark and is not processed again,
  -- whatever else is in the mailboxes, and whichever calls fail.
  pub run-untouched :
      (a f : Text) (u : ℕ) (m : Fetched)
      → v.msg w.server a f u ≡ some m
      → (holds_command m ≡ false) ⊎ (v.seen w.server a f u ≡ true)
      → (v.msg (run hmac_sha256 parse_time format_time store c clock cfg ticks w).server a f u
          ≡ some m)
        × (v.seen (run hmac_sha256 parse_time format_time store c clock cfg ticks w).server a f u
            ≡ v.seen w.server a f u)
        × (times v a f u (run hmac_sha256 parse_time format_time store c clock cfg ticks w).handled
            ≡ times v a f u w.handled)
  unfolding run
  run-untouched a f u m there rest = elim (Bool-cases (is_nil (accounts cfg))) [
    | inl idle ↦ rw idle (there, refl, refl)
    | inr busy ↦ rw busy (
        poll_ticks-Intact hmac_sha256 parse_time format_time store c clock v documented a f u m
          (v.seen w.server a f u) (times v a f u w.handled) cfg ticks w rest (there, refl, refl))
  ]
