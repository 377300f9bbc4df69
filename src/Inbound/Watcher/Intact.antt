-- ===== src/Inbound/Watcher/Intact.antt =====
-- What a poll of a folder does to one message.
use imap_mcp.Prelude.{
  ℕ, ◌≡◌, ◌∙◌, sym, refl, Bool, true, false, List, [], ◌∷◌, Option, some, Text, Bool-cases, inl,
  inr, arith, ap,
}
use imap_mcp.Trust.{Store}
use imap_mcp.Mail.{Tried, done, failed, among}
use imap_mcp.Inbound.Watcher.{
  Server, Watch, Watched, Fetched, folder_of, handle, fetched, poll_uids,
}
use imap_mcp.Inbound.Watcher.Mailboxes.{
  View, IsPolled, Kept, holds_command, times, is_at, is_at-place,
}

module _ (hmac_sha256 : Text → Text → Text) (parse_time : Text → Option ℕ) (format_time : ℕ → Text)
    {N : Type 0} (store : Option (Store N)) {S : Type 0} (c : Server S) (clock : ℕ → ℕ) (v : View S)
    (documented : IsPolled c v) (a f : Text) (u : ℕ) (m : Fetched) (b : Bool) (n : ℕ) where
  -- The message is at the place, marked or not as `b` says, and was processed `n` times.
  abbrev pub Intact : Watch S N → Type 0
  Intact w =
      (v.msg w.server a f u ≡ some m) × (v.seen w.server a f u ≡ b) × (times v a f u w.handled ≡ n)

  -- A call that keeps the place
  pub kept :
      (w : Watch S N) (s : S)
      → Kept v a f u w.server s
      → Intact w
      → Intact (record w { server = s })
  kept w s same h = let (there, mark) = same m h.0 in (there, mark ∙ h.1, h.2)

  -- A UID of the folder of an account that may be the place only if its message holds no command
  abbrev pub IsHarmless : Watched → ℕ → Type 0
  IsHarmless acct uid =
      acct.account.name ≡ a
      → v.canon acct.account.name (folder_of acct) ≡ f
      → uid ≡ u
      → holds_command m ≡ false

  -- A message that holds a command stands elsewhere.
  elsewhere :
      (acct : Watched) (uid : ℕ) (m' : Fetched) (s : S)
      → (acct.account.name ≡ a
          → v.opened s acct.account.name ≡ f
          → uid ≡ u
          → holds_command m' ≡ false)
      → holds_command m' ≡ true
      → ¬ ((acct.account.name ≡ a) × (v.opened s acct.account.name ≡ f) × (uid ≡ u))
  elsewhere acct uid m' s harmless command (name, folder, same) =
      let ordinary = harmless name folder same in ground arith

  pub handle-Intact :
      (acct : Watched) (uid : ℕ) (m' : Fetched) (w : Watch S N)
      → v.opened w.server acct.account.name ≡ v.canon acct.account.name (folder_of acct)
      → (acct.account.name ≡ a
          → v.opened w.server acct.account.name ≡ f
          → uid ≡ u
          → holds_command m' ≡ false)
      → Intact w
      → Intact (handle hmac_sha256 parse_time format_time store c clock acct uid m' w)
  unfolding handle
  handle-Intact acct uid m' w opened harmless h = elim (Bool-cases (holds_command m')) [
    | inr ordinary ↦ rw ordinary h
    | inl command ↦
        let out = elsewhere acct uid m' w.server harmless command in
        let (there, mark) = documented.store-keeps acct.account.name uid w.server a f u out m h.0 in
        elim (Bool-cases (is_at v a f u acct.account.name (folder_of acct) uid)) [
          | inl at ↦
              let (name, folder, same) =
                is_at-place v a f u acct.account.name (folder_of acct) uid at in
              absurd (out (name, opened ∙ folder, same))
          | inr away ↦ rw command (there, mark ∙ h.1, rw away h.2)
        ]
  ]

  pub handle-opened :
      (acct : Watched) (uid : ℕ) (m' : Fetched) (w : Watch S N)
      → v.opened
          (handle hmac_sha256 parse_time format_time store c clock acct uid m' w).server
          acct.account.name
        ≡ v.opened w.server acct.account.name
  unfolding handle
  handle-opened acct uid m' w = elim (Bool-cases (holds_command m')) [
    | inr ordinary ↦ rw ordinary refl
    | inl command ↦ rw command (documented.store-opened acct.account.name uid w.server)
  ]

  -- The folder of the account is open, and the place is intact.
  abbrev pub OnFolder : Watched → Watch S N → Type 0
  OnFolder acct w =
      Intact w × (v.opened w.server acct.account.name ≡ v.canon acct.account.name (folder_of acct))

  pub fetched-OnFolder :
      (acct : Watched) (uid : ℕ) (msgs : Tried (List Fetched)) (w : Watch S N)
      → ((m' : Fetched) (rest : List Fetched)
          → msgs ≡ done (m' ∷ rest)
          → acct.account.name ≡ a
          → v.opened w.server acct.account.name ≡ f
          → uid ≡ u
          → holds_command m' ≡ false)
      → OnFolder acct w
      → OnFolder acct (fetched hmac_sha256 parse_time format_time store c clock acct uid msgs w)
  unfolding fetched
  fetched-OnFolder acct uid (failed e) w harmless h = h
  fetched-OnFolder acct uid (done []) w harmless h = h
  fetched-OnFolder acct uid (done (m' ∷ rest)) w harmless (intact, opened) = (
    handle-Intact acct uid m' w opened (harmless m' rest refl) intact,
    handle-opened acct uid m' w ∙ opened,
  )

  -- What the fetch reads at the place is the message.
  read-harmless :
      (acct : Watched) (uid : ℕ) (w : Watch S N) (m' : Fetched) (rest : List Fetched)
      → IsHarmless acct uid
      → OnFolder acct w
      → (c.fetch acct.account.name uid w.server).0 ≡ done (m' ∷ rest)
      → acct.account.name ≡ a
      → v.opened (c.fetch acct.account.name uid w.server).1 acct.account.name ≡ f
      → uid ≡ u
      → holds_command m' ≡ false
  read-harmless acct uid w m' rest harmless (intact, opened) e p q r =
      let name = acct.account.name in
      let there = sym (documented.fetch-opened name uid w.server) ∙ q in
      let is_m = documented.fetch-reads name uid w.server m m' rest e (rw (there, p, r) intact.0) in
      ap holds_command is_m ∙ harmless p (sym opened ∙ there) r

  pub poll_uids-Intact :
      (acct : Watched) (uids : List ℕ) (w : Watch S N)
      → ((uid : ℕ) → among uids uid ≡ true → IsHarmless acct uid)
      → OnFolder acct w
      → Intact (poll_uids hmac_sha256 parse_time format_time store c clock acct uids w)
  unfolding poll_uids among
  poll_uids-Intact acct [] w harmless h = h.0
  poll_uids-Intact acct (uid ∷ uids) w harmless h =
      let name = acct.account.name in
      let (msgs, s) = c.fetch name uid w.server in
      let now = kept w s (documented.fetch-keeps name uid w.server a f u) h.0 in
      let first = harmless uid (ground arith) in
      poll_uids-Intact acct uids _ (λ other listed. harmless other (ground arith))
        (fetched-OnFolder acct uid msgs (record w { server = s })
          (λ m' rest. read-harmless acct uid w m' rest first h)
          (now, documented.fetch-opened name uid w.server ∙ h.1))
