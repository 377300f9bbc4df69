-- ===== src/Inbound/Watcher/Once.antt =====
-- How often the watcher processes one message.
use imap_mcp.Prelude.{
  ℕ, suc, ◌≡◌, ◌∙◌, sym, refl, Bool, true, false, List, [], ◌∷◌, Option, some, Text, text_eq_iff,
  Bool-cases, inl, inr, arith, ap, ◌⊎◌,
}
use mathlib.Core.Path.{subst}
use imap_mcp.Trust.{Store}
use imap_mcp.Mail.{Tried, done, failed, among}
use imap_mcp.Inbound.Watcher.{
  Server, Watch, Watched, Fetched, folder_of, handle, fetched, poll_uids,
}
use imap_mcp.Inbound.Watcher.Mailboxes.{View, IsPolled, holds_command, is_at, is_at-place}
use imap_mcp.Inbound.Watcher.Intact.{
  Intact, OnFolder, kept, fetched-OnFolder, handle-opened, poll_uids-Intact,
}

abbrev pub IsDistinct : List ℕ → Type 0
IsDistinct [] = Unit
IsDistinct (uid ∷ uids) = (among uids uid ≡ false) × IsDistinct uids

-- Servers whose STORE always succeeds, which marks the message, and whose SEARCH lists no UID twice
pub record IsMarking {S : Type 0} (c : Server S) (v : View S) : Type 0 where
  pub store-marks :
      (b f : Text) (w : ℕ) (s : S) (m : Fetched)
      → v.opened s b ≡ f
      → v.msg s b f w ≡ some m
      → (v.msg (c.store_seen b w s).1 b f w ≡ some m) × (v.seen (c.store_seen b w s).1 b f w ≡ true)
  pub search-distinct :
      (b : Text) (s : S) (uids : List ℕ) → (c.search_unseen b s).0 ≡ done uids → IsDistinct uids

clash : (b : Bool) → b ≡ true → b ≡ false → ⊥
clash b yes_ no_ = ground arith

module _ {S : Type 0} (v : View S) (a f : Text) (u : ℕ) where
  is_at-here :
      (account folder : Text) (uid : ℕ)
      → account ≡ a
      → v.canon account folder ≡ f
      → uid ≡ u
      → is_at v a f u account folder uid ≡ true
  is_at-here account folder uid p q r =
      let same_account = text_eq_iff account a in
      let same_folder = text_eq_iff (v.canon account folder) f in ground arith

module _ (hmac_sha256 : Text → Text → Text) (parse_time : Text → Option ℕ) (format_time : ℕ → Text)
    {N : Type 0} (store : Option (Store N)) {S : Type 0} (c : Server S) (clock : ℕ → ℕ) (v : View S)
    (documented : IsPolled c v) (marking : IsMarking c v) (a f : Text) (u : ℕ) (m : Fetched)
    (n : ℕ) where
  -- The message as it was, or marked after it was processed once more
  abbrev pub Once : Watch S N → Type 0
  Once w =
      Intact hmac_sha256 parse_time format_time store c clock v documented a f u m false n w
      ⊎ Intact hmac_sha256 parse_time format_time store c clock v documented a f u m true (suc n) w

  handle-Once :
      (acct : Watched) (uid : ℕ) (w : Watch S N)
      → acct.account.name ≡ a
      → v.canon acct.account.name (folder_of acct) ≡ f
      → uid ≡ u
      → OnFolder hmac_sha256 parse_time format_time store c clock v documented a f u m false n acct
          w
      → Once (handle hmac_sha256 parse_time format_time store c clock acct uid m w)
  unfolding handle
  handle-Once acct uid w p q r (intact, opened) = elim (Bool-cases (holds_command m)) [
    | inr ordinary ↦ inl (rw ordinary intact)
    | inl command ↦
        let (there, mark) =
          marking.store-marks acct.account.name f uid w.server m (opened ∙ q)
            (rw (p, r) intact.0) in
        let here = is_at-here v a f u acct.account.name (folder_of acct) uid p q r in
        inr
          (rw command (rw (sym p, sym r) there, rw (sym p, sym r) mark, rw here (ap suc intact.2)))
  ]

  fetched-opened :
      (acct : Watched) (uid : ℕ) (msgs : Tried (List Fetched)) (w : Watch S N)
      → v.opened
          (fetched hmac_sha256 parse_time format_time store c clock acct uid msgs w).server
          acct.account.name
        ≡ v.opened w.server acct.account.name
  unfolding fetched
  fetched-opened acct uid (failed e) w = refl
  fetched-opened acct uid (done []) w = refl
  fetched-opened acct uid (done (m' ∷ rest)) w =
      handle-opened hmac_sha256 parse_time format_time store c clock v documented a f u m false n
        acct uid m' w

  fetched-Once :
      (acct : Watched) (uid : ℕ) (msgs : Tried (List Fetched)) (w : Watch S N)
      → acct.account.name ≡ a
      → v.canon acct.account.name (folder_of acct) ≡ f
      → uid ≡ u
      → ((m' : Fetched) (rest : List Fetched) → msgs ≡ done (m' ∷ rest) → m' ≡ m)
      → OnFolder hmac_sha256 parse_time format_time store c clock v documented a f u m false n acct
          w
      → Once (fetched hmac_sha256 parse_time format_time store c clock acct uid msgs w)
  unfolding fetched
  fetched-Once acct uid (failed e) w p q r reads h = inl h.0
  fetched-Once acct uid (done []) w p q r reads h = inl h.0
  fetched-Once acct uid (done (m' ∷ rest)) w p q r reads h =
      subst (λ x. Once (handle hmac_sha256 parse_time format_time store c clock acct uid x w))
        (sym (reads m' rest refl)) (handle-Once acct uid w p q r h)

  pub poll_uids-Once :
      (acct : Watched) (uids : List ℕ) (w : Watch S N)
      → IsDistinct uids
      → OnFolder hmac_sha256 parse_time format_time store c clock v documented a f u m false n acct
          w
      → Once (poll_uids hmac_sha256 parse_time format_time store c clock acct uids w)
  unfolding poll_uids
  poll_uids-Once acct [] w distinct h = inl h.0
  poll_uids-Once acct (uid ∷ uids) w distinct h =
      let name = acct.account.name in
      let (msgs, s) = c.fetch name uid w.server in
      let w' : Watch S N = record w { server = s } in
      let opened = documented.fetch-opened name uid w.server ∙ h.1 in
      let keeps = documented.fetch-keeps name uid w.server a f u in
      let now =
        kept hmac_sha256 parse_time format_time store c clock v documented a f u m false n w s keeps
          h.0 in
      elim (Bool-cases (is_at v a f u name (folder_of acct) uid)) [
        | inr away ↦ poll_uids-Once acct uids _ distinct.1 (
            fetched-OnFolder hmac_sha256 parse_time format_time store c clock v documented a f u m
              false n acct uid msgs w'
              (λ m' rest e p q r.
                absurd (
                  clash _ (is_at-here v a f u name (folder_of acct) uid p (sym opened ∙ q) r) away))
              (now, opened))
        | inl at ↦
            let (p, q, r) = is_at-place v a f u name (folder_of acct) uid at in
            let opened' = fetched-opened acct uid msgs w' ∙ opened in
            elim (fetched-Once acct uid msgs w' p q r
              (λ m' rest e.
                documented.fetch-reads name uid w.server m m' rest e (rw (h.1 ∙ q, p, r) h.0.0))
              (now, opened)) [
                | inl intact ↦ poll_uids-Once acct uids _ distinct.1 (intact, opened')
                | inr marked ↦ inr (
                    poll_uids-Intact hmac_sha256 parse_time format_time store c clock v documented a
                      f u m true (suc n) acct uids _
                      (λ other listed p' q' r'.
                        absurd (clash _ listed (rw (r' ∙ sym r) distinct.0)))
                      (marked, opened'))
              ]
      ]
