-- ===== src/HttpAuth/Tokens.antt =====
-- New and lookup: which token lists are accepted, and which principal a presented token has.
use mathlib.Core.List.{append_assoc, append-nil}
use mathlib.Core.Option
use imap_mcp.Prelude.{
  ◌≡◌, refl, ap, ◌∙◌, Bool, true, false, not, ◌&&◌, ◌||◌, List, [], ◌∷◌, ◌++◌, map, Option, none,
  some, Text, text_eq, contains, distinct, contains-append, text_eq_sym, text_eq_iff, is_nil,
  Bool-cases, arith, inl, inr, if◌then◌else◌,
}
use imap_mcp.HttpAuth.{
  Scope, Token, Principal, Entry, Authenticator, Result, ok, err, grant, principal_of, reuses,
  entry_of, add_tokens, new, lookup_in, lookup,
}

abbrev pub is_ok {ℓ} : {A : Type ℓ} → Result A → Bool
is_ok (ok a) = true
is_ok (err e) = false

-- No text of the first list is in the second.
abbrev apart : List Text → List Text → Bool
apart [] seen = true
apart (x ∷ xs) seen = not (contains seen x) && apart xs seen

abbrev pub names_of : List Token → List Text
names_of [] = []
names_of (t ∷ ts) = t.name ∷ names_of ts

abbrev hashes_of : List Entry → List Text
hashes_of [] = []
hashes_of (e ∷ es) = e.hash ∷ hashes_of es

apart-cons :
    (xs : List Text) (y : Text) (seen : List Text)
    → apart xs (y ∷ seen) ≡ (not (contains xs y) && apart xs seen)
unfolding contains
apart-cons [] y seen = refl
apart-cons (x ∷ xs) y seen = ground (arith, apart-cons xs y seen, text_eq_sym x y)

apart-concat :
    (xs : List Text) (y : Text) (seen : List Text)
    → apart xs (seen ++ y ∷ []) ≡ (not (contains xs y) && apart xs seen)
unfolding contains
apart-concat [] y seen = refl
apart-concat (x ∷ xs) y seen =
    ground (arith, apart-concat xs y seen, text_eq_sym x y, contains-append seen (y ∷ []) x)

apart-nil : (xs : List Text) → apart xs [] ≡ true
unfolding contains
apart-nil [] = refl
apart-nil (x ∷ xs) = apart-nil xs

hashes_of-concat :
    (es : List Entry) (e : Entry) → hashes_of (es ++ e ∷ []) ≡ hashes_of es ++ e.hash ∷ []
hashes_of-concat [] e = refl
hashes_of-concat (x ∷ es) e = ap (λ r. x.hash ∷ r) (hashes_of-concat es e)

reuses-contains :
    (h : Text) (es : List Entry)
    → elim (reuses h es) [ none ↦ true | some n ↦ false ] ≡ not (contains (hashes_of es) h)
unfolding reuses contains
reuses-contains h [] = refl
reuses-contains h (e ∷ es) = ground (arith, reuses-contains h es)

-- What a principal may do: the scopes of its token.
pub contains-grant :
    (ss held : List Scope) (s : Scope)
    → contains (grant ss held) s ≡ (contains ss s || contains held s)
unfolding grant contains
contains-grant [] held s = refl
contains-grant (x ∷ ss) held s = elim (Bool-cases (contains held x)) [
  | inl old ↦ elim (Bool-cases (text_eq x s)) [
    | inl same ↦
        let e : x ≡ s = (text_eq_iff x s).0 same in
        let there : contains held s ≡ true = rw (← e) old in
        ground (arith, contains-grant ss held s)
    | inr other ↦ ground (arith, contains-grant ss held s)
  ]
  | inr new ↦ ground (arith, contains-grant ss (x ∷ held) s)
]

as_map :
    (o : Option Token)
    → elim o [ none ↦ none | some t ↦ some (principal_of t) ] ≡ Option.map principal_of o
as_map none = refl
as_map (some t) = refl

module _ (sha256 : Text → Text) where
  abbrev pub digests_of : List Token → List Text
  digests_of [] = []
  digests_of (t ∷ ts) = sha256 t.value ∷ digests_of ts

  is_ok-add_tokens :
      (ts : List Token) (names : List Text) (es : List Entry)
      → is_ok (add_tokens sha256 ts names es) ≡ (
          (distinct (names_of ts) && apart (names_of ts) names)
          && (distinct (digests_of ts) && apart (digests_of ts) (hashes_of es)))
  unfolding add_tokens
  is_ok-add_tokens [] names es = refl
  is_ok-add_tokens (t ∷ ts) names es = ground (
    arith,
    is_ok-add_tokens ts (t.name ∷ names) (es ++ entry_of sha256 t ∷ []),
    apart-cons (names_of ts) t.name names,
    apart-concat (digests_of ts) (sha256 t.value) (hashes_of es),
    hashes_of-concat es (entry_of sha256 t),
    reuses-contains (sha256 t.value) es,
  )

  -- New accepts a token list exactly when it is not empty, no name is used twice, and no two values
  -- have the same digest.
  pub is_ok-new :
      (tokens : List Token) (open_paths : List Text)
      → is_ok (new sha256 tokens open_paths)
        ≡ (not (is_nil tokens) && (distinct (names_of tokens) && distinct (digests_of tokens)))
  unfolding new
  is_ok-new [] open_paths = refl
  is_ok-new (t ∷ ts) open_paths = ground (
    arith,
    is_ok-add_tokens (t ∷ ts) [] [],
    apart-nil (names_of (t ∷ ts)),
    apart-nil (digests_of (t ∷ ts)),
  )

  entries-add_tokens :
      (ts : List Token) (names : List Text) (es out : List Entry)
      → add_tokens sha256 ts names es ≡ ok out
      → out ≡ es ++ map (entry_of sha256) ts
  unfolding add_tokens
  entries-add_tokens [] names es out h = rw append-nil (cc)
  entries-add_tokens (t ∷ ts) names es out h =
      entries-add_tokens ts (t.name ∷ names) (es ++ entry_of sha256 t ∷ []) out (ground arith)
      ∙ append_assoc es (entry_of sha256 t ∷ []) (map (entry_of sha256) ts)

  -- The first token of the list whose value has the digest.
  abbrev pub token_for : Text → List Token → Option Token
  token_for h [] = none
  token_for h (t ∷ ts) = if text_eq h (sha256 t.value) then some t else token_for h ts

  token_for-none :
      (h : Text) (ts : List Token) → contains (digests_of ts) h ≡ false → token_for h ts ≡ none
  unfolding contains
  token_for-none h [] e = refl
  token_for-none h (t ∷ ts) e = ground (arith, token_for-none h ts, text_eq_sym h (sha256 t.value))

  lookup_in-map :
      (h : Text) (ts : List Token) (found : Option Principal)
      → distinct (digests_of ts) ≡ true
      → lookup_in h (map (entry_of sha256) ts) found
        ≡ elim (token_for h ts) [ none ↦ found | some t ↦ some (principal_of t) ]
  unfolding lookup_in entry_of contains
  lookup_in-map h [] found d = refl
  lookup_in-map h (t ∷ ts) found d = elim (Bool-cases (text_eq h (sha256 t.value))) [
    | inl same ↦
        let e : h ≡ sha256 t.value = (text_eq_iff h (sha256 t.value)).0 same in
        let fresh : contains (digests_of ts) h ≡ false = rw e (ground arith) in
        ground (arith, token_for-none h ts fresh, lookup_in-map h ts (some (principal_of t)))
    | inr other ↦ ground (arith, lookup_in-map h ts found)
  ]

  entries-new :
      (tokens : List Token) (open_paths : List Text) (a : Authenticator)
      → new sha256 tokens open_paths ≡ ok a
      → a.entries ≡ map (entry_of sha256) tokens
  unfolding new
  entries-new [] open_paths a h = cc
  entries-new (t ∷ ts) open_paths a h = entries-add_tokens (t ∷ ts) [] [] a.entries (ground arith)

  pub open_paths-new :
      (tokens : List Token) (open_paths : List Text) (a : Authenticator)
      → new sha256 tokens open_paths ≡ ok a
      → a.open_paths ≡ open_paths
  unfolding new
  open_paths-new [] open_paths a h = cc
  open_paths-new (t ∷ ts) open_paths a h = ground arith

  -- A presented token has the principal of the first configured token whose value has its digest,
  -- and none if there is no such token.
  pub lookup-new :
      (tokens : List Token) (open_paths : List Text) (a : Authenticator) (presented : Text)
      → new sha256 tokens open_paths ≡ ok a
      → lookup sha256 a presented ≡ Option.map principal_of (token_for (sha256 presented) tokens)
  unfolding lookup
  lookup-new tokens open_paths a presented h =
      let d : distinct (digests_of tokens) ≡ true =
        ground (arith, is_ok-new tokens open_paths, ap is_ok h) in
      rw (entries-new tokens open_paths a h) (
        lookup_in-map (sha256 presented) tokens none d
        ∙ as_map (token_for (sha256 presented) tokens))
