-- ===== src/Trust/Envelope.antt =====
-- internal/trust/envelope.go: the command envelope of a message body, and its canonical form.
-- time.Parse and Format at the layout RFC 3339 are the parameters `parse_time` and `format_time`.
-- A time is its nanoseconds since the zero time.Time.
pub mod Canonical
use imap_mcp.Prelude.{
  ℕ, ◌+◌, Bool, true, false, not, ◌&&◌, List, [], ◌∷◌, ◌++◌, Option, none, some, Text, bytes,
  text_eq, length, take, drop, is_nil, ◌==◌, if◌then◌else◌,
}
use imap_mcp.Prelude.Bytes.{to_lower, trim_space, index}

abbrev pub env_begin : Text
env_begin = bytes "-----BEGIN DATAWATCH COMMAND-----"

abbrev pub env_end : Text
env_end = bytes "-----END DATAWATCH COMMAND-----"

pub record Command : Type 0 where
  pub verb : Text
  pub args : Text
  pub nonce : Text
  pub ts : ℕ
  pub hmac : Text
  pub raw : Text

pub data EnvelopeError : Type 0 where
  no_envelope not_terminated missing_verb : EnvelopeError
  malformed_line : Text → EnvelopeError
  bad_ts : EnvelopeError

pub data Parsed {ℓ} (A : Type ℓ) : Type ℓ where
  ok : A → Parsed A
  err : EnvelopeError → Parsed A

-- strings.Split(s, "\n")
unfoldable pub split_lines : Text → List Text
split_lines [] = [] ∷ []
split_lines (c ∷ s) =
    let rest = split_lines s in
    if c == 10
    then [] ∷ rest
    else elim rest [ [] ↦ (c ∷ []) ∷ [] | line ∷ lines ↦ (c ∷ line) ∷ lines ]

-- strings.Cut(s, ":"), with `none` for not found
unfoldable pub cut_colon : Text → Option (Text × Text)
cut_colon [] = none
cut_colon (c ∷ s) =
    let later : Option (Text × Text) = elim (cut_colon s) [
      | none ↦ none
      | some (k, v) ↦ some (c ∷ k, v)
    ] in
    if c == 58 then some ([], s) else later

abbrev pub Fields : Type 0
Fields = List (Text × Text)

-- fields[key]; the newest entry of a key comes first
unfoldable pub field : Text → Fields → Text
field key [] = []
field key ((k, v) ∷ rest) = if text_eq k key then v else field key rest

-- the loop over the lines of the block
unfoldable pub read_lines : List Text → Fields → Parsed Fields
read_lines [] fields = ok fields
read_lines (l ∷ ls) fields =
    let line = trim_space l in
    elim (is_nil line) [
      | true ↦ read_lines ls fields
      | false ↦ elim (cut_colon line) [
        | none ↦ err (malformed_line line)
        | some (k, v) ↦ read_lines ls ((to_lower (trim_space k), trim_space v) ∷ fields)
      ]
    ]

-- block := rest[:end], between the first begin mark and the first end mark behind it
unfoldable pub block_of : Text → Parsed Text
block_of body = elim (index body env_begin) [
  | none ↦ err no_envelope
  | some start ↦
      let rest = drop (start + length env_begin) body in
      elim (index rest env_end) [ none ↦ err not_terminated | some end ↦ ok (take end rest) ]
]

module _ (format_time : ℕ → Text) where
  -- canonicalEnvelope
  unfoldable pub canonical_envelope : Text → Text → Text → ℕ → Text
  canonical_envelope verb args nonce ts =
      bytes "verb:"
      ++ (verb
          ++ 10
            ∷ (bytes "args:"
                ++ (args
                    ++ 10
                      ∷ (bytes "nonce:"
                          ++ (nonce ++ 10 ∷ (bytes "ts:" ++ (format_time ts ++ 10 ∷ [])))))))

module _ (parse_time : Text → Option ℕ) (format_time : ℕ → Text) where
  -- the tail of parseCommand, from the fields to the command
  unfoldable pub command_of : Fields → Parsed Command
  command_of fields =
      let verb = field (bytes "verb") fields in
      let args = field (bytes "args") fields in
      let nonce = field (bytes "nonce") fields in
      let hmac = field (bytes "hmac") fields in
      let ts_text = field (bytes "ts") fields in
      let with_ts : ℕ → Command = λ ts. record {
        verb = verb;
        args = args;
        nonce = nonce;
        ts = ts;
        hmac = hmac;
        raw = canonical_envelope format_time verb args nonce ts;
      } in
      if is_nil verb
      then err missing_verb
      else if is_nil ts_text
      then ok (with_ts 0)
      else elim (parse_time ts_text) [ none ↦ err bad_ts | some ts ↦ ok (with_ts ts) ]

  unfoldable pub parse_command : Text → Parsed Command
  parse_command body = elim (block_of body) [
    | err e ↦ err e
    | ok block ↦ elim (read_lines (split_lines block) []) [
      | err e ↦ err e
      | ok fields ↦ command_of fields
    ]
  ]
