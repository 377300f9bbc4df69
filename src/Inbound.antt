-- ===== src/Inbound.antt =====
-- internal/inbound: parse.go builds the message that the gates read, processor.go publishes the
-- outcome. Maps are lists of entries, the newest first.
pub mod Headers
pub mod Publish
pub mod Watcher
mod Tests
use imap_mcp.Prelude.{
  ℕ, Bool, true, false, ◌&&◌, ◌||◌, List, [], ◌∷◌, ◌++◌, Option, none, some, Text, bytes, is_nil,
  ◌==◌, if◌then◌else◌,
}
use imap_mcp.Prelude.Bytes.{to_lower, trim_space, text_contains}
use imap_mcp.Trust.{Account, Message, Outcome, Verified, Store, evaluate}
use imap_mcp.Trust.Envelope.{split_lines, cut_colon, env_begin}

abbrev pub starts_with_byte : ℕ → Text → Bool
starts_with_byte b [] = false
starts_with_byte b (c ∷ s) = c == b

-- strings.ReplaceAll(raw, "\r\n", "\n")
unfoldable pub replace_crlf : Text → Text
replace_crlf [] = []
replace_crlf (c ∷ s) =
    let rest = replace_crlf s in if c == 13 && starts_with_byte 10 s then rest else c ∷ rest

-- curKey, curVal and out of parseHeaderBlock
pub record Folding : Type 0 where
  pub key : Text
  pub val : Text
  pub out : List (Text × Text)

unfoldable pub flush : Folding → List (Text × Text)
flush st = if is_nil st.key then st.out else (st.key, trim_space st.val) ∷ st.out

-- the body of the loop over the lines
unfoldable pub fold_line : Folding → Text → Folding
unfolding flush
fold_line st line =
    if is_nil line
    then st
    else if starts_with_byte 32 line || starts_with_byte 9 line
    then record st { val = st.val ++ 32 ∷ trim_space line }
    else elim (cut_colon line) [
      | none ↦ st
      | some (k, v) ↦ record { key = to_lower (trim_space k); val = trim_space v; out = flush st }
    ]

unfoldable pub fold_lines : Folding → List Text → Folding
fold_lines st [] = st
fold_lines st (l ∷ ls) = fold_lines (fold_line st l) ls

unfoldable pub parse_header_block : Text → List (Text × Text)
unfolding fold_lines flush fold_line replace_crlf
parse_header_block raw =
    flush (fold_lines (record { key = []; val = []; out = [] }) (split_lines (replace_crlf raw)))

-- buildMessage
unfoldable pub build_message : Text → Text → Text → Message
unfolding parse_header_block
build_message from raw_headers body = record {
  from = from;
  headers = parse_header_block raw_headers;
  body = body;
}

unfoldable pub has_envelope : Text → Bool
has_envelope body = text_contains body env_begin

-- The events that Process publishes.
pub data Event : Type 0 where
  inbound_command : Text → Verified → Event
  inbound_rejected : Text → Outcome → Event

-- the switch of (*Processor).Process, over the name of the account
unfoldable pub publish : Text → Text → Outcome → List Event
unfolding has_envelope
publish account body o = elim o.verified [
  | some v ↦ inbound_command account v ∷ []
  | none ↦ if has_envelope body then inbound_rejected account o ∷ [] else []
]

module _ (hmac_sha256 : Text → Text → Text) (parse_time : Text → Option ℕ) (format_time : ℕ → Text)
    {S : Type 0} where
  -- (*Processor).Process with a bus
  unfoldable pub process : Option (Store S) → Account → Message → ℕ → S → List Event × Outcome × S
  unfolding publish
  process store acct msg now s =
      let (o, s') = evaluate hmac_sha256 parse_time format_time store (some acct) msg now s in
      (publish acct.name msg.body o, o, s')
