-- ===== src/Query/Views.antt =====
-- internal/query/query.go: the value kinds, and the views with their fields.
use imap_mcp.Prelude.{
  if◌then◌else◌, Bool, true, false, List, [], ◌∷◌, Option, none, some, Text, String, bytes, text_eq,
}

pub data Kind : Type 0 where
  text_kind int_kind real_kind bool_kind time_kind : Kind

pub record Field : Type 0 where
  pub name : Text
  pub expr : Text
  pub kind : Kind
  pub is_default : Bool
  pub is_body : Bool

pub record View : Type 0 where
  pub name : Text
  pub from : Text
  pub fields : List Field

abbrev column : String → String → Kind → Bool → Bool → Field
column name expr kind is_default is_body = record {
  name = bytes name;
  expr = bytes expr;
  kind = kind;
  is_default = is_default;
  is_body = is_body;
}

abbrev pub messages_view : View
messages_view = record {
  name = bytes "messages";
  from = bytes "messages m";
  fields =
      column "id" "m.id" int_kind true false
      ∷ column "account" "m.account" text_kind true false
      ∷ column "folder" "m.folder" text_kind true false
      ∷ column "uid" "m.uid" int_kind true false
      ∷ column "message_id" "m.message_id" text_kind false false
      ∷ column "thread_id" "m.thread_id" text_kind false false
      ∷ column "date" "m.date" time_kind true false
      ∷ column "internal_date" "m.internal_date" time_kind false false
      ∷ column "from_addr" "m.from_addr" text_kind true false
      ∷ column "from_name" "m.from_name" text_kind false false
      ∷ column "from_domain" "lower(substr(m.from_addr, instr(m.from_addr, '@') + 1))" text_kind
          false false
      ∷ column "to_addrs" "m.to_addrs" text_kind false false
      ∷ column "cc_addrs" "m.cc_addrs" text_kind false false
      ∷ column "subject" "m.subject" text_kind true false
      ∷ column "flags" "m.flags" text_kind false false
      ∷ column "seen" "(instr(COALESCE(m.flags,''), '\\Seen') > 0)" bool_kind false false
      ∷ column "flagged" "(instr(COALESCE(m.flags,''), '\\Flagged') > 0)" bool_kind false false
      ∷ column "answered" "(instr(COALESCE(m.flags,''), '\\Answered') > 0)" bool_kind false false
      ∷ column "size" "m.size" int_kind false false
      ∷ column "has_attachments" "m.has_attachments" bool_kind false false
      ∷ column "hall" "m.hall" text_kind false false
      ∷ column "wing" "m.wing" text_kind false false
      ∷ column "room" "m.room" text_kind false false
      ∷ column "enrichment_status" "m.enrichment_status" text_kind false false
      ∷ column "body_text" "m.body_text" text_kind false true
      ∷ column "body_html" "m.body_html" text_kind false true
      ∷ [];
}

abbrev pub senders_view : View
senders_view = record {
  name = bytes "senders";
  from = bytes "senders s";
  fields =
      column "address" "s.address" text_kind true false
      ∷ column "name" "s.name" text_kind true false
      ∷ column "domain" "s.domain" text_kind true false
      ∷ column "role" "s.role" text_kind true false
      ∷ column "first_seen" "s.first_seen" time_kind false false
      ∷ column "last_seen" "s.last_seen" time_kind true false
      ∷ column "message_count" "s.message_count" int_kind true false
      ∷ column "sent_count" "s.sent_count" int_kind false false
      ∷ column "avg_reply_time" "s.avg_reply_time" int_kind false false
      ∷ column "anomaly_score" "s.anomaly_score" real_kind false false
      ∷ column "role_source" "s.role_source" text_kind true false
      ∷ column "reply_count" "s.reply_count" int_kind false false
      ∷ column "list_count" "s.list_count" int_kind false false
      ∷ column "bulk_count" "s.bulk_count" int_kind false false
      ∷ column "auto_count" "s.auto_count" int_kind false false
      ∷ column "dkim_pass" "s.dkim_pass" int_kind false false
      ∷ column "dkim_fail" "s.dkim_fail" int_kind false false
      ∷ column "dmarc_pass" "s.dmarc_pass" int_kind false false
      ∷ column "dmarc_fail" "s.dmarc_fail" int_kind false false
      ∷ [];
}

abbrev pub anomalies_view : View
anomalies_view = record {
  name = bytes "anomalies";
  from = bytes "anomalies a";
  fields =
      column "id" "a.id" int_kind true false
      ∷ column "account" "a.account" text_kind true false
      ∷ column "message_id" "a.message_id" int_kind false false
      ∷ column "folder" "a.folder" text_kind false false
      ∷ column "uid" "a.uid" int_kind false false
      ∷ column "message_ref" "a.message_ref" text_kind false false
      ∷ column "sender" "a.sender" text_kind true false
      ∷ column "type" "a.anomaly_type" text_kind true false
      ∷ column "description" "a.description" text_kind false false
      ∷ column "severity" "a.severity" text_kind true false
      ∷ column "detected_at" "a.detected_at" time_kind true false
      ∷ column "resolved" "a.resolved" bool_kind true false
      ∷ [];
}

abbrev pub kg_view : View
kg_view = record {
  name = bytes "kg";
  from =
      bytes
        "kg_relationships r JOIN kg_entities se ON se.id = r.subject_id JOIN kg_entities oe ON oe.id = r.object_id";
  fields =
      column "subject" "se.name" text_kind true false
      ∷ column "subject_type" "se.entity_type" text_kind true false
      ∷ column "predicate" "r.predicate" text_kind true false
      ∷ column "object" "oe.name" text_kind true false
      ∷ column "object_type" "oe.entity_type" text_kind true false
      ∷ column "valid_from" "r.valid_from" time_kind false false
      ∷ column "valid_to" "r.valid_to" time_kind false false
      ∷ column "current" "(r.valid_to IS NULL)" bool_kind false false
      ∷ column "confidence" "r.confidence" real_kind true false
      ∷ column "weight" "r.weight" int_kind true false
      ∷ column "last_seen" "r.last_seen" time_kind false false
      ∷ [];
}

abbrev pub views : List View
views = messages_view ∷ senders_view ∷ anomalies_view ∷ kg_view ∷ []

-- Views[name]
unfoldable pub view_in : List View → Text → Option View
view_in [] name = none
view_in (v ∷ vs) name = if text_eq v.name name then some v else view_in vs name

-- (*View).field
unfoldable pub field_in : List Field → Text → Option Field
field_in [] name = none
field_in (f ∷ fs) name = if text_eq f.name name then some f else field_in fs name
