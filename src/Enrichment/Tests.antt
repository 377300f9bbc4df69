-- ===== src/Enrichment/Tests.antt =====
-- Runs of the pipeline, and its theorems at concrete values.
use imap_mcp.Prelude.{
  ℕ, ◌+◌, ◌*◌, ◌≤◌, ◌<◌, ◌≡◌, ◌⊎◌, refl, inl, true, List, [], ◌∷◌, Option, none, some, Text, bytes,
  length, ltb, text_eq, contains, arith, ◌==◌, if◌then◌else◌,
}
use imap_mcp.Prelude.Bytes.{
  trim_space, trim_left, trim_right, to_lower, index, last_index, has_prefix, text_contains,
}
use imap_mcp.Prelude.{false}
use imap_mcp.Enrichment.{
  Row, Status, Pipeline, World, Error, refused, answered, lane_new, lane_backfill, waiting,
  update_where, insert_queued, sort_queued, select_lane, embed_text, enrich, apply_result,
  backoff_seconds, back_off, fail_rows, fail, done_rows, succeed, settle, handle,
}
use imap_mcp.Enrichment.Batch.{
  Turn, start, finish, mark_processing, start_next, pick, end_item, finish_at, interleave,
  start_all, finish_all, process_group, of_lane, process, backfill_allowed, backfill_share,
  select_batch, run_once,
}
use imap_mcp.Enrichment.Blob.{float32s_to_blob, blob_to_float32s, blob-decodes}
use imap_mcp.Enrichment.Gates.{Verdict, Memo, allowed, window_gate, ask, ask_all}
use imap_mcp.Enrichment.Gates.Window.{
  window, parse_window, parts_window, window_of, split_on, minutes_from, parsed-circular,
}
use imap_mcp.Enrichment.Gates.Memos.{Recent, gate_of, asked, asked-Recent}
use imap_mcp.Enrichment.Tags.{
  Classification, EnrichResult, parse_classification, extracted, clean_hall, clean_tag, halls,
  placeholder_tags, has_angle,
}
use imap_mcp.Enrichment.Tags.Clean.{IsClean, parse_classification-IsClean}
use imap_mcp.Enrichment.Invariant.{allowed_attempts, count_key}
use imap_mcp.Enrichment.Selected.{IsSettled}
use imap_mcp.Enrichment.Settled.{run_once-IsSettled}
use imap_mcp.Enrichment.Potential.{potential}
use imap_mcp.Enrichment.Liveness.{Call, serve, effective, new_mail-served}
use imap_mcp.Enrichment.Order.{backfill_last}
use imap_mcp.Enrichment.Backoff.{fail_all}

blob-decodes_example :
    blob_to_float32s (float32s_to_blob (7 ∷ 3212836864 ∷ [])) ≡ 7 ∷ 3212836864 ∷ []
blob-decodes_example = blob-decodes (7 ∷ 3212836864 ∷ []) (omega arith)

abbrev message : ℕ → ℕ → Row
message id lane = record {
  queue_id = id;
  message_id = id + 100;
  lane = lane;
  status = Status.pending;
  attempts = 0;
  queued_at = 5;
  processed_at = 0;
  last_error = [];
  subject = bytes "s";
  body = [];
  from_addr = [];
  from_name = [];
  enrichment_status = Status.pending;
  enriched_at = 0;
  enrichment_error = [];
  hall = [];
  wing = [];
  room = [];
  vector = [];
}

abbrev trouble : Error
trouble = record { text = bytes "busy"; transient = true }

abbrev lasting : Error
lasting = record { text = bytes "bad"; transient = false }

-- The embedder is down at its first call only.
abbrev world : World
world = record {
  cfg = record { batch_size = 2; max_attempts = 2; backoff_max_seconds = 300 };
  clock = λ n. (n + 1) * 1000000000000;
  embed = λ n text. if n == 1 then refused trouble else answered (1 ∷ []);
  classify = λ n prompt. answered [];
  decode = λ t. none;
  take_backfill = λ n now want. want;
}

abbrev mail : Pipeline
mail = record {
  rows = message 1 lane_backfill ∷ message 2 lane_new ∷ [];
  gates = [];
  failures = 0;
  backoff_until = 0;
  paused = none;
  last_err = [];
  calls = 0;
  published = [];
}

mail-IsSettled : IsSettled (allowed_attempts world.cfg) mail.rows
unfolding count_key
mail-IsSettled = record {
  keyed = record { once = λ k. ground arith };
  idle = ((refl, refl), ((refl, refl), tt));
}

abbrev turns : List Turn
turns = start ∷ finish 0 ∷ []

run_once-IsSettled_example :
    IsSettled (allowed_attempts world.cfg) (run_once world turns [] 0 mail).1.rows
run_once-IsSettled_example = run_once-IsSettled world turns [] 0 mail mail-IsSettled

abbrev calls : List Call
calls =
    record { turns = turns; turns' = []; forced = 0 }
    ∷ record { turns = []; turns' = turns; forced = 3 }
    ∷ []

few : potential lane_new (allowed_attempts world.cfg) mail.rows ≤ effective world calls mail
unfolding potential effective run_once select_batch process process_group interleave start_all
    finish_all start_next finish_at pick end_item handle settle succeed fail back_off
    backoff_seconds fail_rows done_rows apply_result update_where enrich embed_text of_lane
    select_lane sort_queued insert_queued waiting backfill_share backfill_allowed ask_all
    mark_processing parse_classification extracted index
few = omega arith

new_mail-served_example : waiting lane_new (serve world calls mail).rows ≡ []
new_mail-served_example = new_mail-served world calls mail mail-IsSettled few

backfill_reads : 1 ≤ length (of_lane lane_backfill (select_batch world 0 0 mail).0)
unfolding select_batch of_lane select_lane sort_queued insert_queued waiting backfill_share
    backfill_allowed ask_all
backfill_reads = omega arith

backfill_last_example :
    (of_lane lane_new (select_batch world 0 0 mail).0 ≡ sort_queued (waiting lane_new mail.rows))
    × ((1 ≤ 0) ⊎ ((ask_all 0 mail.gates).0 ≡ none))
backfill_last_example = backfill_last world 0 0 mail backfill_reads

-- The clock stands still behind a failure.
abbrev slow : World
slow = record world { clock = λ n. 1000 }

-- Another item of the batch fails for good behind it.
abbrev failed_all : Pipeline
failed_all =
    fail_all slow ((message 3 lane_new, lasting) ∷ []) (fail slow (message 2 lane_new) trouble mail)

abbrev night : ℕ → Verdict
night = window_gate 1320 360

abbrev memo : Memo
memo = record { ttl = 30000000000; at = 0; verdict = allowed }

asked-Recent_example :
    Recent night 30000000000 100 (ask 100 (asked (40 ∷ 20 ∷ []) (gate_of night memo))).0
asked-Recent_example =
    asked-Recent night (40 ∷ 20 ∷ []) memo 100 (record { filled = inl refl; short = omega arith })

-- A clock that reads the one digit of an hour.
abbrev clock : Text → Option (ℕ × ℕ)
clock t =
    if text_eq t (bytes "9")
    then some (9, 0)
    else if text_eq t (bytes "2")
    then some (2, 0)
    else none

in_day : (t : Text) (h m : ℕ) → clock t ≡ some (h, m) → (h < 24) × (m < 60)
in_day t h m e = ground arith

quiet : parse_window clock (bytes "9-2") ≡ window 540 120
unfolding parse_window parts_window window_of split_on trim_space trim_left trim_right text_eq
quiet = refl

parsed-circular_example :
    (window_gate 540 120 60).ok ≡ ltb (minutes_from 540 60) (minutes_from 540 120)
parsed-circular_example = parsed-circular clock in_day (bytes "9-2") 540 120 60 quiet (omega arith)

abbrev blank : EnrichResult
blank = record { embedding = []; hall = []; wing = []; room = [] }

abbrev decode : Text → Option Classification
decode raw = some (record { hall = bytes " Alert"; wing = bytes "<topic>"; room = bytes "deploy" })

parse_classification-IsClean_example : IsClean (parse_classification decode (bytes "ok: {}") blank)
parse_classification-IsClean_example =
    parse_classification-IsClean decode (bytes "ok: {}") blank
      (record { hall = inl refl; wing = inl refl; room = inl refl })

answers :
    parse_classification decode (bytes "ok: {}") blank
    ≡ record blank { hall = bytes "alert"; room = bytes "deploy" }
unfolding parse_classification extracted clean_hall clean_tag halls placeholder_tags has_angle
    text_eq contains index last_index has_prefix to_lower trim_space trim_left trim_right
    text_contains
answers = refl
