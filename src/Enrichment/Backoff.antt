-- ===== src/Enrichment/Backoff.antt =====
-- The backoff behind a failure.
use imap_mcp.Prelude.{ℕ, ◌+◌, ◌*◌, ◌^◌, min, max, List, [], ◌∷◌}
use imap_mcp.Enrichment.{Row, World, Config, Error, Pipeline, fail, second}

abbrev pub limit : Config → ℕ
limit cfg = max cfg.backoff_max_seconds 1

-- The end of the backoff that a transient failure, the next in a row, asks for.
abbrev pub until : World → Pipeline → ℕ
until w p = w.clock p.calls + min (2 ^ min p.failures 16 * 5) (limit w.cfg) * second

-- The pipeline behind a reading of the clock.
abbrev pub tick : Pipeline → Pipeline
tick p = record p { calls = p.calls + 1 }

-- Further failures, transient or not, in the order in which they are handled
unfoldable pub fail_all : World → List (Row × Error) → Pipeline → Pipeline
fail_all w [] p = p
fail_all w ((it, e) ∷ failures) p = fail_all w failures (fail w it e p)
