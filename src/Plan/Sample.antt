-- ===== src/Plan/Sample.antt =====
-- Stand-ins for SHA-256 and the JSON encoding, for runs and for the theorems at concrete data.
use uawp.Base.{ℕ, zero, suc, ◌+◌, ◌%◌, List, [], ◌∷◌, ◌++◌, Bytes, length}
use uawp.Plan.Change.{Change}
use uawp.Plan.Persist.{Input, Metadata}

abbrev repeat : ℕ → ℕ → Bytes
repeat zero x = []
repeat (suc n) x = x ∷ repeat n x

-- 64 hexadecimal digits, of which the last shows the length of the content.
abbrev pub sample_hash : Bytes → Bytes
sample_hash content = (48 + length content % 10) ∷ repeat 63 b'a'

abbrev changed_paths : List Change → Bytes
changed_paths [] = []
changed_paths (c ∷ cs) = c.path ++ (c.after_sha256 ++ changed_paths cs)

abbrev pub sample_marshal : Bytes → Bytes → List Change → List Input → Metadata → Bytes
sample_marshal operation workspace changes inputs metadata =
    operation ++ (workspace ++ changed_paths changes)

abbrev pub no_metadata : Metadata
no_metadata = record {
  actor_worker_id = [];
  actor_session_id = [];
  ownership_generation = 0;
  reason = [];
  controller_id = [];
  transaction_id = [];
  journal_sha256 = [];
  recovery_action = [];
  migration_from = [];
  migration_to = [];
  migration_receipt_path = [];
  purge_export_path = [];
  purge_archive_sha256 = [];
  purge_marker_sha256 = [];
}
