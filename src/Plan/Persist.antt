-- ===== src/Plan/Persist.antt =====
-- internal/plan/change.go: a plan is built from changes and inputs, is named by the hash of its
-- canonical JSON form, and is stored and restored.
pub mod Laws
use uawp.Base.{
  ℕ, Bool, not, ◌||◌, List, [], ◌∷◌, map, ◌==◌, ◌/=◌, if◌then◌else◌, Result, ok, err, ◌>>=◌, ◌>>◌,
  refuse_if, Bytes, bytes_eq, is_empty, bytes_ltb,
}
use uawp.Base.Int.{ℤ, pos, int_eq, int_ltb}
use uawp.Base.Sort.{sort, any}
use uawp.Plan.Change.{Change, PersistedChange, persist_change, restore_change, ChangeError}

pub record Input : Type 0 where
  pub path : Bytes
  pub sha256 : Bytes

pub record Metadata : Type 0 where
  pub actor_worker_id : Bytes
  pub actor_session_id : Bytes
  pub ownership_generation : ℕ
  pub reason : Bytes
  pub controller_id : Bytes
  pub transaction_id : Bytes
  pub journal_sha256 : Bytes
  pub recovery_action : Bytes
  pub migration_from : Bytes
  pub migration_to : Bytes
  pub migration_receipt_path : Bytes
  pub purge_export_path : Bytes
  pub purge_archive_sha256 : Bytes
  pub purge_marker_sha256 : Bytes

pub record Plan : Type 0 where
  pub id : Bytes
  pub operation : Bytes
  pub workspace : Bytes
  pub changes : List Change
  pub inputs : List Input
  pub metadata : Metadata

pub record PersistedPlan : Type 0 where
  pub id : Bytes
  pub operation : Bytes
  pub workspace : Bytes
  pub changes : List PersistedChange
  pub inputs : List Input
  pub metadata : Metadata

abbrev pub is_explicit : Change → Bool
is_explicit c = c.sequence /= pos 0

abbrev pub by_sequence : Change → Change → Bool
by_sequence c d = int_ltb c.sequence d.sequence

abbrev pub by_path : Change → Change → Bool
by_path c d = bytes_ltb c.path d.path

abbrev pub by_input_path : Input → Input → Bool
by_input_path i j = bytes_ltb i.path j.path

-- Plans are ordered by their sequence numbers if one is set, and else by path.
unfoldable pub order_changes : List Change → List Change
order_changes input = if any is_explicit input then sort by_sequence input else sort by_path input

-- `Plan.Persisted`
unfoldable pub persisted : Plan → PersistedPlan
persisted p = record {
  id = p.id;
  operation = p.operation;
  workspace = p.workspace;
  changes = map persist_change p.changes;
  inputs = p.inputs;
  metadata = p.metadata;
}

pub data PlanError : Type 0 where
  identity_incomplete id_mismatch : PlanError
  bad_change : ChangeError → PlanError

-- The loop of `Restore` over the stored changes.
module _ (hash_bytes : Bytes → Bytes) where
  unfoldable pub restore_changes : List PersistedChange → Result PlanError (List Change)
  restore_changes [] = ok []
  restore_changes (v ∷ vs) = elim (restore_change hash_bytes v) [
    | err e ↦ err (bad_change e)
    | ok c ↦ restore_changes vs >>= λ cs. ok (c ∷ cs)
  ]

-- SHA-256 in hexadecimal, and the JSON encoding of a plan's operation, workspace, changes, inputs
-- and metadata, in which the content of a change does not occur.
module _ (hash_bytes : Bytes → Bytes)
    (marshal : Bytes → Bytes → List Change → List Input → Metadata → Bytes) where
  -- `NewForWorkspaceInputsMetadata`
  unfoldable pub new_plan : Bytes → Bytes → List Change → List Input → Metadata → Plan
  new_plan operation workspace input inputs metadata =
      let changes = order_changes input in
      let ordered = sort by_input_path inputs in
      record {
        id = hash_bytes (marshal operation workspace changes ordered metadata);
        operation = operation;
        workspace = workspace;
        changes = changes;
        inputs = ordered;
        metadata = metadata;
      }

  -- `Restore`
  unfoldable pub restore : PersistedPlan → Result PlanError Plan
  restore q = do
    refuse_if (is_empty q.id || is_empty q.operation) identity_incomplete
    changes ← restore_changes hash_bytes q.changes
    let p = new_plan q.operation q.workspace changes q.inputs q.metadata
    refuse_if (p.id /= q.id) id_mismatch
    ok p
