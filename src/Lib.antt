-- ===== src/Lib.antt =====
-- A model of UAWP, the Universal Agent Workspace Protocol, and the theorems that make its core
-- correct. UAWP keeps a directory `.uawp` in a workspace, through which several coding agents
-- take turns: one Session at a time holds the claim on the workspace, every change of files is
-- planned, previewed and applied as a transaction that can be undone or finished after a crash,
-- and older workspaces are migrated step by step to the current state version.
--
-- Parts, and how they interact
--
-- Core/Ownership: internal/core/ownership.go, ownership_transition.go and arbitration.go. The claim
--   is a record (`Ownership`); Acquire, Release and RecoverStaleOwnership (`acquire`, `release`,
--   `recover_stale_ownership`) take it to the next one or refuse, and ValidateActiveActor tells
--   whether an actor holds it. Core/Ownership/Fencing takes the three operations as the steps of a
--   relation, `Step`, and speaks of all sequences of them, `Reach`.
--   Core/Ownership/Codec is internal/core/ownership_codec.go, the claim as the text of
--   ACTIVE_WORKER.md (`encode_ownership`, `decode_ownership`); Core/Ownership/Fields is the map of
--   lines that it shares with the migration.
-- Core/Manifest: internal/core/manifest.go, the validation of the manifest, which names the
--   artifacts that the tools of the workspace read. The maps that collect what was seen are lists.
--   Core/Manifest/Decode is the decoding, over what encoding/json makes of the text (`JsonDocument`).
-- Core/StateVersion: internal/core/version.go, which tells what can be done with a state version.
-- The module Plan: internal/plan/change.go. Changes of files with their constructors, plans and their
--   canonical order, the stored form, and its restoration. A plan is named by the hash of its
--   canonical form.
-- Transaction: internal/transaction/types.go, classify.go and recovery.go. The records that a
--   transaction leaves (live pointer, journal, plan, receipt), their validation, the states of an
--   action, the classification of an interrupted transaction by what the live workspace shows,
--   and the changes that undo it or finish it. Classification starts with the validation of the
--   bundle, which restores the plan; rollback and continuation start with the classification and
--   give changes of the plan's own type. Transaction/Recovery/Effect says what a change does to
--   the state of its path, so that Transaction/Recovery/Rollback and Transaction/Recovery/Continue
--   can say what the changes do to the states of paths; it knows neither parents nor refusals.
--   Transaction/Recovery/Order is about the order of the changes and what each of them finds.
-- Migration: internal/migration/registry.go. Versions and their order, the registry of steps, and
--   the resolution of the way from one version to another.
--   Migration/ToV11 is the step of internal/migration/v1_0_to_v1_1.go. Migration/ToV12 is the step of
--   internal/migration/v1_1_to_v1_2.go, which reads the legacy claim and writes it with the codec of
--   the claim.
-- Identity: internal/identity/profile.go, store.go and session.go. The profiles of a machine, the
--   bindings of Sessions to workspaces, and the validation of the registry that holds them.
-- Workspace/Resume: Resume of internal/workspace/lifecycle.go, which tells a Session that comes back
--   whether it still holds the claim. What it reads of the workspace is an argument.
-- Workspace/Discover and Workspace/Status: internal/workspace/discover.go and status.go: what stands at
--   the names of the workspace, and the diagnosis (`diagnose`), which every plan begins with. Of a
--   finding the model keeps the code.
-- Workspace/Lifecycle: the plans of internal/workspace/lifecycle.go and handoff.go, with Checkpoint
--   (context.go and checkpoint.go) and StaleClaim (recover.go): each reads the claim from the disk
--   with the codec, lets the module Core decide, and plans the files to write.
--   Workspace/Lifecycle/Applied follows two of them through `apply` to the claim that is read after.
--   Its modules Handoff, Held and Freed tell when the other plans are made and what they say.
-- Workspace/Boundary: internal/workspace/boundary.go, with targetForChange of apply.go: which paths
--   may be changed, and the resolution of a logical path (`target_for_change`).
-- Workspace/Apply: Apply of internal/workspace/apply.go and the durable transaction of
--   transaction_apply.go. `apply` takes the lock, checks inputs and targets (Workspace/Verify), writes
--   the bundle and the pointer (`prepare_durable_transaction`, with the encoders of
--   Transaction/Codec), makes the changes one by one with the journal written before and after each
--   (`apply_actions`, `transition`, `perform`), compares, writes the receipts and removes the pointer
--   (`complete`). Every failpoint of the code is a place where an application can stop, so the
--   theorems speak of all of them. The boundary resolves every target, the plan of the module Plan is
--   what is applied, and the records are those of the module Transaction.
-- Workspace/Snapshot and Workspace/Recover: internal/workspace/transaction_recovery.go. A snapshot reads
--   the bundle and what the workspace shows of it (`load_transaction_snapshot`), the recovery plan
--   holds the changes of the module Transaction, and its application makes them, with the operations
--   of Workspace/Apply, and removes the pointer at last (`apply_transaction_recovery`). Files are
--   opened and read in one; a link that cannot be read through counts as leading nowhere.
-- Workspace/Disk and Workspace/Op: what the workspace code uses of package os. The disk is the list of
--   the nodes at the paths below the root, an operation takes it to a result or an error and to the
--   disk that it leaves. Workspace/Op/Triple has a rule for each way to build an operation, and
--   Workspace/Apply/Frame says which paths an application writes for itself.
-- Transaction/Codec: the encoders and decoders of internal/transaction/codec.go.
-- Adapter/ImportLine: internal/adapter/import.go, the line that a tool's file reads the protocol with.
-- Adapter/Block: internal/adapter/block.go, the block between two markers in a tool's file.
-- Adapter/Entry: internal/adapter/types.go, claude.go, codex.go, workbuddy.go, planner.go and
--   native.go: which of the files of a workspace a tool reads, the route by which it gets the
--   protocol, and the planned artifact. An adapter is a record of functions; its facts come from the
--   disk (Adapter/Entry/Native).
-- Base: the shared helpers. Base/Text, Base/FilePath, Base/Pattern, Base/Number, Base/Int,
--   Base/Sort and Base/Utf8 hold what the program uses of the Go library: strings are lists of
--   bytes, a pair of a value and an error is a `Result`.
--
-- How the source is read
--
-- A struct is a record, an enumeration of string constants a data type, with a constructor for every
-- other text where the source checks for it. A pointer that may be nil is an Option. A map is the
-- list of its entries, or a function where the code only looks keys up. An error is a constructor
-- that stands for the place that makes it; the message is left out. `Generation` is a uint64: the
-- sum of Acquire is taken modulo 2 ^ 64. An instant is the number of nanoseconds since the earliest
-- one that time.Time holds. A file path is one of a Unix system. sort.Slice is insertion sort; on
-- elements that compare equal Go promises no order, the model keeps theirs.
--
-- Loops recurse on their list. The two loops of the migration registry that follow steps from
-- version to version take fuel, one more than the number of steps, which is enough: each turn but
-- the last leaves a source that was not seen before (Migration/Registry/Walk).
--
-- The disk records the mode of a file, not that of a directory. A call of package os fails where the
-- state of the disk makes it fail: a parent that is no directory, a node in the way, a directory that
-- is not empty. Temporary files, which are gone on every return, and the hard link that an update
-- makes beside its target are left out, with the patterns of their names. The path of the root has
-- no character that filepath.Glob reads as a pattern, and below a link nothing stands.
--
-- What stands outside the repository is a parameter: the hash (`hash_bytes`), the JSON encoding of a
-- plan (`marshal`), the reading of an RFC 3339 time (`is_rfc3339`), together `Platform`; the JSON
-- encoding and the strict decoding of the records (`Marshal`, `Unmarshal`) and the encoding of the
-- migration receipt, which with the platform and the root are the `Environment`; the times that the
-- clock gives and the bytes that a random source serves are arguments. The layouts of package time
-- that a claim is written and read with are `Clock`; the strict decoder of encoding/json and the
-- text of a problem with the manifest are in `Readers`.
--
-- Not modelled
--
-- The token streams of encoding/json (rejectDuplicateKeys of internal/transaction/codec.go and
-- internal/identity/store.go) and the encoder of the manifest; Doctor and the plans of
-- internal/workspace/adapters.go, export.go, init.go, purge.go, repair.go, uninstall.go and
-- upgrade.go; faults of the disk itself (a full disk, lost rights, a failing sync); rollback and
-- writeJournal of internal/workspace/apply.go, which nothing calls; the command line (internal/cli,
-- cmd); build information and scripts.
pub mod Adapter
pub mod Base
pub mod Core
pub mod Identity
pub mod Migration
pub mod Plan
pub mod Transaction
pub mod Workspace
