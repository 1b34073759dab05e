-- ===== src/Ledger/Pair.antt =====
-- src/pipeline_commit.rs: the commit of one target to both ledgers, with its rollback.
use asrsub.Prelude.{Bool, true, false, not, ◌&&◌, ◌||◌, [], ◌∷◌, ◌++◌, none, some, if◌then◌else◌}
use asrsub.Text.{Text, codes}
use asrsub.Report.{Bytes, Result, and_then}
use asrsub.Report.Codec.{hex}
use asrsub.Json.{Json}
use asrsub.Ledger.{LedgerIdentity, has_identity}
use asrsub.Ledger.Files.{
  CommitLedgerError, LedgerFile, LedgerSnapshot, StepIo, RestoreIo, Step, append_if_absent,
  snapshot_of, snapshot_ledger, restore_ledger,
}

pub record CommitWitness : Type 0 where
  pub pipeline_commit_id : Text
  pub report_hash : Bytes

-- The files at the paths of `LedgerPaths`. They are two: a link without a target does not lead to the
-- path of the other one.
pub record Ledgers : Type 0 where
  pub registry : LedgerFile
  pub state : LedgerFile

pub record LedgerSnapshots : Type 0 where
  pub registry : LedgerSnapshot
  pub state : LedgerSnapshot

abbrev pub snapshots_of : Ledgers → LedgerSnapshots
snapshots_of s = record { registry = snapshot_of s.registry; state = snapshot_of s.state }

-- What the system answers in the course of a commit: whether the paths name one file, whether both
-- locks are had, and each step on the files.
pub record PairIo : Type 0 where
  pub paths_alias : Result CommitLedgerError Bool
  pub has_locks : Bool
  pub registry_readable : Bool
  pub state_readable : Bool
  pub registry_step : StepIo
  pub state_step : StepIo
  pub registry_restore : RestoreIo
  pub state_restore : RestoreIo

abbrev pub is_err : {A : Type 0} → Result CommitLedgerError A → Bool
is_err (Result.ok a) = false
is_err (Result.err e) = true

-- The second step is taken where the first succeeded; its file is as before otherwise.
abbrev pub in_order : Step Unit → Step Unit → LedgerFile → Result CommitLedgerError Unit × Ledgers
in_order (Result.err e, registry) second state =
    (Result.err e, record { registry = registry; state = state })
in_order (Result.ok _, registry) (result, after) state =
    (result, record { registry = registry; state = after })

module _ (J : Json) where
  unfoldable pub validate_pair_request :
      Result CommitLedgerError Bool
      → LedgerIdentity
      → J.Value
      → J.Value
      → Result CommitLedgerError Unit
  validate_pair_request (Result.err e) identity registry_row state_row = Result.err e
  validate_pair_request (Result.ok aliased) identity registry_row state_row =
      if aliased || not (has_identity J identity registry_row && has_identity J identity state_row)
      then Result.err CommitLedgerError.invalid_input
      else Result.ok tt

  -- The registry's row first; the state's only where that succeeded.
  unfoldable pub append_both :
      PairIo
      → LedgerIdentity
      → J.Value
      → J.Value
      → Ledgers
      → Result CommitLedgerError Unit × Ledgers
  append_both answers identity registry_row state_row s =
      in_order (append_if_absent J answers.registry_step identity registry_row s.registry)
        (append_if_absent J answers.state_step identity state_row s.state) s.state

  module _ (sha256 : Bytes → Bytes) where
    unfoldable pub digest : J.Value → Bytes
    digest row = sha256 (elim (J.to_vec row) [ some bytes ↦ bytes | none ↦ [] ])

    unfoldable pub witness_of : J.Value → CommitWitness
    witness_of row = record {
      pipeline_commit_id =
          codes "asrsub-pipeline-v1-"
          ++ hex (sha256 (codes "asrsub-pipeline-v1" ++ 0 ∷ digest row));
      report_hash = digest row;
    }

    -- Both restores are tried, whatever the first gives.
    abbrev pub roll_back :
        PairIo
        → LedgerSnapshots
        → CommitLedgerError
        → Ledgers
        → Result CommitLedgerError CommitWitness × Ledgers
    roll_back answers snapshots e now =
        let registry = restore_ledger answers.registry_restore snapshots.registry now.registry in
        let state = restore_ledger answers.state_restore snapshots.state now.state in
        (
          Result.err (if is_err registry.0 || is_err state.0 then CommitLedgerError.io else e),
          record { registry = registry.1; state = state.1 },
        )

    abbrev pub conclude :
        PairIo
        → J.Value
        → LedgerSnapshots
        → Result CommitLedgerError Unit × Ledgers
        → Result CommitLedgerError CommitWitness × Ledgers
    conclude answers registry_row snapshots (Result.err e, now) = roll_back answers snapshots e now
    conclude answers registry_row snapshots (Result.ok _, now) =
        (Result.ok (witness_of registry_row), now)

    abbrev pub snapshot_both : PairIo → Ledgers → Result CommitLedgerError LedgerSnapshots
    snapshot_both answers s = and_then (snapshot_ledger answers.registry_readable s.registry) (λ r.
        and_then (snapshot_ledger answers.state_readable s.state)
          (λ t. Result.ok (record { registry = r; state = t })))

    abbrev pub locked :
        PairIo
        → LedgerIdentity
        → J.Value
        → J.Value
        → Ledgers
        → Result CommitLedgerError LedgerSnapshots
        → Result CommitLedgerError CommitWitness × Ledgers
    locked answers identity registry_row state_row s (Result.err e) = (Result.err e, s)
    locked answers identity registry_row state_row s (Result.ok snapshots) =
        conclude answers registry_row snapshots
          (append_both answers identity registry_row state_row s)

    abbrev pub validated :
        PairIo
        → LedgerIdentity
        → J.Value
        → J.Value
        → Ledgers
        → Result CommitLedgerError Unit
        → Result CommitLedgerError CommitWitness × Ledgers
    validated answers identity registry_row state_row s (Result.err e) = (Result.err e, s)
    validated answers identity registry_row state_row s (Result.ok _) =
        if answers.has_locks
        then locked answers identity registry_row state_row s (snapshot_both answers s)
        else (Result.err CommitLedgerError.io, s)

    unfoldable pub commit_pair :
        PairIo
        → LedgerIdentity
        → J.Value
        → J.Value
        → Ledgers
        → Result CommitLedgerError CommitWitness × Ledgers
    commit_pair answers identity registry_row state_row s =
        validated answers identity registry_row state_row s
          (validate_pair_request answers.paths_alias identity registry_row state_row)

    abbrev pub witnessed : J.Value → Step Unit → Step CommitWitness
    witnessed row (Result.err e, l) = (Result.err e, l)
    witnessed row (Result.ok _, l) = (Result.ok (witness_of row), l)

    -- One ledger, without a snapshot.
    unfoldable pub commit_one :
        Bool → StepIo → LedgerIdentity → J.Value → LedgerFile → Step CommitWitness
    commit_one has_lock step identity row l =
        if has_lock
        then witnessed row (append_if_absent J step identity row l)
        else (Result.err CommitLedgerError.io, l)

pub data LedgerCommitRequest (J : Json) : Type 0 where
  target_ledger_commit : LedgerIdentity → J.Value → J.Value → LedgerCommitRequest J
  error_marker_commit : LedgerIdentity → J.Value → LedgerCommitRequest J

module _ (J : Json) (sha256 : Bytes → Bytes) where
  abbrev on_state : Ledgers → Step CommitWitness → Result CommitLedgerError CommitWitness × Ledgers
  on_state s (result, l) = (result, record { registry = s.registry; state = l })

  unfoldable pub commit_target_ledgers :
      PairIo → LedgerCommitRequest J → Ledgers → Result CommitLedgerError CommitWitness × Ledgers
  commit_target_ledgers answers (target_ledger_commit identity registry_row state_row) s =
      commit_pair J sha256 answers identity registry_row state_row s
  commit_target_ledgers answers (error_marker_commit identity state_row) s =
      on_state s
        (commit_one J sha256 answers.has_locks answers.state_step identity state_row s.state)
