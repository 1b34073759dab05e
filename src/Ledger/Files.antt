-- ===== src/Ledger/Files.antt =====
-- src/pipeline_commit.rs: one ledger file. What the file system does at a step is an argument of the
-- operation: whether a call fails, and what a failed write leaves.
use asrsub.Prelude.{ℕ, Bool, ◌||◌, List, [], ◌∷◌, ◌++◌, Option, none, some, if◌then◌else◌, take}
use asrsub.Text.{Text, lines, nl}
use asrsub.Report.{Result, and_then}
use asrsub.Json.{Json}
use asrsub.Ledger.{LedgerIdentity, has_identity, rows_equal_ignoring_timestamp}

pub data CommitLedgerError : Type 0 where
  io : CommitLedgerError
  storage : CommitLedgerError
  contradiction : CommitLedgerError
  invalid_input : CommitLedgerError

-- What a path leads to: nothing, a regular file with its text, a link whose target does not exist, or
-- what can be neither read nor written as a file, such as a directory. Devices and pipes are left out.
pub data LedgerFile : Type 0 where
  missing : LedgerFile
  file : Text → LedgerFile
  dangling : LedgerFile
  other : LedgerFile

pub data LedgerSnapshot : Type 0 where
  missing : LedgerSnapshot
  file : Text → LedgerSnapshot
  other : LedgerSnapshot

pub data ReadIo : Type 0 where
  opened : ReadIo
  not_opened : ReadIo
  -- reading fails behind some lines
  breaks_after : ℕ → ReadIo

pub data AppendIo : Type 0 where
  written : AppendIo
  not_opened : AppendIo
  -- some chars are written before `write_all` fails
  torn : ℕ → AppendIo
  -- all is written, and `sync_data` fails
  unsynced : AppendIo

pub record StepIo : Type 0 where
  pub has_parent : Bool
  pub read : ReadIo
  pub append : AppendIo

-- The result, and what the file is then.
abbrev pub Step : Type 0 → Type 0
Step A = Result CommitLedgerError A × LedgerFile

module _ (J : Json) where
  abbrev pub Found : Type 0
  Found = Result CommitLedgerError (Option J.Value)

  abbrev pub newer : LedgerIdentity → J.Value → Option J.Value → Option J.Value
  newer identity row found = if has_identity J identity row then some row else found

  -- The last row of the identity; each line has to be a value.
  unfoldable pub scan : LedgerIdentity → Option J.Value → List Text → Found
  scan identity found [] = Result.ok found
  scan identity found (line ∷ more) = elim (J.from_str line) [
    | none ↦ Result.err CommitLedgerError.storage
    | some row ↦ scan identity (newer identity row found) more
  ]

  unfoldable pub find_row : ReadIo → LedgerIdentity → LedgerFile → Found
  find_row ReadIo.not_opened identity l = Result.ok none
  find_row read identity LedgerFile.missing = Result.ok none
  find_row read identity LedgerFile.dangling = Result.ok none
  find_row read identity LedgerFile.other = Result.err CommitLedgerError.io
  find_row ReadIo.opened identity (LedgerFile.file t) = scan identity none (lines t)
  find_row (ReadIo.breaks_after n) identity (LedgerFile.file t) =
      and_then (scan identity none (take n (lines t))) (λ _. Result.err CommitLedgerError.io)

  unfoldable pub canonical_line : J.Value → Result CommitLedgerError Text
  canonical_line row = elim (J.to_string row) [
    | some s ↦ Result.ok (s ++ nl ∷ [])
    | none ↦ Result.err CommitLedgerError.invalid_input
  ]

  abbrev pub write_line : AppendIo → Text → Result CommitLedgerError Text → Step Unit
  write_line outcome t (Result.err e) = (Result.err e, LedgerFile.file t)
  write_line AppendIo.written t (Result.ok line) = (Result.ok tt, LedgerFile.file (t ++ line))
  write_line (AppendIo.torn n) t (Result.ok line) =
      (Result.err CommitLedgerError.io, LedgerFile.file (t ++ take n line))
  write_line AppendIo.unsynced t (Result.ok line) =
      (Result.err CommitLedgerError.io, LedgerFile.file (t ++ line))
  write_line AppendIo.not_opened t (Result.ok line) =
      (Result.err CommitLedgerError.io, LedgerFile.file t)

  -- Opening creates a missing file, also where a link says.
  unfoldable pub append : AppendIo → J.Value → LedgerFile → Step Unit
  append AppendIo.not_opened row l = (Result.err CommitLedgerError.io, l)
  append outcome row LedgerFile.other = (Result.err CommitLedgerError.io, LedgerFile.other)
  append outcome row LedgerFile.missing = write_line outcome [] (canonical_line row)
  append outcome row LedgerFile.dangling = write_line outcome [] (canonical_line row)
  append outcome row (LedgerFile.file t) = write_line outcome t (canonical_line row)

  abbrev pub same_row : J.Value → J.Value → Bool
  same_row existing row = J.equal existing row || rows_equal_ignoring_timestamp J existing row

  abbrev pub after_search : AppendIo → J.Value → LedgerFile → Found → Step Unit
  after_search outcome row l (Result.err e) = (Result.err e, l)
  after_search outcome row l (Result.ok none) = append outcome row l
  after_search outcome row l (Result.ok (some existing)) = (
    (if same_row existing row then Result.ok tt else Result.err CommitLedgerError.contradiction),
    l,
  )

  unfoldable pub append_if_absent : StepIo → LedgerIdentity → J.Value → LedgerFile → Step Unit
  append_if_absent step identity row l =
      if step.has_parent
      then after_search step.append row l (find_row step.read identity l)
      else (Result.err CommitLedgerError.io, l)

abbrev pub snapshot_of : LedgerFile → LedgerSnapshot
snapshot_of LedgerFile.missing = LedgerSnapshot.missing
snapshot_of (LedgerFile.file t) = LedgerSnapshot.file t
snapshot_of LedgerFile.dangling = LedgerSnapshot.other
snapshot_of LedgerFile.other = LedgerSnapshot.other

-- `snapshot_ledger`, which fails where the file cannot be inspected or read.
unfoldable pub snapshot_ledger : Bool → LedgerFile → Result CommitLedgerError LedgerSnapshot
snapshot_ledger readable l =
    if readable then Result.ok (snapshot_of l) else Result.err CommitLedgerError.io

-- What a failed restore leaves.
pub data RestoreIo : Type 0 where
  restored : RestoreIo
  failed : LedgerFile → RestoreIo

-- `restore_ledger` of a snapshot over what the file is now.
unfoldable pub restore_ledger : RestoreIo → LedgerSnapshot → LedgerFile → Step Unit
restore_ledger outcome LedgerSnapshot.other now = (Result.ok tt, now)
restore_ledger RestoreIo.restored LedgerSnapshot.missing now = (Result.ok tt, LedgerFile.missing)
restore_ledger RestoreIo.restored (LedgerSnapshot.file t) now = (Result.ok tt, LedgerFile.file t)
restore_ledger (RestoreIo.failed left) snapshot now = (Result.err CommitLedgerError.io, left)
