-- ===== src/State.antt =====
-- src/state.rs: the ledgers of lines, the queue of actions, the registry, and the time stamp.
-- src/pipeline_targets.rs: the targets that both ledgers attest.
pub mod Rows
pub mod Actions
pub mod Removal
pub mod Clock
pub mod Targets
use asrsub.Prelude.{
  ℕ, take, Bool, true, false, not, ◌&&◌, ◌||◌, List, [], ◌∷◌, ◌++◌, Option, none, some,
  if◌then◌else◌, is_nil, is_some, length, map, ◌==◌,
}
use asrsub.Text.{Text, codes, lines, nl, text_eq, trim}
use asrsub.Report.{Signed}
use asrsub.Lang.{normalize_lang}
use asrsub.Ledger.{signed_eq}
use asrsub.Ledger.Files.{LedgerFile}

abbrev pub keep_some : {A : Type 0} → Option A → List A → List A
keep_some none rows = rows
keep_some (some a) rows = a ∷ rows

-- The text that `read_to_string` gives, if the file can be read.
abbrev pub read_to_string : Bool → LedgerFile → Option Text
read_to_string readable (LedgerFile.file t) = if readable then some t else none
read_to_string readable _ = none

module _ {A : Type 0} (from_str : Text → Option A) where
  abbrev pub row_of : Text → Option A
  row_of line = if is_nil (trim line) then none else from_str (trim line)

  unfoldable pub rows_of : List Text → List A
  rows_of [] = []
  rows_of (line ∷ more) = keep_some (row_of line) (rows_of more)

  unfoldable pub load_jsonl : Bool → LedgerFile → List A
  load_jsonl readable l = elim (read_to_string readable l) [
    | some t ↦ rows_of (lines t)
    | none ↦ []
  ]

-- How the system answers an append or a rewrite: a failure before anything is written, after some of
-- the text, or none. A rewrite changes the file by its last step, the rename, only.
pub data WriteIo : Type 0 where
  done : WriteIo
  -- the lock, the directory or the file is not had
  refused : WriteIo
  -- `write_all` fails behind some chars
  torn : ℕ → WriteIo
  unsynced : WriteIo

abbrev pub text_of : LedgerFile → Text
text_of (LedgerFile.file t) = t
text_of _ = []

module _ {A : Type 0} (to_string : A → Option Text) where
  abbrev write_row : WriteIo → Text → LedgerFile → Bool × LedgerFile
  write_row WriteIo.done line l = (true, LedgerFile.file (text_of l ++ line))
  write_row WriteIo.refused line l = (false, l)
  write_row (WriteIo.torn n) line l = (false, LedgerFile.file (text_of l ++ take n line))
  write_row WriteIo.unsynced line l = (false, LedgerFile.file (text_of l ++ line))

  abbrev pub regular_write : WriteIo → Option Text → LedgerFile → Bool × LedgerFile
  regular_write outcome none l = (false, l)
  regular_write outcome (some s) LedgerFile.other = (false, LedgerFile.other)
  regular_write outcome (some s) l = write_row outcome (s ++ nl ∷ []) l

  -- Whether it succeeded, and the file then.
  unfoldable pub append_jsonl : WriteIo → A → LedgerFile → Bool × LedgerFile
  append_jsonl outcome value l = regular_write outcome (to_string value) l

  abbrev pub cons_line : Option Text → Option Text → Option Text
  cons_line (some s) (some rest) = some (s ++ nl ∷ rest)
  cons_line _ _ = none

  unfoldable pub rows_text : List A → Option Text
  rows_text [] = some []
  rows_text (a ∷ more) = cons_line (to_string a) (rows_text more)

  abbrev pub replaced : Bool → Option Text → LedgerFile → Bool × LedgerFile
  replaced has_renamed none l = (false, l)
  replaced has_renamed (some t) l = if has_renamed then (true, LedgerFile.file t) else (false, l)

  -- The argument says whether every step up to the rename succeeds.
  unfoldable pub rewrite_jsonl : Bool → List A → LedgerFile → Bool × LedgerFile
  rewrite_jsonl has_renamed rows l = replaced has_renamed (rows_text rows) l

-- How the system answers a drain.
pub record DrainIo : Type 0 where
  pub has_lock : Bool
  pub readable : Bool
  pub is_truncated : Bool

module _ {A : Type 0} (from_str : Text → Option A) where
  abbrev truncate : Bool → LedgerFile → LedgerFile
  truncate true (LedgerFile.file t) = LedgerFile.file []
  truncate _ l = l

  -- Without the lock the rows are read, and stay.
  unfoldable pub consume_actions : DrainIo → LedgerFile → List A × LedgerFile
  consume_actions system l = (
    load_jsonl from_str system.readable l,
    (if system.has_lock then truncate system.is_truncated l else l),
  )
