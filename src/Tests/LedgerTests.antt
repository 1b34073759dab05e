-- ===== src/Tests/LedgerTests.antt =====
-- Runs of the theorems on ledgers.
use asrsub.Prelude.{
  ℕ, zero, suc, ◌≡◌, refl, true, false, [], ◌∷◌, ◌++◌, Option, none, some, if◌then◌else◌, replicate,
  All, arith,
}
use asrsub.Text.{Text, codes, nl, text_eq, lines, split_char, end_lines}
use asrsub.Report.{Signed, Result}
use asrsub.Report.Codec.{hex}
use asrsub.Json.{Json}
use asrsub.Ledger.{LedgerIdentity, row_identity}
use asrsub.Ledger.Digest.{IsByte, parse_hex, parse_hex-hex, hex_pairs, from_radix}
use asrsub.Ledger.Files.{
  LedgerFile, StepIo, ReadIo, AppendIo, RestoreIo, append_if_absent, find_row, scan, append,
  canonical_line, snapshot_ledger, restore_ledger,
}
use asrsub.Ledger.Pair.{Ledgers, PairIo, is_err, validate_pair_request, append_both, commit_pair}
use asrsub.Ledger.Recorded.{IsPrinted}
use asrsub.Ledger.Atomic.{commit_pair-atomic}
use asrsub.Ledger.Committed.{IsServing, IsCommitted, commit_pair-IsCommitted, commit_pair-repeated}

replicate-IsByte : (n b : ℕ) → IsByte b → All IsByte (replicate n b)
replicate-IsByte zero b h = tt
replicate-IsByte (suc n) b h = (h, replicate-IsByte n b h)

parse_hex-hex_example : parse_hex (hex (replicate 32 0xab)) ≡ some (replicate 32 0xab)
parse_hex-hex_example =
    parse_hex-hex (replicate 32 0xab) refl (replicate-IsByte 32 0xab (omega arith))

-- Values that are a text each, with the fields of one row.
abbrev pub field : Text → Text → Option Text
field key row =
    if text_eq key (codes "episode_id")
    then some (codes "7")
    else if text_eq key (codes "artifact_sha256")
    then some (replicate 64 b'0')
    else none

abbrev pub text_values : Json
text_values = record {
  Value = Text;
  is_object = λ row. true;
  get = field;
  as_str = λ row. some row;
  as_array = λ row. none;
  fields = λ row. none;
  field_count = λ row. 0;
  is_null = λ row. false;
  as_bool = λ row. none;
  as_u64 = λ row. none;
  as_i64 = λ row. some (Signed.pos 7);
  remove = λ key row. row;
  equal = text_eq;
  from_str = λ line. some line;
  to_string = λ row. some row;
  to_vec = λ row. some row;
}

abbrev seventh : LedgerIdentity
seventh = record {
  kind = codes "series";
  episode_id = Signed.pos 7;
  language = [];
  artifact_sha256 = replicate 32 0;
}

abbrev step_of : AppendIo → StepIo
step_of outcome = record { has_parent = true; read = ReadIo.opened; append = outcome }

abbrev system : AppendIo → PairIo
system outcome = record {
  paths_alias = Result.ok false;
  has_locks = true;
  registry_readable = true;
  state_readable = true;
  registry_step = step_of AppendIo.written;
  state_step = step_of outcome;
  registry_restore = RestoreIo.restored;
  state_restore = RestoreIo.restored;
}

abbrev empty_ledgers : Ledgers
empty_ledgers = record { registry = LedgerFile.missing; state = LedgerFile.file [] }

torn_fails :
    is_err
      (commit_pair text_values
        (λ b. b)
        (system (AppendIo.torn 1))
        seventh
        (codes "r")
        (codes "s")
        empty_ledgers).0
    ≡ true
unfolding commit_pair validate_pair_request row_identity parse_hex hex_pairs from_radix
    snapshot_ledger append_both append_if_absent find_row scan append canonical_line lines
    split_char end_lines restore_ledger
torn_fails = refl

written_succeeds :
    is_err
      (commit_pair text_values
        (λ b. b)
        (system AppendIo.written)
        seventh
        (codes "r")
        (codes "s")
        empty_ledgers).0
    ≡ false
unfolding commit_pair validate_pair_request row_identity parse_hex hex_pairs from_radix
    snapshot_ledger append_both append_if_absent find_row scan append canonical_line lines
    split_char end_lines restore_ledger
written_succeeds = refl

-- Behind a link without a target the registry's row stays when the state's row is torn.
dangling_left :
    (commit_pair text_values
      (λ b. b)
      (system (AppendIo.torn 1))
      seventh
      (codes "r")
      (codes "s")
      (record { registry = LedgerFile.dangling; state = LedgerFile.file [] })).1
    ≡ record { registry = LedgerFile.file (codes "r" ++ nl ∷ []); state = LedgerFile.file [] }
unfolding commit_pair validate_pair_request row_identity parse_hex hex_pairs from_radix
    snapshot_ledger append_both append_if_absent find_row scan append canonical_line lines
    split_char end_lines restore_ledger
dangling_left = refl

-- The state's row is torn after one char, and the registry's row is taken back.
commit_pair-atomic_example :
    (commit_pair text_values
      (λ b. b)
      (system (AppendIo.torn 1))
      seventh
      (codes "r")
      (codes "s")
      empty_ledgers).1
    ≡ empty_ledgers
commit_pair-atomic_example =
    commit_pair-atomic text_values seventh (λ b. b) (system (AppendIo.torn 1)) refl refl (codes "r")
      (codes "s") empty_ledgers (λ e. cc) (λ e. cc) torn_fails

registry_line : IsPrinted text_values (codes "r")
registry_line = record {
  line = codes "r";
  printed = refl;
  reads_back = refl;
  no_nl = (λ e. cc, tt);
  no_cr = (λ e. cc, tt);
  equals_itself = refl;
}

state_line : IsPrinted text_values (codes "s")
state_line = record {
  line = codes "s";
  printed = refl;
  reads_back = refl;
  no_nl = (λ e. cc, tt);
  no_cr = (λ e. cc, tt);
  equals_itself = refl;
}

system-IsServing : IsServing text_values seventh (codes "r") (codes "s") (system AppendIo.written)
system-IsServing = record {
  two_files = refl;
  locks = refl;
  registry_seen = refl;
  state_seen = refl;
  registry_parent = refl;
  state_parent = refl;
  registry_read = refl;
  state_read = refl;
}

commit_pair-IsCommitted_example :
    IsCommitted text_values seventh
      (codes "r")
      (codes "s")
      (λ b. b)
      (commit_pair text_values
        (λ b. b)
        (system AppendIo.written)
        seventh
        (codes "r")
        (codes "s")
        empty_ledgers)
commit_pair-IsCommitted_example =
    commit_pair-IsCommitted text_values seventh (codes "r") (codes "s") (λ b. b) registry_line
      state_line (system AppendIo.written) refl refl empty_ledgers tt ([], tt, refl)
      written_succeeds

commit_pair-repeated_example :
    commit_pair text_values
      (λ b. b)
      (system AppendIo.written)
      seventh
      (codes "r")
      (codes "s")
      (commit_pair text_values
        (λ b. b)
        (system AppendIo.written)
        seventh
        (codes "r")
        (codes "s")
        empty_ledgers).1
    ≡ commit_pair text_values
        (λ b. b)
        (system AppendIo.written)
        seventh
        (codes "r")
        (codes "s")
        empty_ledgers
commit_pair-repeated_example =
    commit_pair-repeated text_values seventh (codes "r") (codes "s") (λ b. b) registry_line
      state_line (system AppendIo.written) refl refl empty_ledgers tt ([], tt, refl)
      (system AppendIo.written) system-IsServing written_succeeds
