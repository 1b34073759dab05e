-- ===== src/Ledger/Committed.antt =====
-- Commits of a target that succeed, and their repetition.
use asrsub.Prelude.{
  ◌≡◌, refl, sym, ap, ap₂, ◌∙◌, Bool, true, false, not, ◌&&◌, ◌||◌, some, if◌then◌else◌,
}
use asrsub.Report.{Bytes, Result}
use asrsub.Json.{Json}
use asrsub.Ledger.{LedgerIdentity, has_identity}
use asrsub.Ledger.Files.{
  CommitLedgerError, LedgerFile, StepIo, ReadIo, append_if_absent, after_search, find_row, Found,
  Step, same_row, snapshot_ledger,
}
use asrsub.Ledger.Recorded.{IsPrinted, IsLineEnded, Recorded, append_if_absent-Good}
use asrsub.Ledger.Pair.{
  CommitWitness, Ledgers, PairIo, is_err, validate_pair_request, append_both, in_order, conclude,
  LedgerSnapshots, snapshots_of, snapshot_both, locked, validated, commit_pair, witness_of,
}

guarded :
    (x a b : Bool) (e : CommitLedgerError)
    → (if x || not (a && b) then Result.err e else Result.ok tt) ≡ Result.ok tt
    → (a ≡ true) × (b ≡ true)
guarded false true true e h = (refl, refl)
guarded false true false e h = absurd cc
guarded false false b e h = absurd cc
guarded true a b e h = absurd cc

module _ (J : Json) (identity : LedgerIdentity) where
  after_search-repeated :
      (step : StepIo) (row : J.Value) (l : LedgerFile) (found : Found J) (existing : J.Value)
      → found ≡ Result.ok (some existing)
      → same_row J existing row ≡ true
      → after_search J step.append row l found ≡ (Result.ok tt, l)
  after_search-repeated step row l found existing e h = rw (e, h) refl

  append_if_absent-repeated :
      (step : StepIo) (row : J.Value) (l : LedgerFile)
      → step.has_parent ≡ true
      → step.read ≡ ReadIo.opened
      → Recorded J identity row l
      → append_if_absent J step identity row l ≡ (Result.ok tt, l)
  unfolding append_if_absent
  append_if_absent-repeated step row l parent reads (existing, e, h) =
      ap
        (λ b.
          if b
          then after_search J step.append row l (find_row J step.read identity l)
          else (Result.err CommitLedgerError.io, l))
        parent
      ∙ after_search-repeated step row l _ existing (ap (λ r. find_row J r identity l) reads ∙ e) h

  module _ (registry_row state_row : J.Value) where
    valid_rows :
        (aliased : Result CommitLedgerError Bool)
        → validate_pair_request J aliased identity registry_row state_row ≡ Result.ok tt
        → (has_identity J identity registry_row ≡ true) × (has_identity J identity state_row ≡ true)
    unfolding validate_pair_request
    valid_rows (Result.err e) h = absurd cc
    valid_rows (Result.ok aliased) h = guarded aliased _ _ CommitLedgerError.invalid_input h

    -- A system that keeps the paths apart, has the locks, reads every file and makes the directories
    pub record IsServing (answers : PairIo) : Type 0 where
      pub two_files : answers.paths_alias ≡ Result.ok false
      pub locks : answers.has_locks ≡ true
      pub registry_seen : answers.registry_readable ≡ true
      pub state_seen : answers.state_readable ≡ true
      pub registry_parent : answers.registry_step.has_parent ≡ true
      pub state_parent : answers.state_step.has_parent ≡ true
      pub registry_read : answers.registry_step.read ≡ ReadIo.opened
      pub state_read : answers.state_step.read ≡ ReadIo.opened

    module _ (sha256 : Bytes → Bytes) where
      Answered : Type 0
      Answered = Result CommitLedgerError CommitWitness × Ledgers

      snapshot_both-serving :
          (answers : PairIo)
          → IsServing answers
          → (s : Ledgers) → snapshot_both J sha256 answers s ≡ Result.ok (snapshots_of s)
      unfolding snapshot_ledger
      snapshot_both-serving answers a s = rw (a.registry_seen, a.state_seen) refl

      commit_pair-again :
          (answers : PairIo)
          → IsServing answers
          → (s : Ledgers) → has_identity J identity registry_row ≡ true
          → has_identity J identity state_row ≡ true
          → Recorded J identity registry_row s.registry
          → Recorded J identity state_row s.state
          → commit_pair J sha256 answers identity registry_row state_row s
            ≡ (Result.ok (witness_of J sha256 registry_row), s)
      unfolding commit_pair
      commit_pair-again answers a s mine mine_too r t =
          ap (validated J sha256 answers identity registry_row state_row s) valid
          ∙ ap
              (λ b.
                if b
                then locked J sha256 answers identity registry_row state_row s
                    (snapshot_both J sha256 answers s)
                else (Result.err CommitLedgerError.io, s))
              a.locks
          ∙ ap (locked J sha256 answers identity registry_row state_row s)
              (snapshot_both-serving answers a s)
          ∙ ap (conclude J sha256 answers registry_row (snapshots_of s)) appended
        where
          valid :
              validate_pair_request J answers.paths_alias identity registry_row state_row
              ≡ Result.ok tt
          valid =
              ap (λ p. validate_pair_request J p identity registry_row state_row) a.two_files
              ∙ (unfold validate_pair_request in rw (mine, mine_too) refl)

          appended : append_both J answers identity registry_row state_row s ≡ (Result.ok tt, s)
          appended =
              unfold append_both in
              ap₂ (λ x y. in_order x y s.state)
                (append_if_absent-repeated answers.registry_step registry_row s.registry
                  a.registry_parent a.registry_read r)
                (append_if_absent-repeated answers.state_step state_row s.state a.state_parent
                  a.state_read t)

      -- What a commit that succeeds answers and leaves
      abbrev pub IsCommitted : Result CommitLedgerError CommitWitness × Ledgers → Type 0
      IsCommitted (result, s) =
          (result ≡ Result.ok (witness_of J sha256 registry_row))
          × (Recorded J identity registry_row s.registry × IsLineEnded s.registry)
          × (Recorded J identity state_row s.state × IsLineEnded s.state)

      abbrev Success : Result CommitLedgerError CommitWitness × Ledgers → Type 0
      Success answer = is_err answer.0 ≡ false → IsCommitted answer

      module _ (printed : IsPrinted J registry_row) (printed_too : IsPrinted J state_row)
          (answers : PairIo) (reads : answers.registry_step.read ≡ ReadIo.opened)
          (reads_too : answers.state_step.read ≡ ReadIo.opened) (s : Ledgers)
          (ended : IsLineEnded s.registry) (ended_too : IsLineEnded s.state) where
        conclude-Success :
            (first second : Step Unit) (snapshots : LedgerSnapshots)
            → (first.0 ≡ Result.ok tt
                → Recorded J identity registry_row first.1 × IsLineEnded first.1)
            → (second.0 ≡ Result.ok tt
                → Recorded J identity state_row second.1 × IsLineEnded second.1)
            → Success
                (conclude J sha256 answers registry_row snapshots (in_order first second s.state))
        conclude-Success (Result.err e, r) second snapshots h k = λ done. absurd cc
        conclude-Success (Result.ok _, r) (Result.err e, t) snapshots h k = λ done. absurd cc
        conclude-Success (Result.ok _, r) (Result.ok _, t) snapshots h k =
            λ done. (refl, h refl, k refl)

        locked-Success :
            (snapshots : Result CommitLedgerError LedgerSnapshots)
            → has_identity J identity registry_row ≡ true
            → has_identity J identity state_row ≡ true
            → Success (locked J sha256 answers identity registry_row state_row s snapshots)
        unfolding append_both
        locked-Success (Result.err e) mine mine_too = λ done. absurd cc
        locked-Success (Result.ok snapshots) mine mine_too =
            conclude-Success _ _ snapshots
              (append_if_absent-Good J identity registry_row mine printed answers.registry_step
                s.registry reads ended)
              (append_if_absent-Good J identity state_row mine_too printed_too answers.state_step
                s.state reads_too ended_too)

        gate-Success :
            (has_locks : Bool) (answer : Result CommitLedgerError CommitWitness × Ledgers)
            → Success answer
            → Success (if has_locks then answer else (Result.err CommitLedgerError.io, s))
        gate-Success true answer h = h
        gate-Success false answer h = λ done. absurd cc

        validated-Success :
            (checked : Result CommitLedgerError Unit)
            → validate_pair_request J answers.paths_alias identity registry_row state_row ≡ checked
            → Success (validated J sha256 answers identity registry_row state_row s checked)
        validated-Success (Result.err e) h = λ done. absurd cc
        validated-Success (Result.ok _) h =
            let mine = valid_rows answers.paths_alias h in
            gate-Success answers.has_locks _ (locked-Success _ mine.0 mine.1)

        -- If both ledgers can be opened to be read and no row in them lacks its line feed, a commit of
        -- a target that succeeds answers with the witness of the registry's row and leaves in each
        -- ledger a row of the target, the same but for its time, that a search finds; and again no row
        -- lacks its line feed.
        pub commit_pair-IsCommitted :
            is_err (commit_pair J sha256 answers identity registry_row state_row s).0 ≡ false
            → IsCommitted (commit_pair J sha256 answers identity registry_row state_row s)
        unfolding commit_pair
        commit_pair-IsCommitted = validated-Success _ refl

        validated-valid :
            (checked : Result CommitLedgerError Unit)
            → is_err (validated J sha256 answers identity registry_row state_row s checked).0
              ≡ false
            → checked ≡ Result.ok tt
        validated-valid (Result.err e) done = absurd cc
        validated-valid (Result.ok _) done = refl

        -- A commit of a target that succeeded, made once more while the system serves it, gives the same
        -- witness and leaves both ledgers as they are.
        pub commit_pair-repeated :
            (again : PairIo)
            → IsServing again
            → is_err (commit_pair J sha256 answers identity registry_row state_row s).0 ≡ false
            → commit_pair J sha256 again identity registry_row state_row
                (commit_pair J sha256 answers identity registry_row state_row s).1
              ≡ commit_pair J sha256 answers identity registry_row state_row s
        commit_pair-repeated again serves done =
            let committed = commit_pair-IsCommitted done in
            let mine =
              valid_rows answers.paths_alias (validated-valid _ (unfold commit_pair in done)) in
            commit_pair-again again serves _ mine.0 mine.1 committed.1.0 committed.2.0
            ∙ ap (λ r. (r, (commit_pair J sha256 answers identity registry_row state_row s).1))
                (sym committed.0)
