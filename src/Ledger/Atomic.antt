-- ===== src/Ledger/Atomic.antt =====
-- A commit that fails leaves both ledgers as they were.
use asrsub.Prelude.{
  ◌≡◌, ◌≢◌, refl, sym, ap, subst, Bool, true, false, none, some, if◌then◌else◌, Bool-cases, ◌⊎◌,
  inl, inr,
}
use asrsub.Report.{Bytes, Result}
use asrsub.Json.{Json}
use asrsub.Ledger.{LedgerIdentity}
use asrsub.Ledger.Files.{
  CommitLedgerError, LedgerFile, StepIo, AppendIo, RestoreIo, append_if_absent, after_search,
  append, find_row, Found, snapshot_of, snapshot_ledger, restore_ledger, Step,
}
use asrsub.Ledger.Pair.{
  CommitWitness, Ledgers, snapshots_of, PairIo, is_err, append_both, in_order, roll_back, conclude,
  snapshot_both, locked, validated, commit_pair,
}

-- What cannot be written as a file stays so.
abbrev KeepsOther : LedgerFile → LedgerFile → Type 0
KeepsOther before after = before ≡ LedgerFile.other → after ≡ LedgerFile.other

restore_ledger-back :
    (before after : LedgerFile)
    → before ≢ LedgerFile.dangling
    → KeepsOther before after
    → restore_ledger RestoreIo.restored (snapshot_of before) after ≡ (Result.ok tt, before)
unfolding restore_ledger
restore_ledger-back LedgerFile.missing after firm h = refl
restore_ledger-back (LedgerFile.file t) after firm h = refl
restore_ledger-back LedgerFile.dangling after firm h = absurd (firm refl)
restore_ledger-back LedgerFile.other after firm h = ap (λ l. (Result.ok tt, l)) (h refl)

in_order-KeepsOther :
    (s : Ledgers) (first second : Step Unit)
    → KeepsOther s.registry first.1
    → KeepsOther s.state second.1
    → KeepsOther s.registry (in_order first second s.state).1.registry
      × KeepsOther s.state (in_order first second s.state).1.state
in_order-KeepsOther s (Result.err e, registry) second h k = (h, λ same. same)
in_order-KeepsOther s (Result.ok _, registry) (result, after) h k = (h, k)

module _ (J : Json) (identity : LedgerIdentity) where
  append-other :
      (outcome : AppendIo) (row : J.Value)
      → (append J outcome row LedgerFile.other).1 ≡ LedgerFile.other
  unfolding append
  append-other AppendIo.not_opened row = refl
  append-other AppendIo.written row = refl
  append-other (AppendIo.torn n) row = refl
  append-other AppendIo.unsynced row = refl

  after_search-other :
      (outcome : AppendIo) (row : J.Value) (found : Found J)
      → (after_search J outcome row LedgerFile.other found).1 ≡ LedgerFile.other
  after_search-other outcome row (Result.err e) = refl
  after_search-other outcome row (Result.ok none) = append-other outcome row
  after_search-other outcome row (Result.ok (some existing)) = refl

  append_if_absent-KeepsOther :
      (step : StepIo) (row : J.Value) (l : LedgerFile)
      → KeepsOther l (append_if_absent J step identity row l).1
  unfolding append_if_absent
  append_if_absent-KeepsOther step row l h = elim (Bool-cases step.has_parent) [
    | inl p ↦ rw (p) (
        subst
          (λ x.
            (after_search J step.append row x (find_row J step.read identity x)).1
            ≡ LedgerFile.other)
          (sym h) (after_search-other step.append row _))
    | inr p ↦ rw (p) h
  ]

  append_both-KeepsOther :
      (answers : PairIo) (registry_row state_row : J.Value) (s : Ledgers)
      → KeepsOther s.registry (append_both J answers identity registry_row state_row s).1.registry
        × KeepsOther s.state (append_both J answers identity registry_row state_row s).1.state
  unfolding append_both
  append_both-KeepsOther answers registry_row state_row s =
      in_order-KeepsOther s _ _
        (append_if_absent-KeepsOther answers.registry_step registry_row s.registry)
        (append_if_absent-KeepsOther answers.state_step state_row s.state)

  module _ (sha256 : Bytes → Bytes) (answers : PairIo)
      (registry_back : answers.registry_restore ≡ RestoreIo.restored)
      (state_back : answers.state_restore ≡ RestoreIo.restored) (registry_row state_row : J.Value)
      (s : Ledgers) (registry_firm : s.registry ≢ LedgerFile.dangling)
      (state_firm : s.state ≢ LedgerFile.dangling) where
    roll_back-keeps :
        (e : CommitLedgerError) (now : Ledgers)
        → KeepsOther s.registry now.registry
        → KeepsOther s.state now.state
        → roll_back J sha256 answers (snapshots_of s) e now ≡ (Result.err e, s)
    roll_back-keeps e now h k =
        rw
          (
            registry_back,
            state_back,
            restore_ledger-back s.registry now.registry registry_firm h,
            restore_ledger-back s.state now.state state_firm k,
          )
          refl

    conclude-keeps :
        (result : Result CommitLedgerError Unit) (now : Ledgers)
        → KeepsOther s.registry now.registry
        → KeepsOther s.state now.state
        → is_err (conclude J sha256 answers registry_row (snapshots_of s) (result, now)).0 ≡ true
        → (conclude J sha256 answers registry_row (snapshots_of s) (result, now)).1 ≡ s
    conclude-keeps (Result.err e) now h k failed = ap (λ r. r.1) (roll_back-keeps e now h k)
    conclude-keeps (Result.ok _) now h k failed = absurd cc

    snapshot_both-keeps :
        (snapshot_both J sha256 answers s ≡ Result.ok (snapshots_of s))
        ⊎ (snapshot_both J sha256 answers s ≡ Result.err CommitLedgerError.io)
    unfolding snapshot_ledger
    snapshot_both-keeps = elim (Bool-cases answers.registry_readable) [
      | inr h ↦ inr (rw (h) refl)
      | inl h ↦ elim (Bool-cases answers.state_readable) [
        | inr k ↦ inr (rw (h, k) refl)
        | inl k ↦ inl (rw (h, k) refl)
      ]
    ]

    abbrev Keeps : Result CommitLedgerError CommitWitness × Ledgers → Type 0
    Keeps answer = is_err answer.0 ≡ true → answer.1 ≡ s

    locked-Keeps : Keeps (
        locked J sha256 answers identity registry_row state_row s
          (snapshot_both J sha256 answers s))
    locked-Keeps = elim snapshot_both-keeps [
      | inr h ↦ rw (h) (λ failed. refl)
      | inl h ↦ rw (h) (λ failed.
          let kept = append_both-KeepsOther answers registry_row state_row s in
          conclude-keeps (append_both J answers identity registry_row state_row s).0
            (append_both J answers identity registry_row state_row s).1 kept.0 kept.1 failed)
    ]

    gate-Keeps :
        (has_locks : Bool) (answer : Result CommitLedgerError CommitWitness × Ledgers)
        → Keeps answer
        → Keeps (if has_locks then answer else (Result.err CommitLedgerError.io, s))
    gate-Keeps true answer h = h
    gate-Keeps false answer h = λ failed. refl

    validated-Keeps :
        (checked : Result CommitLedgerError Unit)
        → Keeps (validated J sha256 answers identity registry_row state_row s checked)
    validated-Keeps (Result.err e) = λ failed. refl
    validated-Keeps (Result.ok _) = gate-Keeps answers.has_locks _ locked-Keeps

  -- If neither ledger is a link without a target and the rollback's restores succeed, a commit of a
  -- target that fails, at whatever step, leaves both ledgers exactly as they were.
  pub commit_pair-atomic :
      (sha256 : Bytes → Bytes) (answers : PairIo)
      → answers.registry_restore ≡ RestoreIo.restored
      → answers.state_restore ≡ RestoreIo.restored
      → (registry_row state_row : J.Value) (s : Ledgers) → s.registry ≢ LedgerFile.dangling
      → s.state ≢ LedgerFile.dangling
      → is_err (commit_pair J sha256 answers identity registry_row state_row s).0 ≡ true
      → (commit_pair J sha256 answers identity registry_row state_row s).1 ≡ s
  unfolding commit_pair
  commit_pair-atomic sha256 answers registry_back state_back registry_row state_row s registry_firm
        state_firm =
      validated-Keeps sha256 answers registry_back state_back registry_row state_row s registry_firm
        state_firm _
