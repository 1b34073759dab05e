-- ===== src/Report/Disposition.antt =====
-- What the aggregate of a report says of its targets.
use asrsub.Prelude.{
  ◌≤◌, ◌<◌, ◌≡◌, ◌≢◌, ◌⊎◌, refl, true, false, List, [], ◌∷◌, Option, none, some, any, All, ltb,
  ◌==◌, ==_iff, length, arith, Bool-cases, inl, inr,
}
use asrsub.Report.{
  ItemFailure, AggregateDisposition, WarningClass, TargetStatus, TargetRunResult, count_completed,
  is_completed, has_warning, expected_aggregate,
}
use asrsub.Report.Reduce.{outcome_aggregate}

abbrev pub IsCompleted : TargetRunResult → Type 0
IsCompleted t = (warning : Option WarningClass) × (t.status ≡ TargetStatus.completed warning)

abbrev pub HasWarning : TargetRunResult → Type 0
HasWarning t = (warning : WarningClass) × (t.status ≡ TargetStatus.completed (some warning))

abbrev pub IsUndone : TargetRunResult → Type 0
IsUndone t = (warning : Option WarningClass) → t.status ≢ TargetStatus.completed warning

-- The predicate holds of some element.
abbrev pub Some : {A : Type 0} → (A → Type 0) → List A → Type 0
Some P [] = ⊥
Some P (a ∷ more) = P a ⊎ Some P more

-- Complete: all targets are completed without a warning, and the item did not fail. With a warning: all
-- are completed, one of them with a warning, and the item did not fail. Partial: one is completed, and
-- another one is not or the item failed. Failed: none is completed.
abbrev pub IsAggregate : List TargetRunResult → Option ItemFailure → AggregateDisposition → Type 0
IsAggregate targets failure AggregateDisposition.complete =
    All (λ t. t.status ≡ TargetStatus.completed none) targets × (failure ≡ none)
IsAggregate targets failure AggregateDisposition.complete_with_warning =
    All IsCompleted targets × Some HasWarning targets × (failure ≡ none)
IsAggregate targets failure AggregateDisposition.partial =
    Some IsCompleted targets × (Some IsUndone targets ⊎ (failure ≢ none))
IsAggregate targets failure AggregateDisposition.failed = All IsUndone targets

completed_of :
    (s : TargetStatus)
    → is_completed s ≡ true
    → (w : Option WarningClass) × (s ≡ TargetStatus.completed w)
completed_of (TargetStatus.completed w) h = (w, refl)
completed_of (TargetStatus.failed c) h = absurd cc
completed_of TargetStatus.missing_language h = absurd cc

undone_of :
    (s : TargetStatus)
    → is_completed s ≡ false
    → (w : Option WarningClass) → s ≢ TargetStatus.completed w
undone_of (TargetStatus.completed w) h v e = absurd cc
undone_of (TargetStatus.failed c) h v e = cc
undone_of TargetStatus.missing_language h v e = cc

warning_of :
    (s : TargetStatus)
    → has_warning s ≡ true
    → (w : WarningClass) × (s ≡ TargetStatus.completed (some w))
warning_of (TargetStatus.completed (some w)) h = (w, refl)
warning_of (TargetStatus.completed none) h = absurd cc
warning_of (TargetStatus.failed c) h = absurd cc
warning_of TargetStatus.missing_language h = absurd cc

plain_of :
    (s : TargetStatus)
    → is_completed s ≡ true
    → has_warning s ≡ false
    → s ≡ TargetStatus.completed none
plain_of (TargetStatus.completed none) h k = refl
plain_of (TargetStatus.completed (some w)) h k = absurd cc
plain_of (TargetStatus.failed c) h k = absurd cc
plain_of TargetStatus.missing_language h k = absurd cc

count-le : (ts : List TargetRunResult) → count_completed ts ≤ length ts
count-le [] = omega arith
count-le (t ∷ ts) = let rest = count-le ts in ground arith

All-completed :
    (ts : List TargetRunResult)
    → count_completed ts ≡ length ts
    → All (λ t. is_completed t.status ≡ true) ts
All-completed [] h = tt
All-completed (t ∷ ts) h = elim (Bool-cases (is_completed t.status)) [
  | inl e ↦ (e, All-completed ts (less e))
  | inr e ↦ absurd (more e)
]
  where
    less : is_completed t.status ≡ true → count_completed ts ≡ length ts
    less e = ground arith

    more : is_completed t.status ≡ false → ⊥
    more e = let bound = count-le ts in ground arith

All-IsUndone : (ts : List TargetRunResult) → count_completed ts ≡ 0 → All IsUndone ts
All-IsUndone [] h = tt
All-IsUndone (t ∷ ts) h = elim (Bool-cases (is_completed t.status)) [
  | inl e ↦ absurd (more e)
  | inr e ↦ (undone_of t.status e, All-IsUndone ts (less e))
]
  where
    more : is_completed t.status ≡ true → ⊥
    more e = ground arith

    less : is_completed t.status ≡ false → count_completed ts ≡ 0
    less e = ground arith

Some-IsCompleted : (ts : List TargetRunResult) → 0 < count_completed ts → Some IsCompleted ts
Some-IsCompleted [] h = absurd (omega arith)
Some-IsCompleted (t ∷ ts) h = elim (Bool-cases (is_completed t.status)) [
  | inl e ↦ inl (completed_of t.status e)
  | inr e ↦ inr (Some-IsCompleted ts (less e))
]
  where
    less : is_completed t.status ≡ false → 0 < count_completed ts
    less e = ground arith

Some-IsUndone : (ts : List TargetRunResult) → count_completed ts ≢ length ts → Some IsUndone ts
Some-IsUndone [] h = absurd (h refl)
Some-IsUndone (t ∷ ts) h = elim (Bool-cases (is_completed t.status)) [
  | inl e ↦ inr (Some-IsUndone ts (less e))
  | inr e ↦ inl (undone_of t.status e)
]
  where
    less : is_completed t.status ≡ true → count_completed ts ≢ length ts
    less e same = h (ground arith)

Some-HasWarning :
    (ts : List TargetRunResult) → any (λ t. has_warning t.status) ts ≡ true → Some HasWarning ts
Some-HasWarning [] h = absurd cc
Some-HasWarning (t ∷ ts) h = elim (Bool-cases (has_warning t.status)) [
  | inl e ↦ inl (warning_of t.status e)
  | inr e ↦ inr (Some-HasWarning ts (later e))
]
  where
    later : has_warning t.status ≡ false → any (λ t. has_warning t.status) ts ≡ true
    later e = ground arith

All-IsCompleted :
    (ts : List TargetRunResult) → All (λ t. is_completed t.status ≡ true) ts → All IsCompleted ts
All-IsCompleted [] h = tt
All-IsCompleted (t ∷ ts) h = (completed_of t.status h.0, All-IsCompleted ts h.1)

All-plain :
    (ts : List TargetRunResult)
    → All (λ t. is_completed t.status ≡ true) ts
    → any (λ t. has_warning t.status) ts ≡ false
    → All (λ t. t.status ≡ TargetStatus.completed none) ts
All-plain [] h k = tt
All-plain (t ∷ ts) h k = (plain_of t.status h.0 first, All-plain ts h.1 rest)
  where
    first : has_warning t.status ≡ false
    first = ground arith

    rest : any (λ t. has_warning t.status) ts ≡ false
    rest = ground arith

-- What `reduce_target_outcomes` computes is what `try_new` expects.
pub outcome_aggregate-expected :
    (ts : List TargetRunResult) (failure : Option ItemFailure)
    → outcome_aggregate ts failure ≡ expected_aggregate ts failure
unfolding outcome_aggregate expected_aggregate
outcome_aggregate-expected ts failure = refl

pub outcome_aggregate-IsAggregate :
    (ts : List TargetRunResult) (failure : Option ItemFailure)
    → IsAggregate ts failure (outcome_aggregate ts failure)
unfolding outcome_aggregate
outcome_aggregate-IsAggregate ts none = elim (Bool-cases (count_completed ts == length ts)) [
  | inl e ↦
      let done = All-completed ts ((==_iff _ _).0 e) in
      elim (Bool-cases (any (λ t. has_warning t.status) ts)) [
        | inl w ↦ rw (e, w) (All-IsCompleted ts done, Some-HasWarning ts w, refl)
        | inr w ↦ rw (e, w) (All-plain ts done w, refl)
      ]
  | inr e ↦ elim (Bool-cases (ltb 0 (count_completed ts))) [
    | inl p ↦
        rw (e, p)
          (Some-IsCompleted ts (ground arith), inl (Some-IsUndone ts (λ same. ground arith)))
    | inr p ↦ rw (e, p) (All-IsUndone ts (ground arith))
  ]
]
outcome_aggregate-IsAggregate ts (some f) = elim (Bool-cases (count_completed ts == length ts)) [
  | inl e ↦ elim (Bool-cases (ltb 0 (count_completed ts))) [
    | inl p ↦ rw (e, p) (Some-IsCompleted ts (ground arith), inr (λ h. cc))
    | inr p ↦ rw (e, p) (All-IsUndone ts (ground arith))
  ]
  | inr e ↦ elim (Bool-cases (ltb 0 (count_completed ts))) [
    | inl p ↦ rw (e, p) (Some-IsCompleted ts (ground arith), inr (λ h. cc))
    | inr p ↦ rw (e, p) (All-IsUndone ts (ground arith))
  ]
]
