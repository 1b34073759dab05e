-- ===== src/Lane/Delivery.antt =====
-- What an acknowledged delivery drops.
use asrsub.Prelude.{
  ◌≡◌, refl, sym, ap, ap₂, ◌∙◌, subst, Bool, true, false, ◌||◌, List, [], ◌∷◌, ◌++◌, Option, none,
  some, any, is_some, All, All-append, All-mono, append-nil, append_assoc, Option-cases, inl, inr,
  or_false, or_false_left, or_false_right, arith, ◌⊎◌,
}
use asrsub.Text.{Text}
use asrsub.Text.Equality.{text_eq_refl}
use asrsub.Report.{Bytes, EpisodeRunReport, Result}
use asrsub.Lane.State.{Reservation, Queues, LaneState, with_queues}
use asrsub.Lane.Operations.{settled}
use asrsub.Lane.Queueing.{opt_eq, has_id, admit, admit_all, not_captured, ids}
use asrsub.Lane.Queue.{opt_eq-sym, not_captured-drop, not_captured-keep}

abbrev pub HasId : EpisodeRunReport → Type 0
HasId r = is_some r.pipeline_commit_id ≡ true

abbrev IsCaptured : List Text → EpisodeRunReport → Type 0
IsCaptured captured r = any (λ id. opt_eq r.pipeline_commit_id (some id)) captured ≡ true

abbrev IsLate : List Text → EpisodeRunReport → Type 0
IsLate captured r = any (λ id. opt_eq r.pipeline_commit_id (some id)) captured ≡ false

or_right : (a b : Bool) → b ≡ true → (a || b) ≡ true
or_right true b h = refl
or_right false b h = h

ids-some :
    (r : EpisodeRunReport) (rs : List EpisodeRunReport) (id : Text)
    → r.pipeline_commit_id ≡ some id
    → ids (r ∷ rs) ≡ id ∷ ids rs
ids-some r rs id e = rw (e, ids) refl

ids-none :
    (r : EpisodeRunReport) (rs : List EpisodeRunReport)
    → r.pipeline_commit_id ≡ none
    → ids (r ∷ rs) ≡ ids rs
ids-none r rs e = rw (e, ids) refl

ids-IsCaptured : (rs : List EpisodeRunReport) → All HasId rs → All (IsCaptured (ids rs)) rs
ids-IsCaptured [] h = tt
ids-IsCaptured (r ∷ rs) h = elim (Option-cases r.pipeline_commit_id) [
  | inl e ↦ absurd (no_id e)
  | inr (id, e) ↦
      subst (λ captured. All (IsCaptured captured) (r ∷ rs)) (sym (ids-some r rs id e))
        (
          rw (e, text_eq_refl id) refl,
          All-mono (IsCaptured (ids rs)) (IsCaptured (id ∷ ids rs)) rs
              (λ x. or_right (opt_eq x.pipeline_commit_id (some id)) _) (ids-IsCaptured rs h.1),
        )
]
  where
    no_id : r.pipeline_commit_id ≡ none → ⊥
    no_id e = cc

not_captured-append :
    (captured : List Text) (rs new : List EpisodeRunReport)
    → All (IsCaptured captured) rs
    → not_captured captured (rs ++ new) ≡ not_captured captured new
not_captured-append captured [] new h = refl
not_captured-append captured (r ∷ rs) new h =
    not_captured-drop captured r (rs ++ new) h.0 ∙ not_captured-append captured rs new h.1

not_captured-IsLate :
    (captured : List Text) (new : List EpisodeRunReport)
    → All (IsLate captured) new
    → not_captured captured new ≡ new
not_captured-IsLate captured [] h = refl
not_captured-IsLate captured (r ∷ new) h =
    not_captured-keep captured r new h.0 ∙ ap (◌∷◌ r) (not_captured-IsLate captured new h.1)

-- A report whose id is not in the queue is not captured with it.
ids-IsLate :
    (r : EpisodeRunReport) (rs : List EpisodeRunReport)
    → has_id r.pipeline_commit_id rs ≡ false
    → IsLate (ids rs) r
ids-IsLate r [] h = refl
ids-IsLate r (o ∷ rs) h = elim (Option-cases o.pipeline_commit_id) [
  | inl e ↦
      rw (ids-none o rs e)
        (ids-IsLate r rs (or_false_right (opt_eq o.pipeline_commit_id r.pipeline_commit_id) _ h))
  | inr (id, e) ↦ rw (ids-some o rs id e) (
      or_false _ _
        (ap (opt_eq r.pipeline_commit_id) (sym e)
          ∙ opt_eq-sym r.pipeline_commit_id o.pipeline_commit_id
          ∙ or_false_left _ (has_id r.pipeline_commit_id rs) h)
        (ids-IsLate r rs (or_false_right (opt_eq o.pipeline_commit_id r.pipeline_commit_id) _ h)))
]

has_id-append :
    (id : Option Text) (rs more : List EpisodeRunReport)
    → has_id id (rs ++ more) ≡ false
    → has_id id rs ≡ false
has_id-append id [] more h = refl
has_id-append id (r ∷ rs) more h =
    or_false _ _ (or_false_left _ (has_id id (rs ++ more)) h)
      (has_id-append id rs more (or_false_right (opt_eq r.pipeline_commit_id id) _ h))

-- Whether the second queue is the first with reports at its end whose ids the first does not have.
abbrev Extends : List EpisodeRunReport → List EpisodeRunReport → Type 0
Extends old now =
    (new : List EpisodeRunReport) × (now ≡ old ++ new)
    × All (λ r. has_id r.pipeline_commit_id old ≡ false) new

admit-reports :
    (r : EpisodeRunReport) (q q' : Queues)
    → admit r q ≡ Result.ok q'
    → (q'.reports ≡ q.reports)
      ⊎ ((q'.reports ≡ q.reports ++ r ∷ []) × (has_id r.pipeline_commit_id q.reports ≡ false))
unfolding admit
admit-reports r q q' h = grind arith

Extends-snoc :
    (old now : List EpisodeRunReport) (r : EpisodeRunReport)
    → Extends old now
    → has_id r.pipeline_commit_id now ≡ false
    → Extends old (now ++ r ∷ [])
Extends-snoc old now r (new, is, unknown) h = (
  new ++ r ∷ [],
  ap (λ ls. ls ++ r ∷ []) is ∙ append_assoc old new (r ∷ []),
  All-append (λ x. has_id x.pipeline_commit_id old ≡ false) new (r ∷ []) unknown (first, tt),
)
  where
    first : has_id r.pipeline_commit_id old ≡ false
    first =
        has_id-append r.pipeline_commit_id old new
          (subst (λ ls. has_id r.pipeline_commit_id ls ≡ false) is h)

Result-cases :
    {E A : Type 0} (a : Result E A) → ((x : A) × (a ≡ Result.ok x)) ⊎ ((e : E) × (a ≡ Result.err e))
Result-cases (Result.ok x) = inl (x, refl)
Result-cases (Result.err e) = inr (e, refl)

admit-Extends :
    (old : List EpisodeRunReport) (r : EpisodeRunReport) (q q' : Queues)
    → Extends old q.reports
    → admit r q ≡ Result.ok q'
    → Extends old q'.reports
admit-Extends old r q q' x is = elim (admit-reports r q q' is) [
  | inl same ↦ subst (Extends old) (sym same) x
  | inr (more, new) ↦ subst (Extends old) (sym more) (Extends-snoc old q.reports r x new)
]

admit_all-Extends :
    (old : List EpisodeRunReport) (rs : List EpisodeRunReport) (q : Queues)
    → Extends old q.reports
    → Extends old (admit_all rs q).1.reports
unfolding admit_all
admit_all-Extends old [] q x = x
admit_all-Extends old (r ∷ rs) q x = elim (Result-cases (admit r q)) [
  | inl (q', is) ↦ rw (is, admit_all) (admit_all-Extends old rs q' (admit-Extends old r q q' x is))
  | inr (e, is) ↦ rw (is, admit_all) x
]

module _ (sha256 : Bytes → Bytes) where
  -- If a reservation captured the ids of a queue whose reports all have one, and more reports were
  -- enqueued since, the acknowledgement drops exactly the reports that were in the queue at the
  -- reservation: those enqueued since stay, in their order.
  pub settled-late :
      (s : LaneState) (r : Reservation) (late : List EpisodeRunReport)
      → All HasId s.queues.reports
      → r.captured ≡ ids s.queues.reports
      → (new : List EpisodeRunReport) × ((admit_all late s.queues).1.reports
          ≡ s.queues.reports ++ new)
        × ((settled sha256 r (with_queues (admit_all late s.queues).1 s)).queues.reports ≡ new)
  unfolding settled
  settled-late s r late have_ids captured =
      let old = s.queues.reports in
      let (new, is, unknown) = admit_all-Extends old late s.queues ([], sym (append-nil old), tt) in
      (
        new,
        is,
        ap₂ not_captured captured is
            ∙ not_captured-append (ids old) old new (ids-IsCaptured old have_ids)
            ∙ not_captured-IsLate (ids old) new (
                All-mono (λ x. has_id x.pipeline_commit_id old ≡ false) (IsLate (ids old)) new
                  (λ x. ids-IsLate x old) unknown),
      )
