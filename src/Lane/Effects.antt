-- ===== src/Lane/Effects.antt =====
-- What every operation does to the queues.
use asrsub.Prelude.{
  ℕ, ◌≡◌, ◌⊎◌, refl, sym, ap, subst, ◌∙◌, List, Option, none, some, ltb, arith, checked_add,
  Bool-cases, Option-cases, inl, inr,
}
use asrsub.Report.{Bytes, EpisodeRunReport, Result}
use asrsub.Lane.State.{
  NotificationStateError, ClockSample, Reservation, Queues, Lane, IoOutcome, Answer, map_answer,
  persist, commit,
}
use asrsub.Lane.Clock.{attempt_window_ns}
use asrsub.Lane.Operations
use asrsub.Lane.Queueing.{admit_all, not_captured, promote}
use asrsub.Lane.Queue.{IsQueues, not_captured-shorter}
use asrsub.Lane.Request.{report_of}

pub report-queues : {A : Type 0} (a : Answer A) → (report_of a).1.state.queues ≡ a.1.state.queues
report-queues (Result.ok a, l) = refl
report-queues (Result.err e, l) = refl

pub kept :
    {A : Type 0} (a : Answer A) (l : Lane)
    → a.1.state.queues ≡ l.state.queues
    → IsQueues l.state.queues
    → IsQueues (report_of a).1.state.queues
kept a l e h = subst IsQueues (sym (report-queues a ∙ e)) h

module _ (sha256 : Bytes → Bytes) where
  pub persist-state : (o : IoOutcome) (l : Lane) → (persist o l).1.state ≡ l.state
  unfolding persist
  persist-state IoOutcome.saved l = refl
  persist-state IoOutcome.lost l = refl
  persist-state IoOutcome.unsynced l = refl

  pub map_answer-lane : {A B : Type 0} (f : A → B) (a : Answer A) → (map_answer f a).1 ≡ a.1
  map_answer-lane f (Result.ok a, l) = refl
  map_answer-lane f (Result.err e, l) = refl

  pub commit-queues :
      (o : IoOutcome) (l : Lane) → (commit sha256 o l).1.state.queues ≡ l.state.queues
  unfolding commit
  commit-queues o l = elim (Option-cases (checked_add l.state.generation 1)) [
    | inl e ↦ rw (e, commit) refl
    | inr (g, e) ↦
        rw (e, commit)
          (ap (λ m. m.state.queues) (map_answer-lane _ (persist o _))
            ∙ ap (λ s. s.queues) (persist-state o _))
  ]

  pub lane-queues :
      {A B : Type 0} (f : A → B) (a : Answer A) → (map_answer f a).1.state.queues ≡ a.1.state.queues
  lane-queues f a = ap (λ m. m.state.queues) (map_answer-lane f a)

  pub reserve_at-queues :
      (o : IoOutcome) (now : ClockSample) (p : Bytes) (d : ℕ) (l : Lane)
      → (Operations.reserve_at sha256 o now p d l).1.state.queues ≡ l.state.queues
  unfolding Operations.reserve_at
  reserve_at-queues o now p d l = lane-queues _ (commit sha256 o _) ∙ commit-queues o _

  pub reserve-queues :
      (o : IoOutcome) (now : ClockSample) (g : ℕ) (p : Bytes) (l : Lane)
      → (Operations.reserve_rendered sha256 o now g p l).1.state.queues ≡ l.state.queues
  unfolding Operations.reserve_rendered
  reserve-queues o now g p l = grind (arith, reserve_at-queues)

  pub resume_at-queues :
      (o : IoOutcome) (now : ClockSample) (r : Reservation) (l : Lane)
      → (Operations.resume_at sha256 o now r l).1.state.queues ≡ l.state.queues
  unfolding Operations.resume_at
  resume_at-queues o now r l = elim (Option-cases (checked_add now.epoch_ns attempt_window_ns)) [
    | inl e ↦ rw (e, Operations.resume_at) refl
    | inr (d, e) ↦
        rw (e, Operations.resume_at) (lane-queues _ (commit sha256 o _) ∙ commit-queues o _)
  ]

  pub resume-queues :
      (o : IoOutcome) (now : ClockSample) (l : Lane)
      → (Operations.resume_reservation sha256 o now l).1.state.queues ≡ l.state.queues
  unfolding Operations.resume_reservation
  resume-queues o now l = grind (arith, resume_at-queues)

  pub schedule-queues :
      (o : IoOutcome) (now : ClockSample) (ra : Option ℕ) (l : Lane)
      → (Operations.schedule sha256 o now ra l).1.state.queues ≡ l.state.queues
  unfolding Operations.schedule
  schedule-queues o now ra l = grind (arith, commit-queues)

  pub failure-queues :
      (o : IoOutcome) (id : Bytes) (c : Operations.SafeDeliveryError) (now : ClockSample)
      (ra : Option ℕ) (l : Lane)
      → (Operations.record_attempt_failure sha256 o id c now ra l).1.state.queues ≡ l.state.queues
  unfolding Operations.record_attempt_failure
  failure-queues o id c now ra l = grind (arith, schedule-queues, commit-queues)

  pub reset-queues :
      (o : IoOutcome) (h : Bytes) (l : Lane)
      → (Operations.reset_delivery sha256 o h l).1.state.queues ≡ l.state.queues
  unfolding Operations.reset_delivery
  reset-queues o h l = grind (arith, commit-queues)

  pub fence-queues : (l : Lane) → (Operations.fence sha256 l).1.state.queues ≡ l.state.queues
  unfolding Operations.fence
  fence-queues l = grind arith

  pub admission-queues :
      (o : IoOutcome) (l : Lane) (a : Option NotificationStateError × Queues)
      → (Operations.after_admission sha256 o l a).1.state.queues ≡ a.1
  unfolding Operations.after_admission
  admission-queues o l (some e, q) = refl
  admission-queues o l (none, q) = commit-queues o _

  pub promotion-queues :
      (o : IoOutcome) (l : Lane) (a : Queues × ℕ)
      → (Operations.after_promotion sha256 o l a).1.state.queues ≡ a.0
  unfolding Operations.after_promotion
  promotion-queues o l (q, n) = elim (Bool-cases (ltb 0 n)) [
    | inl e ↦ rw (e) (lane-queues _ (commit sha256 o _) ∙ commit-queues o _)
    | inr e ↦ rw (e) refl
  ]

  pub enqueue-queues :
      (o : IoOutcome) (rs : List EpisodeRunReport) (now : ClockSample) (l : Lane)
      → ((Operations.enqueue sha256 o rs now l).1.state.queues ≡ l.state.queues)
        ⊎ ((Operations.enqueue sha256 o rs now l).1.state.queues ≡ (admit_all rs l.state.queues).1)
  unfolding Operations.enqueue
  enqueue-queues o rs now l = grind (arith, admission-queues)

  abbrev rest_of : Reservation → Lane → Queues
  rest_of r l = record {
    reports = not_captured r.captured l.state.queues.reports;
    blocked = l.state.queues.blocked;
  }

  pub acked-queues :
      (o : IoOutcome) (id h : Bytes) (r : Reservation) (l : Lane)
      → l.state.reservation ≡ some r
      → ((Operations.acknowledge sha256 o id h l).1.state.queues ≡ l.state.queues)
        ⊎ ((Operations.acknowledge sha256 o id h l).1.state.queues ≡ rest_of r l)
  unfolding Operations.acknowledge Operations.settled
  acked-queues o id h r l e = grind (arith, commit-queues)

  pub ack-queues :
      (o : IoOutcome) (id h : Bytes) (l : Lane)
      → IsQueues l.state.queues
      → IsQueues (Operations.acknowledge sha256 o id h l).1.state.queues
  unfolding Operations.acknowledge
  ack-queues o id h l good = elim (Option-cases l.state.reservation) [
    | inl e ↦ subst IsQueues (sym (unacked e)) good
    | inr (r, e) ↦ elim (acked-queues o id h r l e) [
      | inl same ↦ subst IsQueues (sym same) good
      | inr less ↦ subst IsQueues (sym less) (shorter r)
    ]
  ]
    where
      unacked :
          l.state.reservation ≡ none
          → (Operations.acknowledge sha256 o id h l).1.state.queues ≡ l.state.queues
      unacked e = grind arith

      shorter : (r : Reservation) → IsQueues (rest_of r l)
      shorter r =
          let less = not_captured-shorter r.captured l.state.queues.reports good.distinct in
          record {
            bounded = omega (arith, less.1, good.bounded);
            held = good.held;
            distinct = less.0;
          }

  pub retry-queues :
      (o : IoOutcome) (now : ClockSample) (l : Lane)
      → ((Operations.retry_blocked sha256 o now l).1.state.queues ≡ l.state.queues)
        ⊎ ((Operations.retry_blocked sha256 o now l).1.state.queues
            ≡ (promote l.state.queues.reports l.state.queues.blocked 0).0)
  unfolding Operations.retry_blocked
  retry-queues o now l = grind (arith, promotion-queues)
