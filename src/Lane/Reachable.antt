-- ===== src/Lane/Reachable.antt =====
-- The invariant of a sequence of calls.
use asrsub.Prelude.{
  ℕ, ◌≤◌, Bool, ◌==◌, ◌||◌, not, length, if_cases, All, ◌≡◌, refl, sym, ap, subst, ◌∙◌, List, [],
  ◌∷◌, checked_add, Option-cases, inl, inr,
}
use asrsub.Text.{Text, text_eq}
use asrsub.Json.{Json}
use asrsub.Lane.Loading
use asrsub.Lane.Decode.{Read}
use asrsub.Report.{Bytes, Result}
use asrsub.Lane.State.{Lane, IoOutcome, Answer, persist, state_hash, StateCommit}
use asrsub.Lane.Operations
use asrsub.Lane.Queue.{IsQueues, Distinct, admit_all-IsQueues, promote-IsQueues}
use asrsub.Lane.Request.{Request, perform, run}
use asrsub.Lane.Effects.{
  report-queues, kept, persist-state, lane-queues, reserve-queues, resume-queues, failure-queues,
  reset-queues, fence-queues, enqueue-queues, ack-queues, retry-queues,
}

module _ (J : Json) (sha256 : Bytes → Bytes) (is_title : Text → Bool) where
  -- A restore is given a snapshot whose queue, if it can be read, has at most 128 reports, no two of one
  -- id: the source does not check that.
  abbrev pub IsAdmissible : Request → Type 0
  IsAdmissible (Request.restore o bytes h g) =
      (p : Loading.Parsed)
      → Loading.parse_state_bytes J sha256 is_title bytes ≡ Result.ok p
      → (length p.reports ≤ 128) × Distinct p.reports
  IsAdmissible _ = Unit

  restore_parsed-IsQueues :
      (o : IoOutcome) (read : Read Loading.Parsed) (l : Lane)
      → ((p : Loading.Parsed) → read ≡ Result.ok p → (length p.reports ≤ 128) × Distinct p.reports)
      → IsQueues l.state.queues
      → IsQueues (Loading.restore_parsed J sha256 is_title o read l).1.state.queues
  restore_parsed-IsQueues o (Result.err e) l fit h = h
  restore_parsed-IsQueues o (Result.ok p) l fit h =
      elim (Option-cases (checked_add l.state.generation 1)) [
        | inl e ↦ rw (e) good
        | inr (g, e) ↦ rw (e) (
            subst IsQueues
              (sym (
                lane-queues sha256 _ (persist o _) ∙ ap (λ s. s.queues) (persist-state sha256 o _)))
              good)
      ]
    where
      good : IsQueues (record { reports = p.reports; blocked = l.state.queues.blocked })
      good = record { bounded = (fit p refl).0; held = h.held; distinct = (fit p refl).1 }

  restore-IsQueues :
      (o : IoOutcome) (bytes hash : Bytes) (g : ℕ) (l : Lane)
      → IsAdmissible (Request.restore o bytes hash g)
      → IsQueues l.state.queues
      → IsQueues (Loading.restore J sha256 is_title o bytes hash g l).1.state.queues
  unfolding Loading.restore
  restore-IsQueues o bytes hash g l fit h =
      if_cases (λ (a : Answer StateCommit). IsQueues a.1.state.queues)
        (not (text_eq (state_hash sha256 l.state) hash) || not (l.state.generation == g)) _ _
        (λ stale. h)
        (λ current.
          restore_parsed-IsQueues o (Loading.parse_state_bytes J sha256 is_title bytes) l fit h)

  -- One call keeps the invariant of the queues.
  perform-IsQueues :
      (q : Request) (l : Lane)
      → IsAdmissible q
      → IsQueues l.state.queues
      → IsQueues (perform J sha256 is_title q l).1.state.queues
  perform-IsQueues (Request.enqueue o rs now) l fit h =
      subst IsQueues (sym (report-queues (Operations.enqueue sha256 o rs now l)))
        (elim (enqueue-queues sha256 o rs now l) [
          | inl e ↦ subst IsQueues (sym e) h
          | inr e ↦ subst IsQueues (sym e) (admit_all-IsQueues rs l.state.queues h)
        ])
  perform-IsQueues (Request.reserve_rendered o now g p) l fit h =
      kept (Operations.reserve_rendered sha256 o now g p l) l (reserve-queues sha256 o now g p l) h
  perform-IsQueues (Request.resume_reservation o now) l fit h =
      kept (Operations.resume_reservation sha256 o now l) l (resume-queues sha256 o now l) h
  perform-IsQueues (Request.acknowledge o id hash) l fit h =
      subst IsQueues (sym (report-queues (Operations.acknowledge sha256 o id hash l)))
        (ack-queues sha256 o id hash l h)
  perform-IsQueues (Request.record_attempt_failure o id c now ra) l fit h =
      kept (Operations.record_attempt_failure sha256 o id c now ra l) l
        (failure-queues sha256 o id c now ra l) h
  perform-IsQueues (Request.retry_blocked o now) l fit h =
      subst IsQueues (sym (report-queues (Operations.retry_blocked sha256 o now l)))
        (elim (retry-queues sha256 o now l) [
          | inl e ↦ subst IsQueues (sym e) h
          | inr e ↦
              subst IsQueues (sym e)
                (promote-IsQueues l.state.queues.reports l.state.queues.blocked 0 h)
        ])
  perform-IsQueues (Request.reset_delivery o hash) l fit h =
      kept (Operations.reset_delivery sha256 o hash l) l (reset-queues sha256 o hash l) h
  perform-IsQueues Request.fence l fit h =
      kept (Operations.fence sha256 l) l (fence-queues sha256 l) h
  perform-IsQueues (Request.restore o bytes hash g) l fit h =
      subst IsQueues (sym (report-queues (Loading.restore J sha256 is_title o bytes hash g l)))
        (restore-IsQueues o bytes hash g l fit h)

  -- The queues keep their invariant through any sequence of the calls that may change the lane, whatever
  -- the file system did: at most 128 reports, no two of one id, and at most 16 held back. A restore
  -- among the calls has to be given a snapshot whose queue, if it can be read, has at most 128 reports, no
  -- two of one id.
  pub run-IsQueues :
      (qs : List Request) (l : Lane)
      → All IsAdmissible qs
      → IsQueues l.state.queues
      → IsQueues (run J sha256 is_title qs l).state.queues
  run-IsQueues [] l fit h = h
  run-IsQueues (q ∷ qs) l fit h =
      run-IsQueues qs (perform J sha256 is_title q l).1 fit.1 (perform-IsQueues q l fit.0 h)
