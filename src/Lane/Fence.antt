-- ===== src/Lane/Fence.antt =====
-- A fenced lane.
use asrsub.Prelude.{
  ◌≡◌, refl, Bool, all, checked_add, List, [], ◌∷◌, some, true, false, Option-cases, inl, inr,
  and_left, and_right,
}
use asrsub.Report.{Bytes}
use asrsub.Lane.State.{NotificationStateError, Lane, ensure_open}
use asrsub.Lane.Operations.{
  enqueue, reserve_rendered, resume_reservation, acknowledge, record_attempt_failure, retry_blocked,
  fence,
}
use asrsub.Text.{Text}
use asrsub.Json.{Json}
use asrsub.Lane.Request.{Request, perform, run}

-- Whether the operation looks at the fence.
abbrev pub is_guarded : Request → Bool
is_guarded (Request.reset_delivery o hash) = false
is_guarded Request.fence = false
is_guarded (Request.restore o bytes hash generation) = false
is_guarded _ = true

module _ (J : Json) (sha256 : Bytes → Bytes) (is_title : Text → Bool) where
  perform-fenced :
      (q : Request) (l : Lane)
      → l.state.is_fenced ≡ true
      → is_guarded q ≡ true
      → perform J sha256 is_title q l ≡ (some NotificationStateError.fenced, l)
  unfolding enqueue ensure_open reserve_rendered resume_reservation acknowledge
      record_attempt_failure retry_blocked
  perform-fenced (Request.enqueue o rs now) l h g = rw (h) refl
  perform-fenced (Request.reserve_rendered o now v p) l h g = rw (h) refl
  perform-fenced (Request.resume_reservation o now) l h g = rw (h) refl
  perform-fenced (Request.acknowledge o id hash) l h g = rw (h) refl
  perform-fenced (Request.record_attempt_failure o id c now ra) l h g = rw (h) refl
  perform-fenced (Request.retry_blocked o now) l h g = rw (h) refl
  perform-fenced (Request.reset_delivery o hash) l h g = absurd cc
  perform-fenced Request.fence l h g = absurd cc
  perform-fenced (Request.restore o bytes hash generation) l h g = absurd cc

  run-shut :
      (qs : List Request) (l : Lane)
      → l.state.is_fenced ≡ true
      → all is_guarded qs ≡ true
      → run J sha256 is_title qs l ≡ l
  run-shut [] l h g = refl
  run-shut (q ∷ qs) l h g =
      rw (perform-fenced q l h (and_left (is_guarded q) (all is_guarded qs) g))
        (run-shut qs l h (and_right (is_guarded q) (all is_guarded qs) g))

  fence-is_fenced : (l : Lane) → (fence sha256 l).1.state.is_fenced ≡ true
  unfolding fence
  fence-is_fenced l = elim (Option-cases (checked_add l.state.operation_id 1)) [
    | inl e ↦ rw (e, fence) refl
    | inr (op, e) ↦ rw (e, fence) refl
  ]

  -- Every operation that looks at the fence refuses a fenced lane and leaves it, its file included,
  -- as it is; so does any sequence of such operations that follows a fence.
  pub run-fenced :
      (qs : List Request) (l : Lane)
      → all is_guarded qs ≡ true
      → run J sha256 is_title qs (fence sha256 l).1 ≡ (fence sha256 l).1
  run-fenced qs l g = run-shut qs (fence sha256 l).1 (fence-is_fenced l) g
