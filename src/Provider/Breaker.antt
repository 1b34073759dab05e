-- ===== src/Provider/Breaker.antt =====
-- The circuit breaker of one endpoint, over the history of what was reported of it.
use asrsub.Prelude.{
  ℕ, suc, ◌+◌, ◌%◌, ◌^◌, ◌≤◌, ◌<◌, ◌≡◌, ◌≢◌, refl, ◌⊎◌, Bool, true, false, ◌||◌, List, [], ◌∷◌, leb,
  ltb, arith, Bool-cases, inl, inr, or_false_left, or_false_right,
}
use asrsub.Provider.{
  EndpointHealth, fresh, banned, record_success, record_failure, Event, success, failure, on_event,
}

-- The state after a history, whose latest event stands first.
abbrev pub after : List Event → EndpointHealth
after [] = fresh
after (e ∷ past) = on_event e (after past)

-- The number of latest events that are failures.
abbrev pub streak : List Event → ℕ
streak [] = 0
streak (success ∷ past) = 0
streak (failure t ∷ past) = suc (streak past)

-- Whether three events in a row were failures.
abbrev pub had_three : List Event → Bool
had_three [] = false
had_three (e ∷ past) = leb 3 (streak (e ∷ past)) || had_three past

few_latest : (n : ℕ) → leb 3 (suc n) ≡ false → n < 2
few_latest n h = ground arith

not_before_zero : (now until : ℕ) → until ≡ 0 → ltb now until ≢ true
not_before_zero now until e h = ground arith

failure-trip :
    (t : ℕ) (h : EndpointHealth)
    → h.failures ≡ 2
    → record_failure t h ≡ record { failures = 0; banned_until = (t + 60_000) % 2 ^ 64 }
unfolding record_failure
failure-trip t h e = rw (e) refl

failure-count :
    (t : ℕ) (h : EndpointHealth)
    → h.failures < 2
    → record_failure t h ≡ record { failures = h.failures + 1; banned_until = h.banned_until }
unfolding record_failure
failure-count t h few = ground arith

three-cases : (n : ℕ) → n < 3 → (n < 2) ⊎ (n ≡ 2)
three-cases n h = omega arith

-- At every moment the counter is below three, so its sum never wraps, and it is no more than the
-- number of latest events that are failures.
pub failures-bounds :
    (past : List Event) → ((after past).failures < 3) × ((after past).failures ≤ streak past)
unfolding on_event record_success
failures-bounds [] = (omega arith, omega arith)
failures-bounds (success ∷ past) = (omega arith, omega arith)
failures-bounds (failure t ∷ past) = elim (three-cases _ (failures-bounds past).0) [
  | inl few ↦
      rw (failure-count t (after past) few) (omega arith, omega (arith, (failures-bounds past).1))
  | inr two ↦ rw (failure-trip t (after past) two) (omega arith, omega arith)
]

unbanned : (past : List Event) → had_three past ≡ false → (after past).banned_until ≡ 0
unfolding on_event record_success
unbanned [] none_yet = refl
unbanned (success ∷ past) none_yet = unbanned past none_yet
unbanned (failure t ∷ past) none_yet = elim (three-cases _ (failures-bounds past).0) [
  | inl few ↦
      rw (failure-count t (after past) few)
        (unbanned past (or_false_right _ (had_three past) none_yet))
  | inr two ↦ absurd (
      omega (
        arith,
        two,
        (failures-bounds past).1,
        few_latest (streak past) (or_false_left _ (had_three past) none_yet),
      ))
]

-- An endpoint is banned only if it failed three times in a row at some time.
pub banned-had_three :
    (past : List Event) (now : ℕ) → banned (after past) now ≡ true → had_three past ≡ true
unfolding banned
banned-had_three past now h = elim (Bool-cases (had_three past)) [
  | inl had ↦ had
  | inr never ↦ absurd (not_before_zero now _ (unbanned past never) h)
]

trips :
    (h : EndpointHealth) (t1 t2 t3 : ℕ)
    → h.failures < 3
    → t1 ≤ t2
    → t2 ≤ t3
    → t3 < t1 + 60_000
    → t3 + 60_000 < 2 ^ 64
    → banned (record_failure t3 (record_failure t2 (record_failure t1 h))) t3 ≡ true
unfolding banned record_failure
trips h t1 t2 t3 few h12 h23 near fits = ground arith

-- Three failures in a row, within a minute, leave the endpoint banned when the last is reported,
-- whatever was reported before them, as long as the clock is a minute below its limit.
pub three_failures-banned :
    (past : List Event) (t1 t2 t3 : ℕ)
    → t1 ≤ t2
    → t2 ≤ t3
    → t3 < t1 + 60_000
    → t3 + 60_000 < 2 ^ 64
    → banned (after (failure t3 ∷ failure t2 ∷ failure t1 ∷ past)) t3 ≡ true
unfolding on_event
three_failures-banned past t1 t2 t3 h12 h23 near fits =
    trips (after past) t1 t2 t3 (failures-bounds past).0 h12 h23 near fits
