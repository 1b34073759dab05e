-- ===== src/Lane/Queue.antt =====
-- The invariant of the queues.
use asrsub.Prelude.{
  ℕ, ◌+◌, ◌≤◌, ◌<◌, ◌≡◌, refl, ap, ◌∙◌, true, false, ◌&&◌, List, [], ◌∷◌, ◌++◌, Option, none, some,
  ltb, leb, length, length-append, any, is_some, arith, Bool-cases, Option-cases, inl, inr,
  or_false, or_false_left, or_false_right, ap₂, ◌==◌, ltb→lt,
}
use asrsub.Text.{Text, text_eq}
use asrsub.Report.{EpisodeRunReport, Result}
use asrsub.Lane.State.{NotificationStateError, Queues}
use asrsub.Lane.Queueing.{opt_eq, has_id, admit, admit_all, not_captured, promote}

-- Whether no report stands twice, by id.
abbrev pub Distinct : List EpisodeRunReport → Type 0
Distinct [] = Unit
Distinct (r ∷ rs) = (has_id r.pipeline_commit_id rs ≡ false) × Distinct rs

-- The queue has at most 128 reports, no two of one id, and at most 16 are held back.
pub record IsQueues (q : Queues) : Type 0 where
  pub bounded : length q.reports ≤ 128
  pub held : length q.blocked ≤ 16
  pub distinct : Distinct q.reports

==_sym : (a b : ℕ) → (a == b) ≡ (b == a)
==_sym a b = ground arith

lt_of_leb : (n : ℕ) → leb 16 n ≡ false → n < 16
lt_of_leb n h = ground arith

pub text_eq-sym : (a b : Text) → text_eq a b ≡ text_eq b a
text_eq-sym [] [] = refl
text_eq-sym [] (d ∷ b) = refl
text_eq-sym (c ∷ a) [] = refl
text_eq-sym (c ∷ a) (d ∷ b) = ap₂ (◌&&◌) (==_sym c d) (text_eq-sym a b)

pub opt_eq-sym : (a b : Option Text) → opt_eq a b ≡ opt_eq b a
opt_eq-sym none none = refl
opt_eq-sym none (some b) = refl
opt_eq-sym (some a) none = refl
opt_eq-sym (some a) (some b) = text_eq-sym a b

has_id-snoc :
    (id : Option Text) (rs : List EpisodeRunReport) (r : EpisodeRunReport)
    → has_id id rs ≡ false
    → opt_eq r.pipeline_commit_id id ≡ false
    → has_id id (rs ++ r ∷ []) ≡ false
has_id-snoc id [] r h k = or_false _ _ k refl
has_id-snoc id (a ∷ rs) r h k =
    or_false _ _ (or_false_left _ (has_id id rs) h)
      (has_id-snoc id rs r (or_false_right (opt_eq a.pipeline_commit_id id) _ h) k)

Distinct-snoc :
    (rs : List EpisodeRunReport) (r : EpisodeRunReport)
    → Distinct rs
    → has_id r.pipeline_commit_id rs ≡ false
    → Distinct (rs ++ r ∷ [])
Distinct-snoc [] r d new = (refl, tt)
Distinct-snoc (a ∷ rs) r d new = (
  has_id-snoc a.pipeline_commit_id rs r d.0 (
      opt_eq-sym r.pipeline_commit_id a.pipeline_commit_id
      ∙ or_false_left _ (has_id r.pipeline_commit_id rs) new),
  Distinct-snoc rs r d.1 (or_false_right (opt_eq a.pipeline_commit_id r.pipeline_commit_id) _ new),
)

pub not_captured-drop :
    (captured : List Text) (r : EpisodeRunReport) (rs : List EpisodeRunReport)
    → any (λ id. opt_eq r.pipeline_commit_id (some id)) captured ≡ true
    → not_captured captured (r ∷ rs) ≡ not_captured captured rs
not_captured-drop captured r rs e = rw (e, not_captured) refl

pub not_captured-keep :
    (captured : List Text) (r : EpisodeRunReport) (rs : List EpisodeRunReport)
    → any (λ id. opt_eq r.pipeline_commit_id (some id)) captured ≡ false
    → not_captured captured (r ∷ rs) ≡ r ∷ not_captured captured rs
not_captured-keep captured r rs e = rw (e, not_captured) refl

has_id-not_captured :
    (id : Option Text) (captured : List Text) (rs : List EpisodeRunReport)
    → has_id id rs ≡ false
    → has_id id (not_captured captured rs) ≡ false
has_id-not_captured id captured [] h = refl
has_id-not_captured id captured (r ∷ rs) h =
    elim (Bool-cases (any (λ i. opt_eq r.pipeline_commit_id (some i)) captured)) [
      | inl e ↦
          rw (not_captured-drop captured r rs e) (
            has_id-not_captured id captured rs
              (or_false_right (opt_eq r.pipeline_commit_id id) _ h))
      | inr e ↦ rw (not_captured-keep captured r rs e) (
          or_false _ _ (or_false_left _ (has_id id rs) h) (
            has_id-not_captured id captured rs
              (or_false_right (opt_eq r.pipeline_commit_id id) _ h)))
    ]

-- What stays after an acknowledgement is no longer, and still distinct.
pub not_captured-shorter :
    (captured : List Text) (rs : List EpisodeRunReport)
    → Distinct rs
    → Distinct (not_captured captured rs) × (length (not_captured captured rs) ≤ length rs)
not_captured-shorter captured [] d = (tt, omega arith)
not_captured-shorter captured (r ∷ rs) d =
    elim (Bool-cases (any (λ i. opt_eq r.pipeline_commit_id (some i)) captured)) [
      | inl e ↦ rw (not_captured-drop captured r rs e) (
        (not_captured-shorter captured rs d.1).0,
        omega (arith, (not_captured-shorter captured rs d.1).1),
      )
      | inr e ↦ rw (not_captured-keep captured r rs e) (
        (
          has_id-not_captured r.pipeline_commit_id captured rs d.0,
          (not_captured-shorter captured rs d.1).0,
        ),
        omega (arith, (not_captured-shorter captured rs d.1).1),
      )
    ]

Good : Result NotificationStateError Queues → Type 0
Good (Result.ok q) = IsQueues q
Good (Result.err e) = Unit

Good-ok : (q : Queues) → IsQueues q → Good (Result.ok q)
unfolding Good
Good-ok q h = h

Good-err : (e : NotificationStateError) → Good (Result.err e)
unfolding Good
Good-err e = tt

admit-Good : (r : EpisodeRunReport) (q : Queues) → IsQueues q → Good (admit r q)
unfolding admit
admit-Good r q h = elim (Option-cases r.pipeline_commit_id) [
  | inl e ↦ rw (e) (Good-err NotificationStateError.invalid_input)
  | inr (id, e) ↦ elim (Bool-cases (has_id r.pipeline_commit_id q.reports)) [
    | inl known ↦ rw (known, ap is_some e) (Good-ok q h)
    | inr new ↦ elim (Bool-cases (ltb (length q.reports) 128)) [
      | inl room ↦ rw (new, ap is_some e, room) (Good-ok _ (queued new room))
      | inr full ↦ elim (Bool-cases (leb 16 (length q.blocked))) [
        | inl e' ↦ rw (new, ap is_some e, full, e') (Good-err NotificationStateError.capacity)
        | inr space ↦ rw (new, ap is_some e, full, space) (Good-ok _ (kept space))
      ]
    ]
  ]
]
  where
    queued :
        has_id r.pipeline_commit_id q.reports ≡ false
        → ltb (length q.reports) 128 ≡ true
        → IsQueues (record { reports = q.reports ++ r ∷ []; blocked = q.blocked })
    queued new room = record {
      bounded =
          omega (
            arith,
            length-append q.reports (r ∷ []),
            ltb→lt (length q.reports) 128 room,
            h.bounded,
          );
      held = h.held;
      distinct = Distinct-snoc q.reports r h.distinct new;
    }

    kept :
        leb 16 (length q.blocked) ≡ false
        → IsQueues (record { reports = q.reports; blocked = q.blocked ++ r ∷ [] })
    kept space = record {
      bounded = h.bounded;
      held = omega (arith, length-append q.blocked (r ∷ []), lt_of_leb (length q.blocked) space);
      distinct = h.distinct;
    }

admit_all-step :
    (r : EpisodeRunReport) (rs : List EpisodeRunReport) (q : Queues)
    (a : Result NotificationStateError Queues)
    → admit r q ≡ a
    → IsQueues q
    → Good a
    → ((q' : Queues) → IsQueues q' → IsQueues (admit_all rs q').1)
    → IsQueues (admit_all (r ∷ rs) q).1
unfolding Good admit_all
admit_all-step r rs q (Result.err e) is h g rest = rw (is, admit_all) h
admit_all-step r rs q (Result.ok q') is h g rest = rw (is, admit_all) (rest q' g)

pub admit_all-IsQueues :
    (rs : List EpisodeRunReport) (q : Queues) → IsQueues q → IsQueues (admit_all rs q).1
unfolding admit_all
admit_all-IsQueues [] q h = h
admit_all-IsQueues (r ∷ rs) q h =
    admit_all-step r rs q (admit r q) refl h (admit-Good r q h) (λ q'. admit_all-IsQueues rs q')

pub promote-IsQueues :
    (reports blocked : List EpisodeRunReport) (n : ℕ)
    → IsQueues (record { reports = reports; blocked = blocked })
    → IsQueues (promote reports blocked n).0
unfolding promote
promote-IsQueues reports [] n h = record {
  bounded = h.bounded;
  held = omega arith;
  distinct = h.distinct;
}
promote-IsQueues reports (b ∷ blocked) n h = elim (Bool-cases (ltb (length reports) 128)) [
  | inr full ↦ rw (full, promote) h
  | inl room ↦ elim (Bool-cases (has_id b.pipeline_commit_id reports)) [
    | inl known ↦ rw (room, known, promote) (promote-IsQueues reports blocked n (skipped known))
    | inr new ↦
        rw (room, new, promote)
          (promote-IsQueues (reports ++ b ∷ []) blocked (n + 1) (moved room new))
  ]
]
  where
    skipped :
        has_id b.pipeline_commit_id reports ≡ true
        → IsQueues (record { reports = reports; blocked = blocked })
    skipped known = record {
      bounded = h.bounded;
      held = omega (arith, h.held);
      distinct = h.distinct;
    }

    moved :
        ltb (length reports) 128 ≡ true
        → has_id b.pipeline_commit_id reports ≡ false
        → IsQueues (record { reports = reports ++ b ∷ []; blocked = blocked })
    moved room new = record {
      bounded = omega (arith, length-append reports (b ∷ []), ltb→lt (length reports) 128 room);
      held = omega (arith, h.held);
      distinct = Distinct-snoc reports b h.distinct new;
    }
