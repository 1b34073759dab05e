-- ===== src/Srt/Merge/Runs.antt =====
-- What `cps_merge` makes of its input: runs of neighbours.
use asrsub.Prelude.{
  ℕ, ◌+◌, ◌/◌, ◌≤◌, ◌≡◌, refl, sym, ◌∙◌, true, false, List, [], ◌∷◌, ◌++◌, arith, leb, length, F64,
  All, All-mono, subst, ap, Bool-cases, inl, inr, append_assoc, ◌⊎◌, length-append, leb→le,
}
use mathlib.Core.List.{Mem, mem-append_right, mem-cons_self}
use asrsub.Text.{Text, nl}
use asrsub.Srt.{Cue}
use asrsub.Srt.Merge.{line_count, Limits, in_limit, absorb, fits, merge_from, cps_merge}
use asrsub.Srt.Merge.Pairs.{
  TooFast, Fits, IsJoin, in_limit-TooFast, in_limit-slow, absorb-IsJoin, fits-Fits, Fits-fits,
}

module _ (F : F64) (limits : Limits F) where
  open F use {Num, of_ℕ, of_diff, mul, div, lt, le}
  open limits use {max_cps, max_chars, max_dur_ms, max_gap_ms}

  -- A cue made of a run of neighbours: each joined to the head while the head was too fast and the two
  -- were within the limits.
  pub data Joined : List Cue → Cue → Type 0 where
    single : (c : Cue) → Joined (c ∷ []) c
    join :
        {run run' : List Cue} {cur cur' : Cue} (nxt : Cue)
        → Joined run cur
        → TooFast F limits cur
        → Fits F limits cur nxt
        → run' ≡ run ++ nxt ∷ []
        → IsJoin F limits cur nxt cur'
        → Joined run' cur'

  -- The cue is not to be joined with the one that follows, if one does.
  abbrev pub Stops : Cue → List Cue → Type 0
  Stops c [] = Unit
  Stops c (nxt ∷ rest) = TooFast F limits c → Fits F limits c nxt → ⊥

  -- The output cues are made of the input's runs, in order, each input cue in one of them, and each run
  -- as long as can be.
  pub data Grouped : List Cue → List Cue → Type 0 where
    none_left : Grouped [] []
    group :
        {run rest all out : List Cue} {c : Cue}
        → Joined run c
        → Stops c rest
        → Grouped rest out
        → all ≡ run ++ rest
        → Grouped all (c ∷ out)

  merge_from-flush :
      (cur nxt : Cue) (rest : List Cue)
      → in_limit F limits cur ≡ true
      → merge_from F limits cur (nxt ∷ rest) ≡ cur ∷ merge_from F limits nxt rest
  unfolding merge_from
  merge_from-flush cur nxt rest e = rw (e, merge_from)

  merge_from-absorb :
      (cur nxt : Cue) (rest : List Cue)
      → in_limit F limits cur ≡ false
      → fits F limits cur nxt ≡ true
      → merge_from F limits cur (nxt ∷ rest) ≡ merge_from F limits (absorb F limits cur nxt) rest
  unfolding merge_from
  merge_from-absorb cur nxt rest slow e = rw (slow, e, merge_from)

  merge_from-misfit :
      (cur nxt : Cue) (rest : List Cue)
      → in_limit F limits cur ≡ false
      → fits F limits cur nxt ≡ false
      → merge_from F limits cur (nxt ∷ rest) ≡ cur ∷ merge_from F limits nxt rest
  unfolding merge_from
  merge_from-misfit cur nxt rest slow e = rw (slow, e, merge_from)

  merge_from-Grouped :
      (run : List Cue) (cur : Cue) (rest : List Cue)
      → Joined run cur
      → Grouped (run ++ rest) (merge_from F limits cur rest)
  merge_from-Grouped run cur [] j = unfold merge_from in group j tt none_left refl
  merge_from-Grouped run cur (nxt ∷ rest) j =
      let flushed = merge_from-Grouped (nxt ∷ []) nxt rest (single nxt) in
      elim (Bool-cases (in_limit F limits cur)) [
        | inl e ↦
            rw (merge_from-flush cur nxt rest e)
              (group j (λ fast f. in_limit-slow F limits cur e fast) flushed refl)
        | inr slow ↦ elim (Bool-cases (fits F limits cur nxt)) [
          | inl e ↦
              rw (merge_from-absorb cur nxt rest slow e, ← append_assoc run (nxt ∷ []) rest)
                (merge_from-Grouped (run ++ nxt ∷ []) (absorb F limits cur nxt) rest (
                  join nxt j (in_limit-TooFast F limits cur slow) (fits-Fits F limits cur nxt e)
                    refl (absorb-IsJoin F limits cur nxt)))
          | inr e ↦ rw (merge_from-misfit cur nxt rest slow e) (
              group j (λ fast f. let yes_fits = Fits-fits F limits cur nxt f in absurd cc) flushed
                refl)
        ]
      ]

  -- The pass joins neighbours as long as it should, and nothing else: its output is the input cut into
  -- runs, in order, each run one cue. A cue is joined to the head exactly where the head is too fast and
  -- both together are within the limits on gap, lines, chars, reading speed and duration. What is joined
  -- lasts from the start of the first to the end of the last and has the text of both.
  pub cps_merge-Grouped : (cues : List Cue) → Grouped cues (cps_merge F limits cues)
  unfolding cps_merge
  cps_merge-Grouped [] = none_left
  cps_merge-Grouped (c ∷ cues) = merge_from-Grouped (c ∷ []) c cues (single c)

  line_count-append :
      (s : Text) (d : ℕ) (t : Text) → line_count (s ++ d ∷ t) ≤ line_count s + line_count t
  unfolding line_count
  line_count-append [] d t = ground arith
  line_count-append (c ∷ s) d t = ground (arith, line_count-append s d t)

  IsJoin-bounds :
      (cur nxt joined : Cue)
      → IsJoin F limits cur nxt joined
      → (line_count joined.text ≤ line_count cur.text + line_count nxt.text)
        × (length joined.text ≡ length cur.text + 1 + length nxt.text)
  IsJoin-bounds cur nxt joined (start, stop, short, long) =
      elim (Bool-cases (leb (length cur.text + 1 + length nxt.text) (max_chars / 2))) [
        | inl e ↦ bounds b' ' (short (leb→le _ _ e))
        | inr e ↦ bounds nl (long (ground arith))
      ]
    where
      bounds :
          (d : ℕ)
          → joined.text ≡ cur.text ++ d ∷ nxt.text
          → (line_count joined.text ≤ line_count cur.text + line_count nxt.text)
            × (length joined.text ≡ length cur.text + 1 + length nxt.text)
      bounds d e = (
        subst (λ t. line_count t ≤ line_count cur.text + line_count nxt.text) (sym e)
            (line_count-append cur.text d nxt.text),
        ap length e ∙ length-append cur.text (d ∷ nxt.text) ∙ omega arith,
      )

  -- Every output cue is an input cue, or one within the limits on chars and lines.
  abbrev pub OneOrBounded : List Cue → Cue → Type 0
  OneOrBounded run c = (run ≡ c ∷ []) ⊎ ((length c.text ≤ max_chars) × (line_count c.text ≤ 2))

  Joined-bounded : {run : List Cue} {c : Cue} → Joined run c → OneOrBounded run c
  Joined-bounded (single c) = inl refl
  Joined-bounded (join {cur = cur} {cur' = cur'} nxt j fast f e e') =
      let (lines, chars) = IsJoin-bounds cur nxt cur' e' in
      inr (omega (arith, chars, f.chars), omega (arith, lines, f.lines))

  abbrev pub KeptOrBounded : List Cue → Cue → Type 0
  KeptOrBounded cues c = Mem c cues ⊎ ((length c.text ≤ max_chars) × (line_count c.text ≤ 2))

  KeptOrBounded-later :
      (run rest : List Cue) (c : Cue) → KeptOrBounded rest c → KeptOrBounded (run ++ rest) c
  KeptOrBounded-later run rest c (inl m) = inl (mem-append_right run m)
  KeptOrBounded-later run rest c (inr b) = inr b

  KeptOrBounded-first :
      (run rest : List Cue) (c : Cue) → OneOrBounded run c → KeptOrBounded (run ++ rest) c
  KeptOrBounded-first run rest c (inl e) =
      inl (subst (λ r. Mem c (r ++ rest)) (sym e) mem-cons_self)
  KeptOrBounded-first run rest c (inr b) = inr b

  Grouped-KeptOrBounded : {cues out : List Cue} → Grouped cues out → All (KeptOrBounded cues) out
  Grouped-KeptOrBounded none_left = tt
  Grouped-KeptOrBounded (group {run = run} {rest = rest} {out = out} {c = c} j stops g e) = (
    subst (λ l. KeptOrBounded l c) (sym e) (KeptOrBounded-first run rest c (Joined-bounded j)),
    All-mono (KeptOrBounded rest) (KeptOrBounded _) out
        (λ d k. subst (λ l. KeptOrBounded l d) (sym e) (KeptOrBounded-later run rest d k))
        (Grouped-KeptOrBounded g),
  )

  -- A cue of the output is either a cue of the input, unchanged, or has at most `max_chars` chars
  -- and two lines.
  pub cps_merge-KeptOrBounded :
      (cues : List Cue) → All (KeptOrBounded cues) (cps_merge F limits cues)
  cps_merge-KeptOrBounded cues = Grouped-KeptOrBounded (cps_merge-Grouped cues)
