-- ===== src/Lang/Strip.antt =====
-- The loop of `strip_trailing_qualifier`, and the gates on codes.
use asrsub.Prelude.{
  ℕ, zero, suc, ◌≤◌, ◌<◌, ◌≡◌, refl, sym, ap, ◌∙◌, true, none, some, [], ◌∷◌, Option-cases, inl,
  inr, length, arith,
}
use asrsub.Text.{Text, trim, trim_end, trim_start}
use asrsub.Lang.Wire.{wire_accepted_langs}
use asrsub.Lang.{
  strip_last, before_last, open_group, strip_groups, strip_trailing_qualifier, wire_accepts,
  identity_accepts,
}
use asrsub.Lang.Gates.{wire-identity}
use asrsub.Lang.Normal.{has_code-all}

-- The wire gate lets through only what the identity gate lets through.
pub wire_accepts-identity_accepts :
    (code : Text) → wire_accepts code ≡ true → identity_accepts (trim code) ≡ true
unfolding wire_accepts
wire_accepts-identity_accepts code h =
    has_code-all identity_accepts wire_accepted_langs (trim code) wire-identity h

strip_last-length : (c : ℕ) (s p : Text) → strip_last c s ≡ some p → length p < length s
unfolding strip_last
strip_last-length c [] p e = absurd cc
strip_last-length c (x ∷ []) p e = ground arith
strip_last-length c (x ∷ y ∷ s) p e = elim (Option-cases (strip_last c (y ∷ s))) [
  | inl h ↦ absurd (nothing h)
  | inr (q, h) ↦ let shorter = strip_last-length c (y ∷ s) q h in ground arith
]
  where
    nothing : strip_last c (y ∷ s) ≡ none → ⊥
    nothing h = ground arith

before_last-length : (c : ℕ) (s p : Text) → before_last c s ≡ some p → length p < length s
unfolding before_last
before_last-length c [] p e = absurd cc
before_last-length c (x ∷ s) p e = elim (Option-cases (before_last c s)) [
  | inl h ↦ ground arith
  | inr (q, h) ↦ let shorter = before_last-length c s q h in ground arith
]

open_group-length : (s t : Text) → open_group s ≡ some t → length t < length s
unfolding open_group
open_group-length s t e = elim (Option-cases (strip_last b')' s)) [
  | inr (inner, h) ↦
      let a = strip_last-length b')' s inner h in
      let b = before_last-length b'(' inner t (sym (rw (h, open_group) refl) ∙ e) in ground arith
  | inl h ↦ elim (Option-cases (strip_last b']' s)) [
    | inr (inner, k) ↦
        let a = strip_last-length b']' s inner k in
        let b = before_last-length b'[' inner t (sym (rw (h, k, open_group) refl) ∙ e) in
        ground arith
    | inl k ↦ absurd (nothing h k)
  ]
]
  where
    nothing : strip_last b')' s ≡ none → strip_last b']' s ≡ none → ⊥
    nothing h k = ground arith

trim_end-length : (s : Text) → length (trim_end s) ≤ length s
unfolding trim_end
trim_end-length [] = ground arith
trim_end-length (c ∷ s) = let shorter = trim_end-length s in ground arith

trim_start-length : (s : Text) → length (trim_start s) ≤ length s
unfolding trim_start
trim_start-length [] = ground arith
trim_start-length (c ∷ s) = let shorter = trim_start-length s in ground arith

trim-length : (s : Text) → length (trim s) ≤ length s
unfolding trim
trim-length s =
    let a = trim_end-length (trim_start s) in let b = trim_start-length s in ground arith

strip_groups-stops :
    (fuel : ℕ) (s : Text) → open_group (trim_end s) ≡ none → strip_groups fuel s ≡ trim_end s
unfolding strip_groups
strip_groups-stops zero s h = refl
strip_groups-stops (suc fuel) s h = rw (h, strip_groups) refl

strip_groups-goes_on :
    (fuel : ℕ) (s t : Text)
    → open_group (trim_end s) ≡ some t
    → strip_groups (suc fuel) s ≡ strip_groups fuel t
unfolding strip_groups
strip_groups-goes_on fuel s t h = rw (h, strip_groups) refl

strip_groups-enough :
    (fuel : ℕ) (s : Text) → length s ≤ fuel → open_group (strip_groups fuel s) ≡ none
strip_groups-enough zero s enough = elim (Option-cases (open_group (trim_end s))) [
  | inl h ↦ ap open_group (strip_groups-stops zero s h) ∙ h
  | inr (t, h) ↦
      let lt = open_group-length (trim_end s) t h in
      let le = trim_end-length s in absurd (omega arith)
]
strip_groups-enough (suc n) s enough = elim (Option-cases (open_group (trim_end s))) [
  | inl h ↦ ap open_group (strip_groups-stops (suc n) s h) ∙ h
  | inr (t, h) ↦
      let lt = open_group-length (trim_end s) t h in
      let le = trim_end-length s in
      ap open_group (strip_groups-goes_on n s t h) ∙ strip_groups-enough n t (omega arith)
]

-- The loop that strips the qualifiers ends because no group closes the text any more: never because
-- its rounds, one for each char, are used up.
pub strip_trailing_qualifier-stops :
    (value : Text) → open_group (strip_trailing_qualifier value) ≡ none
unfolding strip_trailing_qualifier
strip_trailing_qualifier-stops value =
    strip_groups-enough (length value) (trim value) (trim-length value)
