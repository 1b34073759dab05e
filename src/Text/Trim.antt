-- ===== src/Text/Trim.antt =====
-- Laws of `trim`.
use asrsub.Prelude.{ℕ, ◌≡◌, ◌≢◌, refl, sym, ap, ◌∙◌, false, [], ◌∷◌, ◌++◌, arith, All}
use asrsub.Text.{Text, is_whitespace, trim_start, trim_end, trim}
use asrsub.Text.Decimal.{IsDigit}

abbrev pub NonSpace : ℕ → Type 0
NonSpace c = is_whitespace c ≡ false

abbrev pub IsTrimmed : Text → Type 0
IsTrimmed s = (trim_start s ≡ s) × (trim_end s ≡ s)

pub IsDigit-NonSpace : (c : ℕ) → IsDigit c → NonSpace c
unfolding is_whitespace
IsDigit-NonSpace c h = ground arith

pub trim_end-append : (s t : Text) → trim_end t ≢ [] → trim_end (s ++ t) ≡ s ++ trim_end t
trim_end-append [] t h = refl
trim_end-append (c ∷ s) t h = go (trim_end (s ++ t)) (trim_end-append s t h)
  where
    nil : (s : Text) → s ++ trim_end t ≢ []
    nil [] e = h e
    nil (x ∷ s) e = cc

    go :
        (r : Text)
        → trim_end (s ++ t) ≡ s ++ trim_end t
        → trim_end (c ∷ (s ++ t)) ≡ c ∷ (s ++ trim_end t)
    go r e = unfold trim_end in ground (arith, e, nil s)

pub trim_end-nonspace : (s : Text) → All NonSpace s → trim_end s ≡ s
unfolding trim_end
trim_end-nonspace [] h = refl
trim_end-nonspace (c ∷ s) h = ground (arith, trim_end-nonspace s h.1)

pub trim_start-cons : (c : ℕ) (s : Text) → NonSpace c → trim_start (c ∷ s) ≡ c ∷ s
unfolding trim_start
trim_start-cons c s h = rw h

pub trim-IsTrimmed : (s : Text) → IsTrimmed s → trim s ≡ s
unfolding trim
trim-IsTrimmed s h = ap trim_end h.0 ∙ h.1

pub IsTrimmed-nonspace : (s : Text) → All NonSpace s → IsTrimmed s
IsTrimmed-nonspace [] h = (unfold trim_start in refl, unfold trim_end in refl)
IsTrimmed-nonspace (c ∷ s) h = (trim_start-cons c s h.0, trim_end-nonspace (c ∷ s) h)

-- A text that starts with no space and ends in a trimmed one.
pub IsTrimmed-framed :
    (c : ℕ) (s t : Text) → NonSpace c → t ≢ [] → trim_end t ≡ t → IsTrimmed (c ∷ (s ++ t))
IsTrimmed-framed c s t h ne e = (
  trim_start-cons c (s ++ t) h,
  trim_end-append (c ∷ s) t (λ z. ne (sym e ∙ z)) ∙ ap (λ r. c ∷ (s ++ r)) e,
)

pub trim-space_before : (s : Text) → IsTrimmed s → trim (b' ' ∷ s) ≡ s
unfolding trim
trim-space_before s h = ap trim_end h.0 ∙ h.1

pub trim-space_after :
    (c : ℕ) (s : Text) → All NonSpace (c ∷ s) → trim (c ∷ (s ++ b' ' ∷ [])) ≡ c ∷ s
unfolding trim
trim-space_after c s h = ap trim_end (trim_start-cons c (s ++ b' ' ∷ []) h.0) ∙ drop_space (c ∷ s) h
  where
    drop_space : (t : Text) → All NonSpace t → trim_end (t ++ b' ' ∷ []) ≡ t
    drop_space [] h = refl
    drop_space (x ∷ t) h = ground (arith, drop_space t h.1)
