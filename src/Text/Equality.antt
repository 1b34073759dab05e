-- ===== src/Text/Equality.antt =====
-- The equality test on texts.
use asrsub.Prelude.{ℕ, ◌≡◌, refl, ap₂, true, [], ◌∷◌, ◌==◌, ==_iff, arith, and_left, and_right}
use asrsub.Text.{Text, text_eq}

==_refl : (n : ℕ) → (n == n) ≡ true
==_refl n = ground arith

pub text_eq_refl : (t : Text) → text_eq t t ≡ true
text_eq_refl [] = refl
text_eq_refl (c ∷ t) = rw (==_refl c) (text_eq_refl t)

pub eq_of_text_eq : (a b : Text) → text_eq a b ≡ true → a ≡ b
eq_of_text_eq [] [] h = refl
eq_of_text_eq [] (d ∷ b) h = absurd cc
eq_of_text_eq (c ∷ a) [] h = absurd cc
eq_of_text_eq (c ∷ a) (d ∷ b) h =
    ap₂ ◌∷◌ ((==_iff c d).0 (and_left (c == d) (text_eq a b) h))
      (eq_of_text_eq a b (and_right (c == d) (text_eq a b) h))
