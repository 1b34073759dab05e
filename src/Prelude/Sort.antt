-- ===== src/Prelude/Sort.antt =====
-- `sort_by_key` of the standard library: the stable sort, as an insertion sort.
use asrsub.Prelude.Tests.{leb, if◌then◌else◌, Bool-cases}
use Prim.Native.Nat.{ℕ, ◌≤◌}
use mathlib.Core.Path.{◌≡◌, refl, ap, ◌∙◌}
use mathlib.Core.Logic.{inl, inr}
use mathlib.Core.List.{List, [], ◌∷◌, Perm}
use mathlib.Core.List.Perm
use native.Mathlib.Omega.{arith}

module _ {ℓ} {A : Type ℓ} (key : A → ℕ) where
  -- In front of the first element with a key that is not smaller.
  unfoldable pub insert_by_key : A → List A → List A
  insert_by_key x [] = x ∷ []
  insert_by_key x (y ∷ ys) =
      let later = insert_by_key x ys in if leb (key x) (key y) then x ∷ y ∷ ys else y ∷ later

  unfoldable pub sort_by_key : List A → List A
  unfolding insert_by_key
  sort_by_key [] = []
  sort_by_key (x ∷ xs) = insert_by_key x (sort_by_key xs)

  abbrev pub SortedFrom : ℕ → List A → Type 0
  SortedFrom k [] = Unit
  SortedFrom k (x ∷ xs) = (k ≤ key x) × SortedFrom (key x) xs

  abbrev pub IsSortedBy : List A → Type 0
  IsSortedBy [] = Unit
  IsSortedBy (x ∷ xs) = SortedFrom (key x) xs

  insert_by_key-perm : (x : A) (ys : List A) → Perm (insert_by_key x ys) (x ∷ ys)
  unfolding insert_by_key
  insert_by_key-perm x [] = Perm.refl (x ∷ [])
  insert_by_key-perm x (y ∷ ys) = elim (Bool-cases (leb (key x) (key y))) [
    | inl e ↦ rw e (Perm.refl (x ∷ y ∷ ys))
    | inr e ↦ rw e (Perm.trans (Perm.cons y (insert_by_key-perm x ys)) (Perm.swap x y ys))
  ]

  pub sort_by_key-perm : (xs : List A) → Perm (sort_by_key xs) xs
  unfolding sort_by_key
  sort_by_key-perm [] = Perm.refl []
  sort_by_key-perm (x ∷ xs) =
      Perm.trans (insert_by_key-perm x (sort_by_key xs)) (Perm.cons x (sort_by_key-perm xs))

  insert_by_key-SortedFrom :
      (k : ℕ) (x : A) (ys : List A)
      → k ≤ key x
      → SortedFrom k ys
      → SortedFrom k (insert_by_key x ys)
  unfolding insert_by_key
  insert_by_key-SortedFrom k x [] h s = (h, tt)
  insert_by_key-SortedFrom k x (y ∷ ys) h s = ground (arith, insert_by_key-SortedFrom (key y) x ys)

  SortedFrom-zero : (ys : List A) → IsSortedBy ys → SortedFrom 0 ys
  SortedFrom-zero [] s = tt
  SortedFrom-zero (y ∷ ys) s = (omega arith, s)

  IsSortedBy-from : (k : ℕ) (ys : List A) → SortedFrom k ys → IsSortedBy ys
  IsSortedBy-from k [] s = tt
  IsSortedBy-from k (y ∷ ys) s = s.1

  pub sort_by_key-IsSortedBy : (xs : List A) → IsSortedBy (sort_by_key xs)
  unfolding sort_by_key
  sort_by_key-IsSortedBy [] = tt
  sort_by_key-IsSortedBy (x ∷ xs) = IsSortedBy-from 0 (insert_by_key x (sort_by_key xs)) (
      insert_by_key-SortedFrom 0 x (sort_by_key xs) (omega arith)
        (SortedFrom-zero (sort_by_key xs) (sort_by_key-IsSortedBy xs)))

  insert_by_key-front : (x : A) (xs : List A) → SortedFrom (key x) xs → insert_by_key x xs ≡ x ∷ xs
  unfolding insert_by_key
  insert_by_key-front x [] s = refl
  insert_by_key-front x (y ∷ ys) s = ground arith

  -- A sorted list is left as it is.
  pub sort_by_key-IsSortedBy_id : (xs : List A) → IsSortedBy xs → sort_by_key xs ≡ xs
  unfolding sort_by_key
  sort_by_key-IsSortedBy_id [] s = refl
  sort_by_key-IsSortedBy_id (x ∷ xs) s =
      ap (insert_by_key x) (sort_by_key-IsSortedBy_id xs (IsSortedBy-from (key x) xs s))
      ∙ insert_by_key-front x xs s
