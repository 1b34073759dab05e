-- ===== src/Provider/Ordering.antt =====
-- The order in which the pool offers its endpoints.
use asrsub.Prelude.{
  ℕ, zero, suc, ◌+◌, ◌≤◌, ◌≡◌, ◌≢◌, Memᴰ, subst, ap₂, refl, ap, true, false, List, [], ◌∷◌, Option,
  some, is_nil, get_elem?, All, arith, Bool-cases, inl, inr,
}
use asrsub.Provider.{EndpointHealth, banned_at, enumerate, usable, ordered_endpoints}

ne_nil_of_is_nil {ℓ} : {A : Type ℓ} (xs : List A) → is_nil xs ≡ false → xs ≢ []
ne_nil_of_is_nil [] h e = absurd cc
ne_nil_of_is_nil (x ∷ xs) h e = cc

module _ {P : Type 0} where
  -- Entries are the endpoints they name, in strictly increasing position, from `lo` on.
  abbrev pub Names : (ℕ → Option P) → ℕ → List (ℕ × P) → Type 0
  Names at lo [] = Unit
  Names at lo ((i, p) ∷ es) = (lo ≤ i) × (at i ≡ some p) × Names at (suc i) es

  abbrev pub Unbanned : List EndpointHealth → ℕ → List (ℕ × P) → Type 0
  Unbanned health now es = All (λ e. banned_at health e.0 now ≡ false) es

  abbrev pub AllBanned : List EndpointHealth → ℕ → List (ℕ × P) → Type 0
  AllBanned health now es = All (λ e. banned_at health e.0 now ≡ true) es

  usable-skip :
      (health : List EndpointHealth) (now i : ℕ) (p : P) (es : List (ℕ × P))
      → banned_at health i now ≡ true
      → usable health now ((i, p) ∷ es) ≡ usable health now es
  usable-skip health now i p es b = rw (b, usable) refl

  usable-keep :
      (health : List EndpointHealth) (now i : ℕ) (p : P) (es : List (ℕ × P))
      → banned_at health i now ≡ false
      → usable health now ((i, p) ∷ es) ≡ (i, p) ∷ usable health now es
  usable-keep health now i p es b = rw (b, usable) refl

  usable-Memᴰ :
      (health : List EndpointHealth) (now i : ℕ) (p : P) (es : List (ℕ × P))
      → banned_at health i now ≡ false
      → Memᴰ (i, p) es
      → Memᴰ (i, p) (usable health now es)
  usable-Memᴰ health now i p [] b h = elim h [ ]
  usable-Memᴰ health now i p ((j, q) ∷ es) b (Memᴰ.head e) =
      rw
        (usable-keep health now j q es
          (subst (λ k. banned_at health k now ≡ false) (ap (λ x. x.0) e) b))
        (Memᴰ.head e)
  usable-Memᴰ health now i p ((j, q) ∷ es) b (Memᴰ.tail h) =
      elim (Bool-cases (banned_at health j now)) [
        | inl c ↦ rw (usable-skip health now j q es c) (usable-Memᴰ health now i p es b h)
        | inr c ↦
            rw (usable-keep health now j q es c) (Memᴰ.tail (usable-Memᴰ health now i p es b h))
      ]

  enumerate-Memᴰ :
      (k j : ℕ) (p : P) (ps : List P) → get_elem? ps j ≡ some p → Memᴰ (k + j, p) (enumerate k ps)
  enumerate-Memᴰ k j p [] h = absurd cc
  enumerate-Memᴰ k zero p (q ∷ ps) h = Memᴰ.head (ap₂ (λ a b. (a, b)) (omega arith) cc)
  enumerate-Memᴰ k (suc j) p (q ∷ ps) h = Memᴰ.tail (
      subst (λ n. Memᴰ (n, p) (enumerate (suc k) ps)) (omega arith)
        (enumerate-Memᴰ (suc k) j p ps h))

  is_nil-Memᴰ : (x : ℕ × P) (es : List (ℕ × P)) → Memᴰ x es → is_nil es ≡ false
  is_nil-Memᴰ x [] h = elim h [ ]
  is_nil-Memᴰ x (e ∷ es) h = refl

  -- An endpoint of the file that is not banned is always offered, under its own number.
  pub ordered_endpoints-complete :
      (ps : List P) (health : List EndpointHealth) (now i : ℕ) (p : P)
      → get_elem? ps i ≡ some p
      → banned_at health i now ≡ false
      → Memᴰ (i, p) (ordered_endpoints ps health now)
  unfolding ordered_endpoints
  ordered_endpoints-complete ps health now i p at_i b =
      rw (is_nil-Memᴰ (i, p) (usable health now (enumerate 0 ps)) offered) offered
    where
      offered : Memᴰ (i, p) (usable health now (enumerate 0 ps))
      offered =
          usable-Memᴰ health now i p (enumerate 0 ps) b
            (subst (λ n. Memᴰ (n, p) (enumerate 0 ps)) (omega arith) (enumerate-Memᴰ 0 i p ps at_i))

  enumerate-ne_nil : (ps : List P) → ps ≢ [] → enumerate 0 ps ≢ []
  enumerate-ne_nil [] ne e = ne refl
  enumerate-ne_nil (p ∷ ps) ne e = cc

  -- A pool with an endpoint always offers one, even if all are banned.
  pub ordered_endpoints-ne_nil :
      (ps : List P) (health : List EndpointHealth) (now : ℕ)
      → ps ≢ []
      → ordered_endpoints ps health now ≢ []
  unfolding ordered_endpoints
  ordered_endpoints-ne_nil ps health now ne =
      elim (Bool-cases (is_nil (usable health now (enumerate 0 ps)))) [
        | inl e ↦ rw (e) (enumerate-ne_nil ps ne)
        | inr e ↦ rw (e) (ne_nil_of_is_nil _ e)
      ]
