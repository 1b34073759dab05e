-- ===== src/Lang/Paths.antt =====
-- The sidecar paths: what a lookup tries and what a new sidecar replaces.
use asrsub.Prelude.{
  ◌≡◌, refl, sym, ap, ◌∙◌, subst, Bool, true, false, ◌||◌, List, [], ◌∷◌, ◌++◌, Bool-cases, inl,
  inr, map, arith, ◌⊎◌, or_false_left, or_false_right,
}
use asrsub.Text.{Text, codes, text_eq}
use asrsub.Text.Equality.{eq_of_text_eq, text_eq_refl}
use asrsub.Lang.{normalize_lang}
use asrsub.Lang.Idempotent.{normalize_lang_idem}
use asrsub.Lang.Sidecar.{
  has_text, push_new, push_all, aliases_of, sidecar_aliases, srt_path, flags, paths_for, or_norm,
  sidecar_paths, canonical_target_sidecar, replaceable_target_sidecar_paths, canonicals,
}

or_right : (a b : Bool) → b ≡ true → (a || b) ≡ true
or_right a b h = ground arith

or_left : (a b : Bool) → a ≡ true → (a || b) ≡ true
or_left a b h = ground arith

has_text-left : (t : Text) (a b : List Text) → has_text t a ≡ true → has_text t (a ++ b) ≡ true
unfolding has_text
has_text-left t [] b h = absurd cc
has_text-left t (x ∷ a) b h = elim (Bool-cases (text_eq t x)) [
  | inl e ↦ or_left (text_eq t x) (has_text t (a ++ b)) e
  | inr e ↦
      or_right (text_eq t x) _ (has_text-left t a b (subst (λ c. (c || has_text t a) ≡ true) e h))
]

has_text-right : (t : Text) (a b : List Text) → has_text t b ≡ true → has_text t (a ++ b) ≡ true
unfolding has_text
has_text-right t [] b h = h
has_text-right t (x ∷ a) b h = or_right (text_eq t x) _ (has_text-right t a b h)

has_text-map :
    (f : Text → Text) (t : Text) (a : List Text)
    → has_text t a ≡ true
    → has_text (f t) (map f a) ≡ true
unfolding has_text
has_text-map f t [] h = absurd cc
has_text-map f t (x ∷ a) h = elim (Bool-cases (text_eq t x)) [
  | inl e ↦
      or_left (text_eq (f t) (f x)) _
        (ap (λ u. text_eq (f t) (f u)) (sym (eq_of_text_eq t x e)) ∙ text_eq_refl (f t))
  | inr e ↦
      or_right (text_eq (f t) (f x)) _
        (has_text-map f t a (subst (λ c. (c || has_text t a) ≡ true) e h))
]

has_text-push_new :
    (t : Text) (ts : List Text) (u : Text)
    → has_text t ts ≡ true
    → has_text t (push_new ts u) ≡ true
has_text-push_new t ts u h = elim (Bool-cases (has_text u ts)) [
  | inl e ↦ rw (e) h
  | inr e ↦ rw (e) (has_text-left t ts (u ∷ []) h)
]

has_text-push_all :
    (t : Text) (ts us : List Text) → has_text t ts ≡ true → has_text t (push_all ts us) ≡ true
unfolding push_all
has_text-push_all t ts [] h = h
has_text-push_all t ts (u ∷ us) h =
    has_text-push_all t (push_new ts u) us (has_text-push_new t ts u h)

has_text-paths_for :
    (stem alias flag : Text) (kinds aliases : List Text)
    → has_text flag kinds ≡ true
    → has_text alias aliases ≡ true
    → has_text (srt_path stem alias flag) (paths_for stem kinds aliases) ≡ true
has_text-paths_for stem alias flag kinds [] f h = absurd (unfold has_text in cc)
has_text-paths_for stem alias flag kinds (a ∷ rest) f h = elim (Bool-cases (text_eq alias a)) [
  | inl e ↦ has_text-left _ (map (srt_path stem a) kinds) (paths_for stem kinds rest) (
      subst (λ x. has_text (srt_path stem alias flag) (map (srt_path stem x) kinds) ≡ true)
        (eq_of_text_eq alias a e) (has_text-map (srt_path stem alias) flag kinds f))
  | inr e ↦
      has_text-right _ (map (srt_path stem a) kinds) (paths_for stem kinds rest)
        (has_text-paths_for stem alias flag kinds rest f (later e))
]
  where
    later : text_eq alias a ≡ false → has_text alias rest ≡ true
    later e = unfold has_text in subst (λ c. (c || has_text alias rest) ≡ true) e h

aliases_of-first : (code : Text) → has_text code (aliases_of code) ≡ true
unfolding aliases_of
aliases_of-first code =
    has_text-push_all code (code ∷ []) _ (unfold has_text in or_left _ false (text_eq_refl code))

has_text-or_norm :
    (norm : Text) (found : List Text)
    → (found ≡ []) ⊎ (has_text norm found ≡ true)
    → has_text norm (or_norm norm found) ≡ true
unfolding has_text
has_text-or_norm norm [] h = or_left _ false (text_eq_refl norm)
has_text-or_norm norm (a ∷ more) (inl h) = absurd cc
has_text-or_norm norm (a ∷ more) (inr h) = h

sidecar_aliases-first :
    (norm : Text)
    → normalize_lang norm ≡ norm
    → (sidecar_aliases norm ≡ []) ⊎ (has_text norm (sidecar_aliases norm) ≡ true)
unfolding sidecar_aliases
sidecar_aliases-first norm fixed = elim (Bool-cases (has_text (normalize_lang norm) canonicals)) [
  | inl e ↦ inr (
      rw (e) (subst (λ w. has_text norm (aliases_of w) ≡ true) (sym fixed) (aliases_of-first norm)))
  | inr e ↦ inl (rw (e) refl)
]

-- The path that a new sidecar of a language is written to is one of the paths at which a lookup for
-- that language searches, whatever the language.
pub sidecar_paths-canonical_target_sidecar :
    (stem lang : Text)
    → has_text (canonical_target_sidecar stem lang) (sidecar_paths stem lang) ≡ true
unfolding canonical_target_sidecar sidecar_paths
sidecar_paths-canonical_target_sidecar stem lang =
    has_text-paths_for stem (normalize_lang lang) (codes ".hi") flags
      (or_norm norm (sidecar_aliases norm)) (unfold has_text in refl)
      (has_text-or_norm norm (sidecar_aliases norm)
        (sidecar_aliases-first norm (normalize_lang_idem lang).0))
  where
    norm : Text
    norm = normalize_lang lang

-- No text twice
abbrev pub IsUnique : List Text → Type 0
IsUnique [] = Unit
IsUnique (t ∷ ts) = (has_text t ts ≡ false) × IsUnique ts

or_false : (a b : Bool) → a ≡ false → b ≡ false → (a || b) ≡ false
or_false a b h k = ground arith

text_eq_sym : (a b : Text) → text_eq a b ≡ false → text_eq b a ≡ false
text_eq_sym a b h = elim (Bool-cases (text_eq b a)) [ inl e ↦ absurd (clash e) | inr e ↦ e ]
  where
    clash : text_eq b a ≡ true → ⊥
    clash e = let f = ap (λ x. text_eq a x) (eq_of_text_eq b a e) ∙ text_eq_refl a in cc

has_text-snoc :
    (t u : Text) (ts : List Text)
    → has_text t ts ≡ false
    → text_eq t u ≡ false
    → has_text t (ts ++ u ∷ []) ≡ false
unfolding has_text
has_text-snoc t u [] h d = or_false _ false d refl
has_text-snoc t u (x ∷ ts) h d =
    or_false (text_eq t x) _ (or_false_left _ (has_text t ts) h)
      (has_text-snoc t u ts (or_false_right (text_eq t x) _ h) d)

IsUnique-snoc :
    (u : Text) (ts : List Text) → IsUnique ts → has_text u ts ≡ false → IsUnique (ts ++ u ∷ [])
unfolding has_text
IsUnique-snoc u [] unique new = (refl, tt)
IsUnique-snoc u (t ∷ ts) unique new = (
  has_text-snoc t u ts unique.0 (text_eq_sym u t (or_false_left (text_eq u t) _ new)),
  IsUnique-snoc u ts unique.1 (or_false_right (text_eq u t) _ new),
)

IsUnique-push_all : (ts us : List Text) → IsUnique ts → IsUnique (push_all ts us)
unfolding push_all
IsUnique-push_all ts [] h = h
IsUnique-push_all ts (u ∷ us) h =
    IsUnique-push_all (push_new ts u) us (elim (Bool-cases (has_text u ts)) [
      | inl e ↦ rw (e) h
      | inr e ↦ rw (e) (IsUnique-snoc u ts h e)
    ])

-- The path to which a new sidecar of a language is written is one of the paths at which a lookup for that
-- language searches; it is one of the paths that the new sidecar replaces; and none of these is listed
-- twice.
pub replaceable_target_sidecar_paths-IsUnique :
    (stem lang : Text)
    → (has_text (canonical_target_sidecar stem lang) (sidecar_paths stem lang) ≡ true)
      × (has_text
            (canonical_target_sidecar stem (normalize_lang lang))
            (replaceable_target_sidecar_paths stem lang)
          ≡ true)
      × IsUnique (replaceable_target_sidecar_paths stem lang)
unfolding replaceable_target_sidecar_paths
replaceable_target_sidecar_paths-IsUnique stem lang = (
  sidecar_paths-canonical_target_sidecar stem lang,
  has_text-push_all target (target ∷ []) _
      (unfold has_text in or_left _ false (text_eq_refl target)),
  IsUnique-push_all (target ∷ []) _ (unfold has_text in refl, tt),
)
  where
    target : Text
    target = canonical_target_sidecar stem (normalize_lang lang)
