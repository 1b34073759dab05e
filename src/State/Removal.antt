-- ===== src/State/Removal.antt =====
-- The registry after a removal.
use asrsub.Prelude.{
  ◌↔◌, ◌⊎◌, none, ◌||◌, ◌∙◌, ◌≤◌, ◌≡◌, refl, sym, ap, ap₂, subst, Bool, true, false, List, [], ◌∷◌,
  map, length, All, Option, some, ◌==◌, ==_iff, Bool-cases, inl, inr, arith,
}
use asrsub.Text.{Text, text_eq}
use asrsub.Text.Equality.{eq_of_text_eq, text_eq_refl}
use asrsub.Ledger.{signed_eq}
use asrsub.Report.{Signed}
use asrsub.Lang.{normalize_lang}
use asrsub.Ledger.Files.{LedgerFile}
use asrsub.Ledger.Lines.{unlines}
use asrsub.State.{rows_text, cons_line, replaced, rewrite_jsonl, load_jsonl}
use asrsub.State.Rows.{
  RegistryRow, or_empty, same_text, same_id, is_kept, filter, registry_delete, rewritten,
}
use asrsub.State.Actions.{IsPrinter, Holds, Holds-Printable, load_jsonl-Holds}

-- The row is of the language, and of the stem or of the episode, where these are given.
abbrev pub IsRemoved :
    {Value : Type 0} → Option Text → Option Signed → Text → RegistryRow Value → Type 0
IsRemoved stem episode_id lang row =
    (normalize_lang (or_empty row.lang) ≡ normalize_lang lang)
    × (((t : Text) × (stem ≡ some t) × (row.stem ≡ some t))
        ⊎ ((id : Signed) × (episode_id ≡ some id) × (row.episode_id ≡ some id)))

-- The second list is the first one without the elements that the predicate holds of.
pub data Without {A : Type 0} (P : A → Type 0) : List A → List A → Type 0 where
  done : Without P [] []
  keep :
      {a : A} {rows out : List A} → (P a → ⊥) → Without P rows out → Without P (a ∷ rows) (a ∷ out)
  drop : {a : A} {rows out : List A} → P a → Without P rows out → Without P (a ∷ rows) out

same_text_iff :
    (a b : Option Text) → (same_text a b ≡ true) ↔ ((t : Text) × (b ≡ some t) × (a ≡ some t))
same_text_iff none b = (λ e. absurd cc, λ (t, h, k). absurd cc)
same_text_iff (some a) none = (λ e. absurd cc, λ (t, h, k). absurd cc)
same_text_iff (some a) (some b) = (
  λ e. (b, refl, ap some (eq_of_text_eq a b e)),
  λ (t, h, k). subst (λ x. same_text x (some b) ≡ true) (h ∙ sym k) (text_eq_refl b),
)

signed_eq_iff : (a b : Signed) → (signed_eq a b ≡ true) ↔ (a ≡ b)
signed_eq_iff (Signed.pos a) (Signed.pos b) =
    (λ e. ap Signed.pos ((==_iff a b).0 e), λ e. (==_iff a b).1 cc)
signed_eq_iff (Signed.negsuc a) (Signed.negsuc b) =
    (λ e. ap Signed.negsuc ((==_iff a b).0 e), λ e. (==_iff a b).1 cc)
signed_eq_iff (Signed.pos a) (Signed.negsuc b) = (λ e. absurd cc, λ e. absurd cc)
signed_eq_iff (Signed.negsuc a) (Signed.pos b) = (λ e. absurd cc, λ e. absurd cc)

same_id_iff :
    (a b : Option Signed) → (same_id a b ≡ true) ↔ ((t : Signed) × (b ≡ some t) × (a ≡ some t))
same_id_iff none b = (λ e. absurd cc, λ (t, h, k). absurd cc)
same_id_iff (some a) none = (λ e. absurd cc, λ (t, h, k). absurd cc)
same_id_iff (some a) (some b) = (
  λ e. (b, refl, ap some ((signed_eq_iff a b).0 e)),
  λ (t, h, k). subst (λ x. same_id x (some b) ≡ true) (h ∙ sym k) ((signed_eq_iff b b).1 refl),
)

module _ {Value : Type 0} (stem : Option Text) (episode_id : Option Signed) (lang : Text) where
  is_kept-IsRemoved :
      (row : RegistryRow Value)
      → is_kept stem episode_id (normalize_lang lang) row ≡ false
      → IsRemoved stem episode_id lang row
  unfolding is_kept
  is_kept-IsRemoved row e =
      let (same, named) = both in
      (
        eq_of_text_eq (normalize_lang (or_empty row.lang)) (normalize_lang lang) same,
        elim (Bool-cases (same_text row.stem stem)) [
          | inl h ↦ inl ((same_text_iff row.stem stem).0 h)
          | inr h ↦ inr ((same_id_iff row.episode_id episode_id).0 (second h named))
        ],
      )
    where
      both :
          (text_eq (normalize_lang (or_empty row.lang)) (normalize_lang lang) ≡ true)
          × ((same_text row.stem stem || same_id row.episode_id episode_id) ≡ true)
      both = ground arith

      second : {a b : Bool} → a ≡ false → (a || b) ≡ true → b ≡ true
      second {a = false} h k = k
      second {a = true} h k = absurd cc

  equal :
      (row : RegistryRow Value)
      → normalize_lang (or_empty row.lang) ≡ normalize_lang lang
      → text_eq (normalize_lang (or_empty row.lang)) (normalize_lang lang) ≡ true
  equal row same =
      subst (λ t. text_eq t (normalize_lang lang) ≡ true) (sym same)
        (text_eq_refl (normalize_lang lang))

  is_kept-true :
      (row : RegistryRow Value)
      → is_kept stem episode_id (normalize_lang lang) row ≡ true
      → IsRemoved stem episode_id lang row
      → ⊥
  unfolding is_kept
  is_kept-true row e (same, inl found) =
      let a = equal row same in let b = (same_text_iff row.stem stem).1 found in ground arith
  is_kept-true row e (same, inr found) =
      let a = equal row same in
      let b = (same_id_iff row.episode_id episode_id).1 found in ground arith

  filter-Without :
      (rows : List (RegistryRow Value))
      → Without
          (IsRemoved stem episode_id lang)
          rows
          (filter (is_kept stem episode_id (normalize_lang lang)) rows)
  filter-Without [] = done
  filter-Without (row ∷ rows) =
      elim (Bool-cases (is_kept stem episode_id (normalize_lang lang) row)) [
        | inl e ↦ rw (e) (keep (is_kept-true row e) (filter-Without rows))
        | inr e ↦ rw (e) (drop (is_kept-IsRemoved row e) (filter-Without rows))
      ]

module _ {A : Type 0} (q : A → Bool) where
  length-filter : (rows : List A) → length (filter q rows) ≤ length rows
  length-filter [] = omega arith
  length-filter (a ∷ rows) = let rest = length-filter rows in ground arith

  All-filter : (P : A → Type 0) (rows : List A) → All P rows → All P (filter q rows)
  All-filter P [] h = tt
  All-filter P (a ∷ rows) h = elim (Bool-cases (q a)) [
    | inl e ↦ rw (e) (h.0, All-filter P rows h.1)
    | inr e ↦ rw (e) (All-filter P rows h.1)
  ]

  filter-length_eq : (rows : List A) → length (filter q rows) ≡ length rows → filter q rows ≡ rows
  filter-length_eq [] h = refl
  filter-length_eq (a ∷ rows) h = elim (Bool-cases (q a)) [
    | inl e ↦ rw (e) (ap (◌∷◌ a) (filter-length_eq rows (kept e)))
    | inr e ↦ absurd (dropped e)
  ]
    where
      kept : q a ≡ true → length (filter q rows) ≡ length rows
      kept e = ground arith

      dropped : q a ≡ false → ⊥
      dropped e = let rest = length-filter rows in ground arith

module _ {Value : Type 0} (from_str : Text → Option (RegistryRow Value))
    (to_string : RegistryRow Value → Option Text) (p : IsPrinter from_str to_string) where
  rows_text-lines :
      (rows : List (RegistryRow Value))
      → All p.Printable rows
      → rows_text to_string rows ≡ some (unlines (map p.line rows))
  unfolding rows_text
  rows_text-lines [] h = refl
  rows_text-lines (a ∷ rows) h =
      ap₂ (cons_line to_string) (p.printed a h.0) (rows_text-lines rows h.1)

  rewrite_jsonl-Holds :
      (rows : List (RegistryRow Value)) (l : LedgerFile)
      → All p.Printable rows
      → Holds from_str to_string p rows (rewrite_jsonl to_string true rows l).1
  unfolding rewrite_jsonl
  rewrite_jsonl-Holds rows l h =
      subst (λ t. Holds from_str to_string p rows (replaced to_string true t l).1)
        (sym (rows_text-lines rows h)) (h, refl)

  rewritten-Holds :
      (rows : List (RegistryRow Value)) (q : RegistryRow Value → Bool) (l : LedgerFile)
      → Holds from_str to_string p rows l
      → Holds from_str to_string p
          (filter q rows)
          (rewritten from_str to_string true rows (filter q rows) l).1
  rewritten-Holds [] q l h = h
  rewritten-Holds (a ∷ rows) q l h =
      elim (Bool-cases (length (filter q (a ∷ rows)) == length (a ∷ rows))) [
        | inl e ↦ rw (e) (
            subst (λ r. Holds from_str to_string p r l)
              (sym (filter-length_eq q (a ∷ rows) ((==_iff _ _).0 e))) h)
        | inr e ↦ rw (e) (
            rewrite_jsonl-Holds (filter q (a ∷ rows)) l (
              All-filter q p.Printable (a ∷ rows)
                (Holds-Printable from_str to_string p (a ∷ rows) l h)))
      ]

  registry_delete-filter :
      (stem : Option Text) (episode_id : Option Signed) (lang : Text)
      (rows : List (RegistryRow Value)) (l : LedgerFile)
      → Holds from_str to_string p rows l
      → load_jsonl from_str true
          (registry_delete from_str to_string true true stem episode_id lang l).1
        ≡ filter (is_kept stem episode_id (normalize_lang lang)) rows
  unfolding registry_delete
  registry_delete-filter stem episode_id lang rows l h = load_jsonl-Holds from_str to_string p _ _ (
      subst
        (λ r.
          Holds from_str to_string p (filter q rows)
            (rewritten from_str to_string true r (filter q r) l).1)
        (sym (load_jsonl-Holds from_str to_string p rows l h)) (rewritten-Holds rows q l h))
    where
      q : RegistryRow Value → Bool
      q = is_kept stem episode_id (normalize_lang lang)

  -- If no step fails, a removal from a registry of printed rows leaves, in their order, all rows but those
  -- of the language that have the given stem or the given episode, and none of these.
  pub registry_delete-Without :
      (stem : Option Text) (episode_id : Option Signed) (lang : Text)
      (rows : List (RegistryRow Value)) (l : LedgerFile)
      → Holds from_str to_string p rows l
      → Without (IsRemoved stem episode_id lang) rows (
          load_jsonl from_str true
            (registry_delete from_str to_string true true stem episode_id lang l).1)
  registry_delete-Without stem episode_id lang rows l h =
      subst (Without (IsRemoved stem episode_id lang) rows)
        (sym (registry_delete-filter stem episode_id lang rows l h))
        (filter-Without stem episode_id lang rows)
