-- ===== src/Text/Split.antt =====
-- Laws of the splitting functions.
use asrsub.Prelude.{
  ℕ, ◌≡◌, ◌≢◌, refl, ap, ◌∙◌, Bool, true, false, ◌&&◌, List, [], ◌∷◌, ◌++◌, arith, All, ◌==◌, none,
  some,
}
use asrsub.Text.{
  Text, nl, cr, strip_prefix, split_once, split_once_by, split_char, split_blank, replace_crlf,
  end_lines, extend_first, drop_cr,
}

abbrev pub Lacks : ℕ → Text → Type 0
Lacks d s = All (λ c. c ≢ d) s

abbrev pub prepend_text : Text → List Text → List Text
prepend_text pre [] = pre ∷ []
prepend_text pre (p ∷ ps) = (pre ++ p) ∷ ps

pub split_char-append :
    (d : ℕ) (s t : Text) → Lacks d s → split_char d (s ++ d ∷ t) ≡ s ∷ split_char d t
unfolding split_char
split_char-append d [] t h = ground arith
split_char-append d (c ∷ s) t h = ground (arith, split_char-append d s t h.1)

pub split_char-none : (d : ℕ) (s : Text) → Lacks d s → split_char d s ≡ s ∷ []
unfolding split_char
split_char-none d [] h = refl
split_char-none d (c ∷ s) h = ground (arith, split_char-none d s h.1)

pub split_once_by-append :
    (p : ℕ → Bool) (s : Text) (d : ℕ) (t : Text)
    → All (λ c. p c ≡ false) s
    → p d ≡ true
    → split_once_by p (s ++ d ∷ t) ≡ some (s, t)
unfolding split_once_by
split_once_by-append p [] d t h e = rw e
split_once_by-append p (c ∷ s) d t h e = rw (h.0, split_once_by-append p s d t h.1 e)

pub strip_prefix-append : (p s : Text) → strip_prefix p (p ++ s) ≡ some s
unfolding strip_prefix
strip_prefix-append [] s = refl
strip_prefix-append (c ∷ p) s = ground (arith, strip_prefix-append p s)

-- The first occurrence is found where its first char does not stand before it.
pub split_once-append :
    (d : ℕ) (p s t : Text) → Lacks d s → split_once (d ∷ p) (s ++ ((d ∷ p) ++ t)) ≡ some (s, t)
unfolding split_once
split_once-append d p [] t h = rw (strip_prefix-append (d ∷ p) t, split_once)
split_once-append d p (c ∷ s) t h =
    unfold strip_prefix in ground (arith, split_once-append d p s t h.1)

pub replace_crlf-id : (s : Text) → Lacks cr s → replace_crlf s ≡ s
unfolding replace_crlf
replace_crlf-id [] h = refl
replace_crlf-id (c ∷ []) h = refl
replace_crlf-id (c ∷ d ∷ s) h = ground (arith, replace_crlf-id (d ∷ s) h.1)

split_blank-step :
    (c d : ℕ) (s : Text)
    → (c == nl && d == nl) ≡ false
    → split_blank (c ∷ d ∷ s) ≡ extend_first c (split_blank (d ∷ s))
unfolding split_blank
split_blank-step c d s h = rw (h, split_blank)

extend_first-prepend_text :
    (c : ℕ) (pre : Text) (ps : List Text)
    → extend_first c (prepend_text pre ps) ≡ prepend_text (c ∷ pre) ps
extend_first-prepend_text c pre [] = refl
extend_first-prepend_text c pre (p ∷ ps) = refl

extend_first-eq : (c : ℕ) (ps : List Text) → extend_first c ps ≡ prepend_text (c ∷ []) ps
extend_first-eq c [] = refl
extend_first-eq c (p ∷ ps) = refl

not-nl-left : (c d : ℕ) → c ≢ nl → (c == nl && d == nl) ≡ false
not-nl-left c d h = ground arith

not-nl-right : (c d : ℕ) → d ≢ nl → (c == nl && d == nl) ≡ false
not-nl-right c d h = ground arith

-- A line and its line feed belong to the block of what follows.
pub split_blank-line :
    (l : Text) (d : ℕ) (s : Text)
    → l ≢ []
    → Lacks nl l
    → d ≢ nl
    → split_blank (l ++ nl ∷ d ∷ s) ≡ prepend_text (l ++ nl ∷ []) (split_blank (d ∷ s))
split_blank-line [] d s ne h q = absurd (ne refl)
split_blank-line (c ∷ []) d s ne h q =
    split_blank-step c nl (d ∷ s) (not-nl-left c nl h.0)
    ∙ ap (extend_first c)
        (split_blank-step nl d s (not-nl-right nl d q) ∙ extend_first-eq nl (split_blank (d ∷ s)))
    ∙ extend_first-prepend_text c (nl ∷ []) (split_blank (d ∷ s))
split_blank-line (c ∷ e ∷ l) d s ne h q =
    split_blank-step c e (l ++ nl ∷ d ∷ s) (not-nl-left c e h.0)
    ∙ ap (extend_first c) (split_blank-line (e ∷ l) d s (λ z. cc) h.1 q)
    ∙ extend_first-prepend_text c ((e ∷ l) ++ nl ∷ []) (split_blank (d ∷ s))

split_blank-nl : (s : Text) → split_blank (nl ∷ nl ∷ s) ≡ [] ∷ split_blank s
unfolding split_blank
split_blank-nl s = refl

-- An empty line ends a block.
pub split_blank-end :
    (l s : Text) → l ≢ [] → Lacks nl l → split_blank (l ++ nl ∷ nl ∷ s) ≡ l ∷ split_blank s
split_blank-end [] s ne h = absurd (ne refl)
split_blank-end (c ∷ []) s ne h =
    split_blank-step c nl (nl ∷ s) (not-nl-left c nl h.0) ∙ ap (extend_first c) (split_blank-nl s)
split_blank-end (c ∷ e ∷ l) s ne h =
    split_blank-step c e (l ++ nl ∷ nl ∷ s) (not-nl-left c e h.0)
    ∙ ap (extend_first c) (split_blank-end (e ∷ l) s (λ z. cc) h.1)

pub split_once-Lacks : (d : ℕ) (p s : Text) → Lacks d s → split_once (d ∷ p) s ≡ none
unfolding split_once
split_once-Lacks d p [] h = refl
split_once-Lacks d p (c ∷ s) h = ground (arith, split_once-Lacks d p s h.1)

pub drop_cr-Lacks : (s : Text) → Lacks cr s → drop_cr s ≡ s
drop_cr-Lacks [] h = refl
drop_cr-Lacks (c ∷ []) h = ground arith
drop_cr-Lacks (c ∷ d ∷ s) h = ap (◌∷◌ c) (drop_cr-Lacks (d ∷ s) h.1)

pub end_lines-cons :
    (l next : Text) (more : List Text)
    → Lacks cr l
    → end_lines (l ∷ next ∷ more) ≡ l ∷ end_lines (next ∷ more)
unfolding end_lines
end_lines-cons l next more h = ap (λ r. r ∷ end_lines (next ∷ more)) (drop_cr-Lacks l h)

pub end_lines-last : (l : Text) → l ≢ [] → end_lines (l ∷ []) ≡ l ∷ []
unfolding end_lines
end_lines-last [] h = absurd (h refl)
end_lines-last (c ∷ l) h = refl

pub split_blank-line_before :
    (l m s : Text)
    → l ≢ []
    → Lacks nl l
    → m ≢ []
    → Lacks nl m
    → split_blank (l ++ nl ∷ (m ++ s)) ≡ prepend_text (l ++ nl ∷ []) (split_blank (m ++ s))
split_blank-line_before l [] s ne h nm k = absurd (nm refl)
split_blank-line_before l (d ∷ m) s ne h nm k = split_blank-line l d (m ++ s) ne h k.0
