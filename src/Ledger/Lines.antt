-- ===== src/Ledger/Lines.antt =====
-- The lines of a ledger file.
use asrsub.Prelude.{
  ◌≡◌, refl, sym, ap, ◌∙◌, List, [], ◌∷◌, ◌++◌, append_assoc, map, All, Bool-cases, inl, inr, ◌==◌,
}
use asrsub.Text.{Text, lines, split_char, end_lines, drop_cr, extend_first, nl}
use asrsub.Text.Split.{Lacks, split_char-append}

-- The text of lines that each end with a line feed.
abbrev pub unlines : List Text → Text
unlines [] = []
unlines (l ∷ ls) = l ++ nl ∷ unlines ls

end_lines-split_char :
    (l s : Text) → end_lines (l ∷ split_char nl s) ≡ drop_cr l ∷ end_lines (split_char nl s)
unfolding split_char end_lines
end_lines-split_char l [] = refl
end_lines-split_char l (c ∷ s) = elim (Bool-cases (c == nl)) [
  | inl h ↦ rw (h) refl
  | inr h ↦ rw (h) (extended (split_char nl s))
]
  where
    extended :
        (ps : List Text)
        → end_lines (l ∷ extend_first c ps) ≡ drop_cr l ∷ end_lines (extend_first c ps)
    extended [] = refl
    extended (p ∷ ps) = refl

pub lines-unlines : (ls : List Text) → All (Lacks nl) ls → lines (unlines ls) ≡ map drop_cr ls
unfolding lines split_char end_lines
lines-unlines [] h = refl
lines-unlines (l ∷ ls) h =
    ap end_lines (split_char-append nl l (unlines ls) h.0)
    ∙ end_lines-split_char l (unlines ls)
    ∙ ap (◌∷◌ (drop_cr l)) (lines-unlines ls h.1)

pub unlines-snoc :
    (ls : List Text) (l : Text) → unlines (ls ++ l ∷ []) ≡ unlines ls ++ (l ++ nl ∷ [])
unlines-snoc [] l = refl
unlines-snoc (k ∷ ls) l =
    ap (λ t. k ++ nl ∷ t) (unlines-snoc ls l)
    ∙ sym (append_assoc k (nl ∷ unlines ls) (l ++ nl ∷ []))
