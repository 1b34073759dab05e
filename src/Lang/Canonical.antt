-- ===== src/Lang/Canonical.antt =====
-- The chain of `canonical_code` through the table of aliases.
use asrsub.Prelude.{
  ℕ, zero, suc, ◌≡◌, refl, sym, ap, subst, Bool, true, Option, none, some, Option-cases, Bool-cases,
  inl, inr, ◌⊎◌, length, all,
}
use asrsub.Text.{Text, text_eq}
use asrsub.Text.Equality.{eq_of_text_eq, text_eq_refl}
use asrsub.Lang.Aliases.{lang_aliases}
use asrsub.Lang.{alias_code, find_code}
use asrsub.Lang.Normal.{find_code-all}
use asrsub.Lang.Sidecar.{follow, canonical_code}

-- A code at which the chain ends: no alias of another code.
abbrev pub Settled : Text → Type 0
Settled code = (alias_code code ≡ none) ⊎ (alias_code code ≡ some code)

abbrev leads_on : Text → Option Text → Bool
leads_on code none = true
leads_on code (some next) = text_eq next code

abbrev is_settled : Text → Bool
is_settled code = leads_on code (alias_code code)

aliases-settled : all (λ row. is_settled row.1) lang_aliases ≡ true
unfolding alias_code find_code
aliases-settled = refl

settled_of :
    (code : Text) (next : Option Text)
    → leads_on code next ≡ true
    → (next ≡ none) ⊎ (next ≡ some code)
settled_of code none h = inl refl
settled_of code (some next) h = inr (ap some (eq_of_text_eq next code h))

alias_code-Settled : (t code : Text) → alias_code t ≡ some code → Settled code
alias_code-Settled t code e =
    settled_of code (alias_code code)
      (find_code-all is_settled lang_aliases t code aliases-settled (unfold alias_code in e))

follow-Settled : (rounds : ℕ) (code : Text) → Settled code → follow rounds code ≡ code
unfolding follow
follow-Settled zero code h = refl
follow-Settled (suc rounds) code (inl h) = rw (h, follow) refl
follow-Settled (suc rounds) code (inr h) = rw (h, follow, text_eq_refl code) refl

follow_step : (rounds : ℕ) (t code : Text) → alias_code t ≡ some code → follow (suc rounds) t ≡ code
unfolding follow
follow_step rounds t code e = elim (Bool-cases (text_eq code t)) [
  | inl same ↦ rw (e, follow, same) (sym (eq_of_text_eq code t same))
  | inr differs ↦ rw (e, follow, differs) (follow-Settled rounds code (alias_code-Settled t code e))
]

-- The loop of `canonical_code` ends within its rounds: the code it gives is the alias of no other
-- code, so one more round would leave it as it is.
pub canonical_code-Settled : (token : Text) → Settled (canonical_code token)
unfolding canonical_code
canonical_code-Settled token = elim (Option-cases (alias_code token)) [
  | inl e ↦ subst Settled (sym (follow-Settled (length lang_aliases) token (inl e))) (inl e)
  | inr (code, e) ↦
      subst Settled (sym (follow_step _ token code e)) (alias_code-Settled token code e)
]
