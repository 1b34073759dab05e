-- ===== src/Tests/StateTests.antt =====
-- Runs of the theorems on the queue of actions and the registry.
use asrsub.Prelude.{
  ◌⊎◌, inl, inr, sym, subst, ◌≡◌, ◌≢◌, refl, true, List, [], ◌∷◌, ◌++◌, Option, none, some,
}
use asrsub.Text.{Text, codes, nl, cr, trim}
use asrsub.Text.Split.{Lacks}
use asrsub.Ledger.Files.{LedgerFile}
use asrsub.Ledger.Lines.{unlines}
use asrsub.State.{load_jsonl}
use asrsub.State.Rows.{RegistryRow, registry_delete}
use asrsub.State.Actions.{
  ActionStep, IsPrinter, run_actions, appended_rows, run_actions-appended_rows,
}
use asrsub.State.Removal.{IsRemoved, Without, registry_delete-Without}

-- One kind of action, printed as a letter
abbrev read_retry : Text → Option (Unit {0})
read_retry t = some tt

retry_printer : IsPrinter read_retry (λ a. some (codes "r"))
retry_printer = record {
  Printable = λ a. Unit;
  line = λ a. codes "r";
  printed = λ a h. refl;
  reads_back = λ a h. refl;
  trimmed = λ a h. unfold trim in refl;
  filled = λ a h e. cc;
  no_nl = λ a h. (λ e. cc, tt);
  no_cr = λ a h. (λ e. cc, tt);
}

abbrev some_steps : List (ActionStep Unit)
some_steps = ActionStep.appended tt ∷ ActionStep.drained ∷ ActionStep.appended tt ∷ []

run_actions-appended_rows_example :
    (run_actions read_retry (λ a. some (codes "r")) some_steps (LedgerFile.missing, [])).1
      ++ load_jsonl read_retry true
          (run_actions read_retry (λ a. some (codes "r")) some_steps (LedgerFile.missing, [])).0
    ≡ appended_rows some_steps
unfolding retry_printer
run_actions-appended_rows_example =
    run_actions-appended_rows read_retry (λ a. some (codes "r")) retry_printer some_steps
      (tt, (tt, tt))

abbrev row : Text → RegistryRow Unit
row lang = record {
  stem = some (codes "/m/a");
  lang = some lang;
  episode_id = none;
  source = none;
  source_kind = none;
  source_path = none;
  target_path = none;
  ts = none;
  extra = λ key. none;
}

abbrev read_row : Text → Option (RegistryRow Unit)
read_row t = some (row t)

abbrev print_row : RegistryRow Unit → Option Text
print_row r = r.lang

-- The rows of two languages
abbrev IsOurs : RegistryRow Unit → Type 0
IsOurs r = (r ≡ row (codes "id")) ⊎ (r ≡ row (codes "en"))

abbrev lang_text : RegistryRow Unit → Text
lang_text r = elim r.lang [ some t ↦ t | none ↦ [] ]

of_ours :
    (P : RegistryRow Unit → Type 0)
    → P (row (codes "id"))
    → P (row (codes "en"))
    → (r : RegistryRow Unit) → IsOurs r
    → P r
of_ours P i e r (inl h) = subst P (sym h) i
of_ours P i e r (inr h) = subst P (sym h) e

row_printer : IsPrinter read_row print_row
row_printer = record {
  Printable = IsOurs;
  line = lang_text;
  printed = of_ours (λ r. print_row r ≡ some (lang_text r)) refl refl;
  reads_back = of_ours (λ r. read_row (lang_text r) ≡ some r) refl refl;
  trimmed =
      of_ours (λ r. trim (lang_text r) ≡ lang_text r) (unfold trim in refl) (unfold trim in refl);
  filled = of_ours (λ r. lang_text r ≢ []) (λ e. cc) (λ e. cc);
  no_nl = of_ours (λ r. Lacks nl (lang_text r)) (λ e. cc, (λ e. cc, tt)) (λ e. cc, (λ e. cc, tt));
  no_cr = of_ours (λ r. Lacks cr (lang_text r)) (λ e. cc, (λ e. cc, tt)) (λ e. cc, (λ e. cc, tt));
}

abbrev two_rows : List (RegistryRow Unit)
two_rows = row (codes "id") ∷ row (codes "en") ∷ []

registry_delete-Without_example :
    Without (IsRemoved (some (codes "/m/a")) none (codes "ind")) two_rows (
      load_jsonl read_row true
        (registry_delete read_row print_row true true
          (some (codes "/m/a"))
          none
          (codes "ind")
          (LedgerFile.file (unlines (codes "id" ∷ codes "en" ∷ [])))).1)
unfolding row_printer
registry_delete-Without_example =
    registry_delete-Without read_row print_row row_printer (some (codes "/m/a")) none (codes "ind")
      two_rows (LedgerFile.file (unlines (codes "id" ∷ codes "en" ∷ [])))
      ((inl refl, (inr refl, tt)), refl)
