-- ===== src/State/Actions.antt =====
-- The queue of actions under appends and drains in any order, as the lock makes them sequential.
use asrsub.Prelude.{
  ◌≡◌, ◌≢◌, refl, sym, ap, ap₂, ◌∙◌, subst, true, List, [], ◌∷◌, ◌++◌, append-nil, append_assoc,
  map, map-append, All, All-append, Option, none, some, if◌then◌else◌, is_nil, is_nil-ne_nil,
}
use asrsub.Text.{Text, lines, drop_cr, nl, cr, trim}
use asrsub.Text.Split.{Lacks, drop_cr-Lacks}
use asrsub.Ledger.Files.{LedgerFile}
use asrsub.Ledger.Lines.{unlines, lines-unlines, unlines-snoc}
use asrsub.State.{
  keep_some, rows_of, row_of, load_jsonl, append_jsonl, regular_write, consume_actions, WriteIo,
  DrainIo,
}

pub data ActionStep (A : Type 0) : Type 0 where
  appended : A → ActionStep A
  drained : ActionStep A

abbrev all_well : DrainIo
all_well = record { has_lock = true; readable = true; is_truncated = true }

abbrev pub appended_rows : {A : Type 0} → List (ActionStep A) → List A
appended_rows [] = []
appended_rows (appended a ∷ more) = a ∷ appended_rows more
appended_rows (drained ∷ more) = appended_rows more

module _ {A : Type 0} (from_str : Text → Option A) (to_string : A → Option Text) where
  -- The file, and all that the drains have given so far.
  unfoldable pub run_actions : List (ActionStep A) → LedgerFile × List A → LedgerFile × List A
  run_actions [] (l, given) = (l, given)
  run_actions (appended a ∷ more) (l, given) =
      run_actions more ((append_jsonl to_string WriteIo.done a l).1, given)
  run_actions (drained ∷ more) (l, given) =
      run_actions more
        ((consume_actions from_str all_well l).1, given ++ (consume_actions from_str all_well l).0)

-- What the documentation of `serde_json` says of a row that is printed and read
pub record IsPrinter {A : Type 0} (from_str : Text → Option A) (to_string : A → Option Text)
    : Type 1 where
  -- the rows that the program prints
  pub Printable : A → Type 0
  pub line : A → Text
  pub printed : (a : A) → Printable a → to_string a ≡ some (line a)
  pub reads_back : (a : A) → Printable a → from_str (line a) ≡ some a
  pub trimmed : (a : A) → Printable a → trim (line a) ≡ line a
  pub filled : (a : A) → Printable a → line a ≢ []
  pub no_nl : (a : A) → Printable a → Lacks nl (line a)
  pub no_cr : (a : A) → Printable a → Lacks cr (line a)

module _ {A : Type 0} (from_str : Text → Option A) (to_string : A → Option Text)
    (p : IsPrinter from_str to_string) where
  -- The file is missing or regular, and holds the lines of the rows.
  abbrev pub Holds : List A → LedgerFile → Type 0
  Holds rows LedgerFile.missing = All p.Printable rows × (rows ≡ [])
  Holds rows (LedgerFile.file t) = All p.Printable rows × (t ≡ unlines (map p.line rows))
  Holds rows LedgerFile.dangling = ⊥
  Holds rows LedgerFile.other = ⊥

  pub Holds-Printable : (rows : List A) (l : LedgerFile) → Holds rows l → All p.Printable rows
  Holds-Printable rows LedgerFile.missing h = h.0
  Holds-Printable rows (LedgerFile.file t) h = h.0
  Holds-Printable rows LedgerFile.dangling h = absurd h
  Holds-Printable rows LedgerFile.other h = absurd h

  row_of-line : (a : A) → p.Printable a → row_of from_str (p.line a) ≡ some a
  row_of-line a h =
      ap (λ t. if is_nil t then none else from_str t) (p.trimmed a h)
      ∙ ap (λ b. if b then none else from_str (p.line a)) (is_nil-ne_nil (p.line a) (p.filled a h))
      ∙ p.reads_back a h

  rows_of-lines :
      (rows : List A)
      → All p.Printable rows
      → rows_of from_str (map drop_cr (map p.line rows)) ≡ rows
  unfolding rows_of
  rows_of-lines [] h = refl
  rows_of-lines (a ∷ rows) h =
      ap₂ keep_some
        (ap (row_of from_str) (drop_cr-Lacks (p.line a) (p.no_cr a h.0)) ∙ row_of-line a h.0)
        (rows_of-lines rows h.1)

  map-line-Lacks : (rows : List A) → All p.Printable rows → All (Lacks nl) (map p.line rows)
  map-line-Lacks [] h = tt
  map-line-Lacks (a ∷ rows) h = (p.no_nl a h.0, map-line-Lacks rows h.1)

  pub load_jsonl-Holds :
      (rows : List A) (l : LedgerFile) → Holds rows l → load_jsonl from_str true l ≡ rows
  unfolding load_jsonl
  load_jsonl-Holds rows LedgerFile.missing h = sym h.1
  load_jsonl-Holds rows (LedgerFile.file t) h =
      ap (λ x. rows_of from_str (lines x)) h.1
      ∙ ap (rows_of from_str) (lines-unlines (map p.line rows) (map-line-Lacks rows h.0))
      ∙ rows_of-lines rows h.0
  load_jsonl-Holds rows LedgerFile.dangling h = absurd h
  load_jsonl-Holds rows LedgerFile.other h = absurd h

  unlines-snoc_row :
      (rows : List A) (a : A)
      → unlines (map p.line rows) ++ (p.line a ++ nl ∷ []) ≡ unlines (map p.line (rows ++ a ∷ []))
  unlines-snoc_row rows a =
      sym (ap unlines (map-append p.line rows (a ∷ [])) ∙ unlines-snoc (map p.line rows) (p.line a))

  module _ (rows : List A) (a : A) (printable : p.Printable a) where
    longer : All p.Printable rows → All p.Printable (rows ++ a ∷ [])
    longer h = All-append p.Printable rows (a ∷ []) h (printable, tt)

    Holds-write :
        (l : LedgerFile)
        → Holds rows l
        → Holds (rows ++ a ∷ []) (regular_write to_string WriteIo.done (some (p.line a)) l).1
    Holds-write LedgerFile.missing h = (
      longer h.0,
      ap (λ t. t ++ (p.line a ++ nl ∷ [])) (ap (λ r. unlines (map p.line r)) (sym h.1))
          ∙ unlines-snoc_row rows a,
    )
    Holds-write (LedgerFile.file t) h =
        (longer h.0, ap (λ t. t ++ (p.line a ++ nl ∷ [])) h.1 ∙ unlines-snoc_row rows a)
    Holds-write LedgerFile.dangling h = absurd h
    Holds-write LedgerFile.other h = absurd h

    append_jsonl-Holds :
        (l : LedgerFile)
        → Holds rows l
        → Holds (rows ++ a ∷ []) (append_jsonl to_string WriteIo.done a l).1
    unfolding append_jsonl
    append_jsonl-Holds l h =
        subst (λ line. Holds (rows ++ a ∷ []) (regular_write to_string WriteIo.done line l).1)
          (sym (p.printed a printable)) (Holds-write l h)

  consume_actions-Holds :
      (rows : List A) (l : LedgerFile)
      → Holds rows l
      → ((consume_actions from_str all_well l).0 ≡ rows)
        × Holds [] (consume_actions from_str all_well l).1
  unfolding consume_actions
  consume_actions-Holds rows LedgerFile.missing h =
      (load_jsonl-Holds rows LedgerFile.missing h, (tt, refl))
  consume_actions-Holds rows (LedgerFile.file t) h =
      (load_jsonl-Holds rows (LedgerFile.file t) h, (tt, refl))
  consume_actions-Holds rows LedgerFile.dangling h = absurd h
  consume_actions-Holds rows LedgerFile.other h = absurd h

  run_actions-Holds :
      (steps : List (ActionStep A)) (rows : List A) (l : LedgerFile) (given : List A)
      → Holds rows l
      → All p.Printable (appended_rows steps)
      → (run_actions from_str to_string steps (l, given)).1
          ++ load_jsonl from_str true (run_actions from_str to_string steps (l, given)).0
        ≡ given ++ (rows ++ appended_rows steps)
  unfolding run_actions
  run_actions-Holds [] rows l given h k =
      ap (◌++◌ given) (load_jsonl-Holds rows l h ∙ sym (append-nil rows))
  run_actions-Holds (appended a ∷ more) rows l given h k =
      run_actions-Holds more (rows ++ a ∷ []) _ given (append_jsonl-Holds rows a k.0 l h) k.1
      ∙ ap (◌++◌ given) (append_assoc rows (a ∷ []) (appended_rows more))
  run_actions-Holds (drained ∷ more) rows l given h k =
      let drain = consume_actions-Holds rows l h in
      run_actions-Holds more [] _ (given ++ (consume_actions from_str all_well l).0) drain.1 k
      ∙ append_assoc given _ (appended_rows more)
      ∙ ap (λ r. given ++ (r ++ appended_rows more)) drain.0

  -- Whatever the order of appends and drains, while the system serves them: what the drains have given
  -- and what the file still holds are together the appended rows, each once and in their order.
  pub run_actions-appended_rows :
      (steps : List (ActionStep A))
      → All p.Printable (appended_rows steps)
      → (run_actions from_str to_string steps (LedgerFile.missing, [])).1
          ++ load_jsonl from_str true
              (run_actions from_str to_string steps (LedgerFile.missing, [])).0
        ≡ appended_rows steps
  run_actions-appended_rows steps printable =
      run_actions-Holds steps [] LedgerFile.missing [] (tt, refl) printable
