-- ===== src/Ledger/Recorded.antt =====
-- A commit that succeeds has a row of the target in each ledger, and finds it again.
use asrsub.Prelude.{
  ◌≡◌, refl, sym, ap, ◌∙◌, subst, Bool, true, false, ◌||◌, List, [], ◌∷◌, ◌++◌, map, map-append,
  All, All-append, Option, none, some, Option-cases, if◌then◌else◌, Bool-cases, inl, inr,
}
use asrsub.Text.{Text, lines, drop_cr, nl, cr}
use asrsub.Text.Split.{Lacks, drop_cr-Lacks}
use asrsub.Report.{Result}
use asrsub.Json.{Json}
use asrsub.Ledger.{LedgerIdentity, has_identity}
use asrsub.Ledger.Lines.{unlines, lines-unlines, unlines-snoc}
use asrsub.Ledger.Files.{
  CommitLedgerError, LedgerFile, StepIo, ReadIo, AppendIo, append_if_absent, after_search, append,
  find_row, Found, Step, scan, newer, same_row, canonical_line, write_line,
}

-- What the documentation of `serde_json` says of a printed row: one line, which reads back.
pub record IsPrinted (J : Json) (row : J.Value) : Type 0 where
  pub line : Text
  pub printed : J.to_string row ≡ some line
  pub reads_back : J.from_str line ≡ some row
  pub no_nl : Lacks nl line
  pub no_cr : Lacks cr line
  pub equals_itself : J.equal row row ≡ true

-- The lines of the text, each of which a line feed ends.
abbrev pub LinesOf : Text → Type 0
LinesOf t = (ls : List Text) × All (Lacks nl) ls × (t ≡ unlines ls)

-- No row of a regular file lacks its line feed.
abbrev pub IsLineEnded : LedgerFile → Type 0
IsLineEnded (LedgerFile.file t) = LinesOf t
IsLineEnded _ = Unit

module _ (J : Json) (identity : LedgerIdentity) (row : J.Value) where
  -- A search of the file finds a row of the identity that is `row` but for its time.
  abbrev pub Recorded : LedgerFile → Type 0
  Recorded l =
      (existing : J.Value) × (find_row J ReadIo.opened identity l ≡ Result.ok (some existing))
      × (same_row J existing row ≡ true)

  module _ (mine : has_identity J identity row ≡ true) (p : IsPrinted J row) where
    scan-snoc :
        (found g : Option J.Value) (ls : List Text)
        → scan J identity found ls ≡ Result.ok g
        → scan J identity found (ls ++ p.line ∷ []) ≡ Result.ok (some row)
    unfolding scan
    scan-snoc found g [] e = rw (p.reads_back, mine, scan) refl
    scan-snoc found g (l ∷ ls) e = elim (Option-cases (J.from_str l)) [
      | inl h ↦ absurd (refused h)
      | inr (v, h) ↦ rw (h, scan) (scan-snoc (newer J identity v found) g ls (goes_on v h))
    ]
      where
        refused : J.from_str l ≡ none → ⊥
        refused h =
            let stops : scan J identity found (l ∷ ls) ≡ Result.err CommitLedgerError.storage =
              rw (h, scan) refl in
            cc

        goes_on :
            (v : J.Value)
            → J.from_str l ≡ some v
            → scan J identity (newer J identity v found) ls ≡ Result.ok g
        goes_on v h = sym (rw (h, scan) refl) ∙ e

    -- The file with the row behind its lines
    find_row-written :
        (t : Text) (g : Option J.Value)
        → LinesOf t
        → find_row J ReadIo.opened identity (LedgerFile.file t) ≡ Result.ok g
        → (find_row J ReadIo.opened identity (LedgerFile.file (t ++ (p.line ++ nl ∷ [])))
            ≡ Result.ok (some row))
          × LinesOf (t ++ (p.line ++ nl ∷ []))
    unfolding find_row
    find_row-written t g (ls, whole, same) e = (
      ap (λ x. scan J identity none (lines x)) text
          ∙ ap (scan J identity none) (lines-unlines (ls ++ p.line ∷ []) longer ∙ mapped)
          ∙ scan-snoc none g (map drop_cr ls) (
              sym (
                ap (λ x. scan J identity none (lines x)) same
                ∙ ap (scan J identity none) (lines-unlines ls whole))
              ∙ e),
      (ls ++ p.line ∷ [], longer, text),
    )
      where
        longer : All (Lacks nl) (ls ++ p.line ∷ [])
        longer = All-append (Lacks nl) ls (p.line ∷ []) whole (p.no_nl, tt)

        text : t ++ (p.line ++ nl ∷ []) ≡ unlines (ls ++ p.line ∷ [])
        text = ap (λ x. x ++ (p.line ++ nl ∷ [])) same ∙ sym (unlines-snoc ls p.line)

        mapped : map drop_cr (ls ++ p.line ∷ []) ≡ map drop_cr ls ++ p.line ∷ []
        mapped =
            map-append drop_cr ls (p.line ∷ [])
            ∙ ap (λ x. map drop_cr ls ++ x ∷ []) (drop_cr-Lacks p.line p.no_cr)

    -- The file is recorded and ended by a line feed, if the step succeeded.
    abbrev pub Good : Step Unit → Type 0
    Good step = step.0 ≡ Result.ok tt → Recorded step.1 × IsLineEnded step.1

    canonical_line-printed : canonical_line J row ≡ Result.ok (p.line ++ nl ∷ [])
    unfolding canonical_line
    canonical_line-printed = rw (p.printed, canonical_line) refl

    written-Good :
        (outcome : AppendIo) (t : Text) (g : Option J.Value)
        → LinesOf t
        → find_row J ReadIo.opened identity (LedgerFile.file t) ≡ Result.ok g
        → Good (write_line J outcome t (Result.ok (p.line ++ nl ∷ [])))
    written-Good AppendIo.written t g ended e =
        λ done. let found = find_row-written t g ended e in ((row, found.0, same), found.1)
      where
        same : same_row J row row ≡ true
        same = ap (λ b. b || asrsub.Ledger.rows_equal_ignoring_timestamp J row row) p.equals_itself
    written-Good AppendIo.not_opened t g ended e = λ done. absurd cc
    written-Good (AppendIo.torn n) t g ended e = λ done. absurd cc
    written-Good AppendIo.unsynced t g ended e = λ done. absurd cc

    write_line-Good :
        (outcome : AppendIo) (t : Text) (g : Option J.Value)
        → LinesOf t
        → find_row J ReadIo.opened identity (LedgerFile.file t) ≡ Result.ok g
        → Good (write_line J outcome t (canonical_line J row))
    write_line-Good outcome t g ended e =
        subst (λ line. Good (write_line J outcome t line)) (sym canonical_line-printed)
          (written-Good outcome t g ended e)

    empty_file : find_row J ReadIo.opened identity (LedgerFile.file []) ≡ Result.ok none
    unfolding find_row
    empty_file = unfold scan lines asrsub.Text.split_char asrsub.Text.end_lines in refl

    append-Good :
        (outcome : AppendIo) (l : LedgerFile)
        → IsLineEnded l
        → find_row J ReadIo.opened identity l ≡ Result.ok none
        → Good (append J outcome row l)
    unfolding append
    append-Good AppendIo.not_opened l ended e = λ done. absurd cc
    append-Good AppendIo.written LedgerFile.missing ended e =
        write_line-Good AppendIo.written [] none ([], tt, refl) empty_file
    append-Good (AppendIo.torn n) LedgerFile.missing ended e =
        write_line-Good (AppendIo.torn n) [] none ([], tt, refl) empty_file
    append-Good AppendIo.unsynced LedgerFile.missing ended e =
        write_line-Good AppendIo.unsynced [] none ([], tt, refl) empty_file
    append-Good AppendIo.written LedgerFile.dangling ended e =
        write_line-Good AppendIo.written [] none ([], tt, refl) empty_file
    append-Good (AppendIo.torn n) LedgerFile.dangling ended e =
        write_line-Good (AppendIo.torn n) [] none ([], tt, refl) empty_file
    append-Good AppendIo.unsynced LedgerFile.dangling ended e =
        write_line-Good AppendIo.unsynced [] none ([], tt, refl) empty_file
    append-Good AppendIo.written (LedgerFile.file t) ended e =
        write_line-Good AppendIo.written t none ended e
    append-Good (AppendIo.torn n) (LedgerFile.file t) ended e =
        write_line-Good (AppendIo.torn n) t none ended e
    append-Good AppendIo.unsynced (LedgerFile.file t) ended e =
        write_line-Good AppendIo.unsynced t none ended e
    append-Good AppendIo.written LedgerFile.other ended e = λ done. absurd cc
    append-Good (AppendIo.torn n) LedgerFile.other ended e = λ done. absurd cc
    append-Good AppendIo.unsynced LedgerFile.other ended e = λ done. absurd cc

    after_search-Good :
        (outcome : AppendIo) (l : LedgerFile) (found : Found J)
        → IsLineEnded l
        → find_row J ReadIo.opened identity l ≡ found
        → Good (after_search J outcome row l found)
    after_search-Good outcome l (Result.err e) ended searched = λ done. absurd cc
    after_search-Good outcome l (Result.ok none) ended searched =
        append-Good outcome l ended searched
    after_search-Good outcome l (Result.ok (some existing)) ended searched =
        elim (Bool-cases (same_row J existing row)) [
          | inl h ↦ λ done. ((existing, searched, h), ended)
          | inr h ↦ rw (h) (λ done. absurd cc)
        ]

    pub append_if_absent-Good :
        (step : StepIo) (l : LedgerFile)
        → step.read ≡ ReadIo.opened
        → IsLineEnded l
        → Good (append_if_absent J step identity row l)
    unfolding append_if_absent
    append_if_absent-Good step l reads ended = gate step.has_parent (
        subst (λ r. Good (after_search J step.append row l (find_row J r identity l))) (sym reads)
          (after_search-Good step.append l _ ended refl))
      where
        gate :
            (b : Bool)
            → Good (after_search J step.append row l (find_row J step.read identity l))
            → Good (
                if b
                then after_search J step.append row l (find_row J step.read identity l)
                else (Result.err CommitLedgerError.io, l))
        gate true h = h
        gate false h = λ done. absurd cc
