-- ===== src/Parser/Csv/RoundTrip.antt =====
-- Plain rows, written line by line, are read back.
use log_monitor_tenex.Prelude.{
  all-append, ℕ, Text, Bool, true, false, none, List, [], ◌∷◌, ◌++◌, ◌≡◌, refl, ap, ◌∙◌, ◌==◌, ◌&&◌,
  arith, join, map, all, not,
}
use mathlib.Core.List.{append_assoc, append-nil}
use log_monitor_tenex.Parser.{row}
use log_monitor_tenex.Parser.Csv.{
  read_text, between, at_field, in_plain, newline, quote, carriage_return, records, plain_lines,
}

-- A byte that has no meaning to the reader.
abbrev pub is_plain : ℕ → ℕ → Bool
is_plain comma c =
    not (c == comma) && not (c == newline) && not (c == quote) && not (c == carriage_return)

-- A row of such cells that is not an empty line.
abbrev pub is_plain_row : ℕ → List Text → Bool
is_plain_row comma [] = false
is_plain_row comma ([] ∷ []) = false
is_plain_row comma cells = all (λ cell. all (is_plain comma) cell) cells

-- Rows written line by line.
unfoldable pub written : ℕ → List (List Text) → Text
written comma [] = []
written comma (r ∷ rs) = join comma r ++ newline ∷ written comma rs

-- A separator that `encoding/csv` accepts.
abbrev pub is_separator : ℕ → Bool
is_separator comma =
    not (comma == newline) && not (comma == quote) && not (comma == carriage_return)

abbrev no_return : ℕ → Bool
no_return c = not (c == carriage_return)

module _ (comma : ℕ) where
  plain-append :
      (p rest : Text) (fields : List Text) (field : Text)
      → all (is_plain comma) p ≡ true
      → records comma in_plain fields field (p ++ rest)
        ≡ records comma in_plain fields (field ++ p) rest
  unfolding records
  plain-append [] rest fields field h = rw append-nil
  plain-append (c ∷ p) rest fields field h =
      ground (arith, plain-append p rest fields (field ++ c ∷ []), append_assoc field (c ∷ []) p)

  -- What follows a whole plain cell.
  cell-append :
      (p rest : Text) (d : ℕ) (fields : List Text)
      → all (is_plain comma) p ≡ true
      → d == quote ≡ false
      → records comma at_field fields [] (p ++ d ∷ rest)
        ≡ records comma in_plain fields p (d ∷ rest)
  unfolding records
  cell-append [] rest d fields h hd = ground arith
  cell-append (c ∷ p) rest d fields h hd = ground (arith, plain-append p (d ∷ rest) fields (c ∷ []))

  module _ (good : is_separator comma ≡ true) where
    end-cell :
        (fields : List Text) (p rest : Text)
        → records comma in_plain fields p (newline ∷ rest)
          ≡ (fields ++ p ∷ []) ∷ records comma between [] [] rest
    unfolding records
    end-cell fields p rest = refl

    next-cell :
        (fields : List Text) (p rest : Text)
        → records comma in_plain fields p (comma ∷ rest)
          ≡ records comma at_field (fields ++ p ∷ []) [] rest
    unfolding records
    next-cell fields p rest = ground arith

    row-append :
        (p : Text) (cells : List Text) (fields : List Text) (rest : Text)
        → all (λ cell. all (is_plain comma) cell) (p ∷ cells) ≡ true
        → records comma at_field fields [] (join comma (p ∷ cells) ++ newline ∷ rest)
          ≡ (fields ++ p ∷ cells) ∷ records comma between [] [] rest
    unfolding join
    row-append p [] fields rest h =
        cell-append p rest newline fields (ground arith) refl ∙ end-cell fields p rest
    row-append p (q ∷ cells) fields rest h =
        rw
          (
            append_assoc p (comma ∷ join comma (q ∷ cells)) (newline ∷ rest),
            cell-append p (join comma (q ∷ cells) ++ newline ∷ rest) comma fields (ground arith)
                (ground arith),
            next-cell fields p (join comma (q ∷ cells) ++ newline ∷ rest),
            row-append q cells (fields ++ p ∷ []) rest (ground arith),
          )
          (ap (λ (r : List Text). r ∷ records comma between [] [] rest)
            (append_assoc fields (p ∷ []) (q ∷ cells)))

    -- Before a record and at its first field the reader does the same, but for an empty line.
    begin-row :
        (p : Text) (cells : List Text) (rest : Text)
        → is_plain_row comma (p ∷ cells) ≡ true
        → records comma between [] [] (join comma (p ∷ cells) ++ newline ∷ rest)
          ≡ records comma at_field [] [] (join comma (p ∷ cells) ++ newline ∷ rest)
    unfolding join records
    begin-row [] [] rest h = cc
    begin-row [] (q ∷ cells) rest h = ground arith
    begin-row (c ∷ p) [] rest h = ground arith
    begin-row (c ∷ p) (q ∷ cells) rest h = ground arith

    plain_lines_lem : (s : Text) → all no_return s ≡ true → plain_lines s ≡ s
    unfolding plain_lines
    plain_lines_lem [] h = refl
    plain_lines_lem (c ∷ []) h = ground arith
    plain_lines_lem (c ∷ d ∷ s) h = ground (arith, plain_lines_lem (d ∷ s))

    -- Nothing of a written text is a `\r`.
    cell-no_return : (p : Text) → all (is_plain comma) p ≡ true → all no_return p ≡ true
    cell-no_return [] h = refl
    cell-no_return (c ∷ p) h = ground (arith, cell-no_return p)

    join-no_return :
        (cells : List Text)
        → all (λ cell. all (is_plain comma) cell) cells ≡ true
        → all no_return (join comma cells) ≡ true
    unfolding join
    join-no_return [] h = refl
    join-no_return (p ∷ []) h = cell-no_return p (ground arith)
    join-no_return (p ∷ q ∷ cells) h =
        all-append no_return p (comma ∷ join comma (q ∷ cells)) (cell-no_return p (ground arith))
          (ground (arith, join-no_return (q ∷ cells)))

    row-cells :
        (cells : List Text)
        → is_plain_row comma cells ≡ true
        → all (λ cell. all (is_plain comma) cell) cells ≡ true
    row-cells [] h = refl
    row-cells ([] ∷ []) h = refl
    row-cells ([] ∷ q ∷ cells) h = h
    row-cells ((c ∷ p) ∷ cells) h = h

    written-no_return :
        (rows : List (List Text))
        → all (is_plain_row comma) rows ≡ true
        → all no_return (written comma rows) ≡ true
    unfolding written
    written-no_return [] h = refl
    written-no_return (r ∷ rows) h =
        all-append no_return (join comma r) (newline ∷ written comma rows)
          (join-no_return r (row-cells r (ground arith))) (ground (arith, written-no_return rows))

    records-written :
        (rows : List (List Text))
        → all (is_plain_row comma) rows ≡ true
        → records comma between [] [] (written comma rows) ≡ rows
    unfolding written
    records-written [] h = nothing
      where
        nothing : records comma between [] [] [] ≡ []
        nothing = unfold records in refl
    records-written ([] ∷ rows) h = cc
    records-written ((p ∷ cells) ∷ rows) h =
        begin-row p cells (written comma rows) (ground arith)
        ∙ row-append p cells [] (written comma rows) (row-cells (p ∷ cells) (ground arith))
        ∙ ap (λ (rs : List (List Text)). (p ∷ cells) ∷ rs) (records-written rows (ground arith))

    pub read_text-written :
        (rows : List (List Text))
        → all (is_plain_row comma) rows ≡ true
        → read_text (written comma rows) comma ≡ record { answers = map row rows; ending = none }
    unfolding read_text
    read_text-written rows h =
        rw (plain_lines_lem (written comma rows) (written-no_return rows h), records-written rows h)
          refl
