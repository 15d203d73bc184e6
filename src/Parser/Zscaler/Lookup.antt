-- ===== src/Parser/Zscaler/Lookup.antt =====
-- The column of a field is that of its first alias in the header, whatever the order of the map.
use log_monitor_tenex.Prelude.{
  ℕ, suc, Text, text_eq, Bool, true, false, Option, none, some, List, [], ◌∷◌, ◌≡◌, refl, ap,
  if◌then◌else◌, map, any, get_elem?, arith, Bool-cases, inl, inr, ==_iff, ==_refl,
}
use log_monitor_tenex.Parser.{normalize}
use log_monitor_tenex.Parser.Zscaler.Header.{
  Field, all_fields, Columns, field_number, same_field, aliases, column_of, taken, scan_names,
  scan_aliases, scan_fields, build_column_map,
}

-- The place of the first name that is an alias, counted from a number on.
abbrev pub place : Text → ℕ → List Text → Option ℕ
place alias i [] = none
place alias i (n ∷ names) =
    let rest = place alias (suc i) names in if text_eq n alias then some i else rest

abbrev pub or_later : Option ℕ → Option ℕ → Option ℕ
or_later none later = later
or_later (some i) later = some i

-- The place of the first alias that occurs at all.
abbrev pub first_place : List Text → List Text → Option ℕ
first_place [] names = none
first_place (alias ∷ rest) names = or_later (place alias 0 names) (first_place rest names)

field_at-number : (f : Field) → get_elem? all_fields (field_number f) ≡ some f
field_at-number Field.ts = refl
field_at-number Field.client_ip = refl
field_at-number Field.username = refl
field_at-number Field.host = refl
field_at-number Field.url = refl
field_at-number Field.category = refl
field_at-number Field.action = refl
field_at-number Field.req_bytes = refl
field_at-number Field.resp_bytes = refl
field_at-number Field.user_agent = refl
field_at-number Field.threat_name = refl
field_at-number Field.resp_code = refl
field_at-number Field.latency_ms = refl
field_at-number Field.method = refl
field_at-number Field.cache_status = refl
field_at-number Field.reason = refl

same_field→≡ : (f g : Field) → same_field f g ≡ true → f ≡ g
same_field→≡ f g h =
    let e = (==_iff (field_number f) (field_number g)).0 h in
    cc (field_at-number f, field_at-number g, ap (λ n. get_elem? all_fields n) e)

same_field_refl : (f : Field) → same_field f f ≡ true
same_field_refl f = ==_refl (field_number f)

module _ (f : Field) where
  own_names :
      (alias : Text) (i : ℕ) (names : List Text) (cols : Columns)
      → column_of f (scan_names f alias i names cols)
        ≡ or_later (column_of f cols) (place alias i names)
  unfolding scan_names column_of taken
  own_names alias i [] cols = ground arith
  own_names alias i (n ∷ names) cols =
      ground (arith, own_names alias (suc i) names cols, same_field_refl f)

  own_aliases :
      (known : List Text) (names : List Text) (cols : Columns)
      → column_of f (scan_aliases f known names cols)
        ≡ or_later (column_of f cols) (first_place known names)
  unfolding scan_aliases taken
  own_aliases [] names cols = ground arith
  own_aliases (alias ∷ known) names cols = ground (
    arith,
    own_aliases known names (scan_names f alias 0 names cols),
    own_names alias 0 names cols,
  )

  module _ (g : Field) (other : same_field f g ≡ false) where
    other_names :
        (alias : Text) (i : ℕ) (names : List Text) (cols : Columns)
        → column_of g (scan_names f alias i names cols) ≡ column_of g cols
    unfolding scan_names column_of taken
    other_names alias i [] cols = refl
    other_names alias i (n ∷ names) cols = ground (arith, other_names alias (suc i) names cols)

    other_aliases :
        (known : List Text) (names : List Text) (cols : Columns)
        → column_of g (scan_aliases f known names cols) ≡ column_of g cols
    unfolding scan_aliases taken
    other_aliases [] names cols = refl
    other_aliases (alias ∷ known) names cols = ground (
      arith,
      other_aliases known names (scan_names f alias 0 names cols),
      other_names alias 0 names cols,
    )

or_later-twice : (a b : Option ℕ) → or_later (or_later a b) b ≡ or_later a b
or_later-twice none none = refl
or_later-twice none (some x) = refl
or_later-twice (some x) b = refl

abbrev pub covers : List Field → Field → Bool
covers order g = any (λ f. same_field f g) order

same_aliases :
    (f g : Field) (names : List Text) (cols : Columns)
    → same_field f g ≡ true
    → column_of g (scan_aliases f (aliases f) names cols)
      ≡ or_later (column_of g cols) (first_place (aliases g) names)
same_aliases f g names cols h = cc (same_field→≡ f g h, own_aliases g (aliases g) names cols)

scan_fields-column :
    (g : Field) (order : List Field) (names : List Text) (cols : Columns)
    → column_of g (scan_fields order names cols) ≡ (
        if covers order g
        then or_later (column_of g cols) (first_place (aliases g) names)
        else column_of g cols)
unfolding scan_fields
scan_fields-column g [] names cols = refl
scan_fields-column g (f ∷ order) names cols = elim (Bool-cases (same_field f g)) [
  | inl e ↦ ground (
    arith,
    same_aliases f g names cols e,
    scan_fields-column g order names (scan_aliases f (aliases f) names cols),
    or_later-twice (column_of g cols) (first_place (aliases g) names),
  )
  | inr e ↦ ground (
    arith,
    other_aliases f g e (aliases f) names cols,
    scan_fields-column g order names (scan_aliases f (aliases f) names cols),
  )
]

-- Whatever the order in which Go gives the fields, if the field is among them: its column is that of
-- the first of its aliases that occurs among the normalized header cells, at its first place, and it
-- has none where no alias occurs.
pub build_column_map-column_of :
    (order : List Field) (g : Field) (header : List Text)
    → covers order g ≡ true
    → column_of g (build_column_map order header) ≡ first_place (aliases g) (map normalize header)
unfolding build_column_map
build_column_map-column_of order g header h =
    rw (scan_fields-column g order (map normalize header) [], h) refl
