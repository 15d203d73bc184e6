-- ===== src/Parser/Registry.antt =====
-- backend/gateway/internal/parser/parser.go: the registry of formats, in the order in which they were added. What a parser does with
-- a stream is an argument, since nothing here looks at it.
use log_monitor_tenex.Prelude.{
  Text, codes, text_eq, text_eq_refl, Bool, true, Option, none, some, List, [], ◌∷◌, ◌++◌, ◌≡◌,
  refl, map, find?, arith, if◌then◌else◌, Bool-cases, inl, inr,
}
use log_monitor_tenex.Parser.Zscaler.Header.{sniff}

-- `Parser`, with its methods as fields.
pub record Parser (P : Type 0) : Type 0 where
  pub key : Text
  pub sniffs : Text → Bool
  pub parse : P

module _ {P : Type 0} where
  -- `Register`
  unfoldable pub register : Parser P → List (Parser P) → List (Parser P)
  register p registry = registry ++ p ∷ []

  -- `Detect`
  unfoldable pub detect : Text → List (Parser P) → Option (Parser P)
  detect head registry = find? (λ (p : Parser P). p.sniffs head) registry

  -- `ByKey`
  unfoldable pub by_key : Text → List (Parser P) → Option (Parser P)
  by_key key registry = find? (λ (p : Parser P). text_eq p.key key) registry

  -- `Keys`
  unfoldable pub keys : List (Parser P) → List Text
  keys registry = map (λ (p : Parser P). p.key) registry

  -- The format of the package zscaler, which its `init` adds.
  abbrev pub zscaler : P → Parser P
  zscaler parse = record { key = codes "zscaler_nss"; sniffs = sniff; parse = parse }

  -- The registry of the program recognises what `Sniff` does.
  detect-zscaler :
      (parse : P) (head : Text)
      → detect head (register (zscaler parse) [])
        ≡ (if sniff head then some (zscaler parse) else none)
  unfolding detect register
  detect-zscaler parse head = elim (Bool-cases (sniff head)) [
    | inl named ↦ rw named refl
    | inr other ↦ rw other refl
  ]

  -- What was detected is found again under its key, unless one before it has the same.
  detect-by_key :
      (head : Text) (registry : List (Parser P)) {p : Parser P}
      → detect head registry ≡ some p
      → (q : Parser P) × (by_key p.key registry ≡ some q) × (text_eq q.key p.key ≡ true)
  unfolding detect by_key
  detect-by_key head [] h = absurd (ground arith)
  detect-by_key head (r ∷ rest) {p} h = elim (Bool-cases (text_eq r.key p.key)) [
    | inl same ↦ (r, rw same refl, same)
    | inr differs ↦ elim (Bool-cases (r.sniffs head)) [
      | inl named ↦ absurd (cc (text_eq_refl p.key))
      | inr other ↦
          let (q, found, same) = detect-by_key head rest {p = p} (rw other at h) in
          (q, rw differs found, same)
    ]
  ]
