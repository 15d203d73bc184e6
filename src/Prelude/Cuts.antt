-- ===== src/Prelude/Cuts.antt =====
-- Texts cut at a character: `strings.Cut`, `strings.Split`, `strings.Join` and `strings.Count` for
-- separators of one character.
use Prim.Native.Nat.{ℕ, zero, suc}
use mathlib.Core.List.{List, [], ◌∷◌, ◌++◌}
use log_monitor_tenex.Prelude.Tests.{◌==◌, if◌then◌else◌}
use log_monitor_tenex.Prelude.Lists.{count_if}
use log_monitor_tenex.Prelude.Texts.{Text}

-- What stands before the first `c`, or the whole text.
unfoldable pub before : ℕ → Text → Text
before c [] = []
before c (d ∷ s) = let rest = before c s in if d == c then [] else d ∷ rest

abbrev onto_first : ℕ → List Text → List Text
onto_first d [] = (d ∷ []) ∷ []
onto_first d (p ∷ ps) = (d ∷ p) ∷ ps

unfoldable pub split : ℕ → Text → List Text
split c [] = [] ∷ []
split c (d ∷ s) = let rest = split c s in if d == c then [] ∷ rest else onto_first d rest

unfoldable pub join : ℕ → List Text → Text
join c [] = []
join c (p ∷ []) = p
join c (p ∷ q ∷ ps) = p ++ c ∷ join c (q ∷ ps)

unfoldable pub count_char : ℕ → Text → ℕ
count_char c s = count_if (λ d. d == c) s

abbrev pub take {ℓ} : {A : Type ℓ} → ℕ → List A → List A
take zero xs = []
take (suc n) [] = []
take (suc n) (x ∷ xs) = x ∷ take n xs
