-- ===== src/Startup/Attempts.antt =====
-- The attempts to reach the database.
use mathlib.Core.Path.{subst}
use log_monitor_tenex.Prelude.{
  ℕ, zero, suc, ◌+◌, ◌*◌, ◌≤◌, ◌<◌, Bool, true, false, ◌≡◌, refl, ap, ◌∙◌, arith, ◌==◌, ==_iff, inl,
  inr, Bool-cases,
}
use log_monitor_tenex.Startup.{
  Connection, connected, interrupted, unreachable, retry, connect_with_retry,
}

next_wait : (k w : ℕ) → 2 * w + k ≡ k * k → 2 * (w + k) + suc k ≡ suc k * suc k
next_wait k w h = grind arith

whole_wait : (k w : ℕ) → k ≡ 11 → 2 * w + k ≡ k * k → w ≡ 55
whole_wait k w e h = let at : 2 * w + k ≡ 11 * 11 = h ∙ ap (λ n. n * n) e in omega (arith, at)

module _ (connects stopped : ℕ → Bool) where
  -- Before an attempt none succeeded, and the process was not told to stop.
  abbrev pub Tried : ℕ → Type 0
  Tried k = (j : ℕ) → 1 ≤ j → j < k → (connects j ≡ false) × (stopped j ≡ false)

  -- How the outcome came about. The wait before attempt k is 1 + 2 + … + (k - 1) half seconds.
  abbrev pub Explained : Connection → Type 0
  Explained (connected k waited) =
      (1 ≤ k) × (k ≤ 10) × Tried k × (connects k ≡ true) × (2 * waited + k ≡ k * k)
  Explained (interrupted k) =
      (1 ≤ k) × (k ≤ 10) × Tried k × (connects k ≡ false) × (stopped k ≡ true)
  Explained (unreachable waited) = Tried 11 × (waited ≡ 55)

  Tried-suc : (k : ℕ) → Tried k → connects k ≡ false → stopped k ≡ false → Tried (suc k)
  Tried-suc k h c s j lo hi = elim (Bool-cases (j == k)) [
    | inl e ↦ let same : j ≡ k = (==_iff j k).0 e in rw same (c, s)
    | inr e ↦ h j lo (ground (arith, e))
  ]

  retry-Explained :
      (left k waited : ℕ)
      → left + k ≡ 11
      → 1 ≤ k
      → Tried k
      → 2 * waited + k ≡ k * k
      → Explained (retry connects stopped left k waited)
  unfolding retry
  retry-Explained zero k waited size low h w =
      let last : k ≡ 11 = omega arith in (subst Tried last h, whole_wait k waited last w)
  retry-Explained (suc left) k waited size low h w = elim (Bool-cases (connects k)) [
    | inl c ↦ rw c (low, omega arith, h, c, w)
    | inr c ↦ elim (Bool-cases (stopped k)) [
      | inl s ↦ rw (c, s) (low, omega arith, h, c, s)
      | inr s ↦
          rw (c, s)
            (retry-Explained left (suc k) (waited + k) (omega arith) (omega arith)
              (Tried-suc k h c s) (next_wait k waited w))
    ]
  ]

-- The loop ends. With a store from the first attempt that succeeds, of ten at most, after waits that
-- grow by half a second each; or at the first attempt after which the process is told to stop; or,
-- where none of the ten succeeds, with an error after 27.5 seconds.
pub connect_with_retry_lem :
    (connects stopped : ℕ → Bool) → Explained connects stopped (connect_with_retry connects stopped)
unfolding connect_with_retry
connect_with_retry_lem connects stopped =
    retry-Explained connects stopped 10 1 0 refl (omega arith) (λ j lo hi. absurd (omega arith))
      refl
