-- ===== src/Handlers/Mfa/Recovery.antt =====
-- mfa.go, `burnRecoveryCode`: a recovery code is spent by its use.
use mathlib.Core.List.{Memᴰ}
use log_monitor_tenex.Prelude.{
  ℕ, Text, Bool, true, false, none, some, List, [], ◌∷◌, ◌≡◌, refl, sym, ◌∙◌, inl, inr, arith,
  find?, keep_if, any, update_if, Option-cases, Bool-cases, ◌&&◌, ◌==◌,
}
use log_monitor_tenex.Store.Tables.{User, RecoveryCode}
use log_monitor_tenex.Store.Mfa.{
  unused_recovery_hashes, burn_recovery_code, is_unused_of, is_unused_code, hash_map,
}
use log_monitor_tenex.Api.{Api}
use log_monitor_tenex.Http.{serve}
use log_monitor_tenex.World.{World, ok, fails}
use log_monitor_tenex.Handlers.Mfa.{burn_recovery, normalize_recovery_code}

-- To range over a map is to meet the entries that it has, in some order.
abbrev pub Ranges : Api → Type 0
Ranges api =
    (turn : ℕ) (p : ℕ × Text → Bool) (entries : List (ℕ × Text))
    → any p (api.range_map turn entries) ≡ any p entries

abbrev spend : RecoveryCode → RecoveryCode
spend c = record c { used = true }

-- After a code was spent no unused one has its identifier.
any-spent :
    (id : ℕ) (cs : List RecoveryCode)
    → any (is_unused_code id) (update_if (is_unused_code id) spend cs) ≡ false
any-spent id [] = refl
any-spent id (c ∷ cs) = elim (Bool-cases (is_unused_code id c)) [
  | inl hit ↦ ground (arith, any-spent id cs)
  | inr miss ↦ ground (arith, any-spent id cs)
]

find?-any :
    (p : ℕ × Text → Bool) (es : List (ℕ × Text)) {e : ℕ × Text}
    → find? p es ≡ some e
    → any (λ (x : ℕ × Text). p x && x.0 == e.0) es ≡ true
find?-any p [] h = cc
find?-any p (x ∷ es) {e} h = elim (Bool-cases (p x)) [
  | inl hit ↦ ground arith
  | inr miss ↦ ground (arith, find?-any p es {e = e})
]

any-none : (p : ℕ × Text → Bool) (es : List (ℕ × Text)) → any p es ≡ false → find? p es ≡ none
any-none p [] h = refl
any-none p (x ∷ es) h = ground (arith, any-none p es)

-- An entry of the map is a row of the table.
any-hash_map :
    (r : ℕ × Text → Bool) (u : RecoveryCode → Bool) (cs : List RecoveryCode)
    → any r (hash_map (keep_if u cs)) ≡ true
    → (c : RecoveryCode) × Memᴰ c cs × (u c ≡ true) × (r (c.id, c.code_hash) ≡ true)
any-hash_map r u [] h = cc
any-hash_map r u (c ∷ cs) h = elim (Bool-cases (u c && r (c.id, c.code_hash))) [
  | inl hit ↦ (c, Memᴰ.head refl, ground arith, ground arith)
  | inr miss ↦ let (d, m, s, t) = any-hash_map r u cs (ground arith) in (d, Memᴰ.tail m, s, t)
]

module _ (api : Api) (user : User) (input : Text) (w : World) where
  fits : RecoveryCode → Bool
  fits c = api.verify_password (normalize_recovery_code input) c.code_hash

  abbrev fits_entry : ℕ × Text → Bool
  fits_entry e = api.verify_password (normalize_recovery_code input) e.1

  abbrev entries : List (ℕ × Text)
  entries = hash_map (keep_if (is_unused_of user.id) w.db.recovery_codes)

  row_of :
      Ranges api
      → {e : ℕ × Text} → find? fits_entry (api.range_map w.fresh entries) ≡ some e
      → (c : RecoveryCode) × Memᴰ c w.db.recovery_codes
        × (is_unused_of user.id c ≡ true)
        × (fits c ≡ true)
        × (c.id ≡ e.0)
  unfolding fits
  row_of ranges {e} found =
      let r : ℕ × Text → Bool = λ x. fits_entry x && x.0 == e.0 in
      let there =
        sym (ranges w.fresh r entries)
        ∙ find?-any fits_entry (api.range_map w.fresh entries) {e = e} found in
      let (c, m, unused, both) = any-hash_map r (is_unused_of user.id) w.db.recovery_codes there in
      (c, m, unused, ground arith, ground arith)

-- A recovery code that is accepted is an unused one of the user whose hash fits what was typed, in
-- whatever order the codes are tried; from then on it counts as used, so that no unused code has its
-- identifier, and the other codes are as they were.
pub burn_recovery_spends :
    (api : Api) (user : User) (input : Text) (w : World)
    → Ranges api
    → (burn_recovery api user input w).0 ≡ ok true
    → (c : RecoveryCode) × Memᴰ c w.db.recovery_codes
      × (is_unused_of user.id c ≡ true)
      × (api.verify_password (normalize_recovery_code input) c.code_hash ≡ true)
      × ((burn_recovery api user input w).1.db.recovery_codes
          ≡ update_if (is_unused_code c.id) (λ d. record d { used = true }) w.db.recovery_codes)
      × (any (is_unused_code c.id) (burn_recovery api user input w).1.db.recovery_codes ≡ false)
unfolding burn_recovery unused_recovery_hashes burn_recovery_code serve fits
burn_recovery_spends api user input w ranges h = elim (Bool-cases (fails w)) [
  | inl down ↦
      let nothing =
        any-none (fits_entry api user input w) (api.range_map w.fresh [])
          (ranges w.fresh (fits_entry api user input w) []) in
      absurd (ground arith)
  | inr up ↦
      elim (Option-cases
        (find? (fits_entry api user input w) (api.range_map w.fresh (entries api user input w)))) [
          | inl no_fit ↦ absurd (ground arith)
          | inr ((id, hash), e) ↦
              let (c, m, unused, fit, same) = row_of api user input w ranges {e = (id, hash)} e in
              let spent = any-spent c.id w.db.recovery_codes in
              (c, m, unused, fit, ground arith, ground arith)
        ]
]
