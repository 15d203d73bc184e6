-- ===== src/Blob/Absence.antt =====
-- The deletion of what is gone already, which the interface promises to be no error.
use log_monitor_tenex.Prelude.{Text, Option, none, some, ◌≡◌, refl, ◌⊎◌, inl, inr, arith}
use log_monitor_tenex.Blob.{GcsClient, GcsError, not_exist, other, folded, gcs_delete}

-- An answer of the service that leaves the key absent.
abbrev pub IsGone : Option GcsError → Type 0
IsGone e = (e ≡ none) ⊎ (e ≡ some not_exist)

folded_none : (e : Option GcsError) → folded e ≡ none → IsGone e
folded_none none h = inl refl
folded_none (some not_exist) h = inr refl
folded_none (some (other t)) h = absurd (ground arith)

module _ {S : Type 0} (client : GcsClient S) (bucket key : Text) where
  -- Google's client reports a key as missing that is deleted, or was missing already.
  abbrev ReportsMissing : Type 0
  ReportsMissing =
      (s : S)
      → IsGone (client.delete bucket key s).0
      → (client.delete bucket key (client.delete bucket key s).1).0 ≡ some not_exist

  -- A deletion that succeeds can be repeated: where the service reports missing keys, the second one
  -- succeeds too.
  gcs_delete-gcs_delete :
      ReportsMissing
      → (s : S) → (gcs_delete client bucket key s).0 ≡ none
      → (gcs_delete client bucket key (gcs_delete client bucket key s).1).0 ≡ none
  unfolding gcs_delete
  gcs_delete-gcs_delete missing s h =
      rw (missing s (folded_none (client.delete bucket key s).0 h)) refl
