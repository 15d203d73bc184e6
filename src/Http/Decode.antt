-- ===== src/Http/Decode.antt =====
-- httpx.go, `Decode` and `DecodeOptional`: the body of a request, in JSON, up to a size.
use log_monitor_tenex.Prelude.{
  ℕ, ◌^◌, Text, Bool, Option, none, some, ◌≡◌, arith, take, length, ltb,
}

-- encoding/json: what `Decode` of a decoder that refuses unknown fields gives for the bytes it can
-- read, and whether these end at the limit of `http.MaxBytesReader` instead of at the end of the body.
-- `end_of_file` is `io.EOF`, the error where there is no value at all.
pub data Decoded (A : Type 0) : Type 0 where
  decoded : A → Decoded A
  end_of_file : Decoded A
  refused : Decoded A

abbrev pub Decoder : Type 0 → Type 0
Decoder A = Text → Bool → Decoded A

abbrev pub max_body : ℕ
max_body = 2 ^ 20

module _ {A : Type 0} where
  abbrev read : Decoder A → Text → Decoded A
  read decoder body = decoder (take max_body body) (ltb max_body (length body))

  -- `Decode`: the value, or `none` for an invalid request body.
  abbrev or_invalid : Decoded A → Option A
  or_invalid (decoded a) = some a
  or_invalid end_of_file = none
  or_invalid refused = none

  unfoldable pub decode : Decoder A → Text → Option A
  decode decoder body = or_invalid (read decoder body)

  -- `DecodeOptional`: without a body the value is as it was before.
  abbrev or_before : A → Decoded A → Option A
  or_before before (decoded a) = some a
  or_before before end_of_file = some before
  or_before before refused = none

  unfoldable pub decode_optional : Decoder A → A → Text → Option A
  decode_optional decoder before body = or_before before (read decoder body)

  both : (before : A) (r : Decoded A) {a : A} → or_invalid r ≡ some a → or_before before r ≡ some a
  both before (decoded b) h = h
  both before end_of_file h = absurd (ground arith)
  both before refused h = absurd (ground arith)

  -- A body that `Decode` accepts is accepted by `DecodeOptional`, with the same value.
  decode_optional-decode :
      (decoder : Decoder A) (before : A) (body : Text) {a : A}
      → decode decoder body ≡ some a
      → decode_optional decoder before body ≡ some a
  unfolding decode decode_optional
  decode_optional-decode decoder before body h = both before (read decoder body) h
