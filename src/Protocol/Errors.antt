-- ===== src/Protocol/Errors.antt =====
-- internal/protocol/errors.go. A code is one of a closed set of constants.
use cqu_netprobe_gateway.Prelude.{String, Option, none, some, ◌≡◌, ◌⊎◌, inl, inr, ap, refl, arith}

pub data Code : Type 0 where
  invalid_request invalid_json invalid_payload unsupported_version invalid_target : Code
  invalid_probe_type unauthorized probe_disabled rate_limited config_stale : Code
  internal_error service_unavailable : Code

abbrev pub code_text : Code → String
code_text invalid_request = "invalid_request"
code_text invalid_json = "invalid_json"
code_text invalid_payload = "invalid_payload"
code_text unsupported_version = "unsupported_version"
code_text invalid_target = "invalid_target"
code_text invalid_probe_type = "invalid_probe_type"
code_text unauthorized = "unauthorized"
code_text probe_disabled = "probe_disabled"
code_text rate_limited = "rate_limited"
code_text config_stale = "config_stale"
code_text internal_error = "internal_error"
code_text service_unavailable = "service_unavailable"

pub record Error : Type 0 where
  pub code : Code
  pub message : String

abbrev pub new_error : Code → String → Error
new_error c m = record { code = c; message = m }

-- A value, or the error that took its place.
pub data Result {ℓ} (T : Type ℓ) : Type ℓ where
  err : Error → Result T
  ok : T → Result T

infixl 5 ◌>>=◌
abbrev pub ◌>>=◌ {ℓ κ} : {T : Type ℓ} {U : Type κ} → Result T → (T → Result U) → Result U
err problem >>= next = err problem
ok value >>= next = next value

-- Go's `if err := …; err != nil { return err }`.
infixl 5 ◌>>◌
abbrev pub ◌>>◌ {ℓ} : {B : Type ℓ} → Option Error → Result B → Result B
none >> k = k
some e >> k = err e

-- `nil` when a run that only checks got to its end.
abbrev pub error_of {ℓ} : {A : Type ℓ} → Result A → Option Error
error_of (ok a) = none
error_of (err e) = some e

pub >>=-eq-ok {ℓ κ} :
    {T : Type ℓ} {U : Type κ} (first : Result T) (next : T → Result U) {last : U}
    → (first >>= next) ≡ ok last
    → (value : T) × (first ≡ ok value) × (next value ≡ ok last)
>>=-eq-ok (err problem) next h = cc
>>=-eq-ok (ok value) next h = (value, refl, h)

pub ok_inj {ℓ} : {T : Type ℓ} {a b : T} → ok a ≡ ok b → a ≡ b
ok_inj h = ground (arith, h)

abbrev error_or {ℓ} : {T : Type ℓ} → Error → Result T → Error
error_or d (err e) = e
error_or d (ok a) = d

pub err_inj {ℓ} : {T : Type ℓ} {d e : Error} → ◌≡◌ {A = Result T} (err d) (err e) → d ≡ e
err_inj {d = d} h = ap (error_or d) h

-- A failed bind failed in one of its two parts.
pub >>=-eq-err {ℓ κ} :
    {T : Type ℓ} {U : Type κ} (first : Result T) (next : T → Result U) {e : Error}
    → (first >>= next) ≡ err e
    → (first ≡ err e) ⊎ ((value : T) × (first ≡ ok value) × (next value ≡ err e))
>>=-eq-err (err problem) next h = inl (ap err (err_inj h))
>>=-eq-err (ok value) next h = inr (value, refl, h)
