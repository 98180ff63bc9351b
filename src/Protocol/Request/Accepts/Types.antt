-- ===== src/Protocol/Request/Accepts/Types.antt =====
-- The inner loop: the measurements of one target.
use cqu_netprobe_gateway.Prelude.{
  ℕ, suc, ◌+◌, ◌<◌, String, Bool, true, Option, none, some, List, [], ◌∷◌, ◌≡◌, ◌≢◌, ◌↔◌, inl, inr,
  refl, ap, ◌∙◌, eq_iff, arith, All, All-imp, length, Option-cases,
}
use cqu_netprobe_gateway.Prelude.GoMap.{GoMap, lookup, keys, IsMap, All-keys_iff}
use cqu_netprobe_gateway.Prelude.Sort.{All-sort_by_iff, length-sort_by}
use cqu_netprobe_gateway.Protocol.Errors.{Error, ok, err}
use cqu_netprobe_gateway.Protocol.Types.{ProbeType, probe_icmp, probe_dns, probe_http, Measurement}
use cqu_netprobe_gateway.Protocol.Measurement.{validate_measurement}
use cqu_netprobe_gateway.Protocol.Request.{
  sort_strings, or_empty, is_probe_type, check_type, check_types, check_target_types,
}
use cqu_netprobe_gateway.Protocol.Request.Accepts.{IsProbeType, IsAcceptedType}

is_probe_type_iff : (pt : ProbeType) → (is_probe_type pt ≡ true) ↔ IsProbeType pt
unfolding is_probe_type
is_probe_type_iff pt =
    ground (arith, eq_iff pt probe_icmp, eq_iff pt probe_dns, eq_iff pt probe_http)

check_type_iff :
    (allowed : GoMap Bool) (by_type : GoMap Measurement) (pt : ProbeType)
    → (check_type allowed by_type pt ≡ none) ↔ (
        IsProbeType pt
        × (lookup pt allowed ≡ some true)
        × (validate_measurement pt (or_empty (lookup pt by_type)) ≡ none))
unfolding check_type
check_type_iff allowed by_type pt = ground (arith, is_probe_type_iff pt)

pub length-sort_strings : (l : List String) → length (sort_strings l) ≡ length l
unfolding sort_strings
length-sort_strings l = length-sort_by (λ s. s) l

pub err-ne-ok {ℓ} : {A : Type ℓ} {e : Error} {a : A} → err e ≡ ok a → ⊥
err-ne-ok h = cc

module _ (allowed : GoMap Bool) (by_type : GoMap Measurement) where
  check_types_sound :
      (types : List String) (total n : ℕ)
      → check_types allowed by_type total types ≡ ok n
      → All (λ pt. check_type allowed by_type pt ≡ none) types × (n ≡ length types + total)
  unfolding check_types
  check_types_sound [] total n h = (tt, ground arith)
  check_types_sound (pt ∷ types) total n h = elim (Option-cases (check_type allowed by_type pt)) [
    | inl e ↦
        let rest = check_types_sound types (suc total) n (rw (e, check_types) at h) in
        ((e, rest.0), omega (arith, rest.1))
    | inr (x, e) ↦ absurd (err-ne-ok (rw (e, check_types) at h))
  ]

  check_types_complete :
      (types : List String) (total : ℕ)
      → All (λ pt. check_type allowed by_type pt ≡ none) types
      → check_types allowed by_type total types ≡ ok (length types + total)
  unfolding check_types
  check_types_complete [] total h = ap ok (omega arith)
  check_types_complete (pt ∷ types) total (h, hs) =
      rw h (check_types_complete types (suc total) hs ∙ ap ok (omega arith))

  Passes : String → Option Measurement → Type 0
  Passes pt o =
      IsProbeType pt
      × (lookup pt allowed ≡ some true)
      × (validate_measurement pt (or_empty o) ≡ none)

  checks_iff :
      IsMap by_type
      → All (λ pt. check_type allowed by_type pt ≡ none) (sort_strings (keys by_type))
        ↔ All (IsAcceptedType allowed) by_type
  unfolding sort_strings Passes
  checks_iff maps =
      let sorted =
        All-sort_by_iff (λ s. s) (λ pt. check_type allowed by_type pt ≡ none) (keys by_type) in
      let entries = All-keys_iff Passes by_type maps in
      (
        λ a. entries.0 (All-imp (λ pt. (check_type_iff allowed by_type pt).0) _ (sorted.0 a)),
        λ a. sorted.1 (All-imp (λ pt. (check_type_iff allowed by_type pt).1) _ (entries.1 a)),
      )

pub check_target_types_sound :
    (allowed : GoMap Bool) (by_type : GoMap Measurement) (total n : ℕ)
    → check_target_types allowed by_type total ≡ ok n
    → IsMap by_type
    → (by_type ≢ []) × All (IsAcceptedType allowed) by_type × (total < n)
unfolding check_target_types
check_target_types_sound allowed [] total n h maps = absurd (err-ne-ok h)
check_target_types_sound allowed (e ∷ m) total n h maps =
    let (passed, count) =
      check_types_sound allowed (e ∷ m) (sort_strings (keys (e ∷ m))) total n h in
    (
      (λ q. cc),
      (checks_iff allowed (e ∷ m) maps).0 passed,
      omega (arith, count, length-sort_strings (keys (e ∷ m))),
    )

pub check_target_types_complete :
    (allowed : GoMap Bool) (by_type : GoMap Measurement) (total : ℕ)
    → IsMap by_type
    → by_type ≢ []
    → All (IsAcceptedType allowed) by_type
    → check_target_types allowed by_type total ≡ ok (length (sort_strings (keys by_type)) + total)
unfolding check_target_types
check_target_types_complete allowed [] total maps ne a = absurd (ne refl)
check_target_types_complete allowed (e ∷ m) total maps ne a =
    check_types_complete allowed (e ∷ m) (sort_strings (keys (e ∷ m))) total
      ((checks_iff allowed (e ∷ m) maps).1 a)
