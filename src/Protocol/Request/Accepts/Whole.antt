-- ===== src/Protocol/Request/Accepts/Whole.antt =====
-- The request's own fields, and the whole verdict.
use Prim.Native.String.{len}
use cqu_netprobe_gateway.Prelude.{
  ℕ, ◌≤◌, ◌<◌, String, true, Option, none, some, [], ◌∷◌, ◌≡◌, ◌≢◌, ◌↔◌, ◌⊎◌, refl, eq_iff, arith,
  All, length, eqb,
}
use cqu_netprobe_gateway.Prelude.Int.{pos, ◌≤ℤ◌}
use cqu_netprobe_gateway.Prelude.GoMap.{length-keys, keys}
use cqu_netprobe_gateway.Protocol.Errors.{Error, Result, ok, err, ◌>>◌, error_of, >>=-eq-ok}
use cqu_netprobe_gateway.Protocol.Types.{version, Allowlist, Results, PushRequest}
use cqu_netprobe_gateway.Protocol.Request.{
  max_probe_version_len, max_config_id_len, sort_strings, at_least_one, check_results, check_header,
  validate_request,
}
use cqu_netprobe_gateway.Protocol.Request.Accepts.{IsAcceptedTarget, IsAccepted, AreMaps}
use cqu_netprobe_gateway.Protocol.Request.Accepts.Types.{length-sort_strings}
use cqu_netprobe_gateway.Protocol.Request.Accepts.Targets.{
  check_targets_sound, check_targets_complete, targets_iff, inner_maps,
}

-- What is asked of the request's own fields.
abbrev IsHeaderOk : PushRequest → String → Type 0
IsHeaderOk r current =
    (r.version ≡ version)
    × (len r.config_id ≤ max_config_id_len)
    × ((r.config_id ≡ "") ⊎ (r.config_id ≡ current))
    × (pos 0 ≤ℤ r.timestamp)
    × (len r.probe_version ≤ max_probe_version_len)
    × (r.results ≢ [])

length-eq-zero : (m : Results) → (eqb (length m) 0 ≡ true) ↔ (m ≡ [])
length-eq-zero [] = ground arith
length-eq-zero (e ∷ m) = ground arith

check_header_iff :
    (r : PushRequest) (current : String) → (check_header r current ≡ none) ↔ IsHeaderOk r current
unfolding check_header
check_header_iff r current =
    ground (arith, eq_iff r.config_id "", eq_iff r.config_id current, length-eq-zero r.results)

>>-eq-none {ℓ} :
    {A : Type ℓ} (o : Option Error) (r : Result A)
    → error_of (o >> r) ≡ none
    → (o ≡ none) × ((a : A) × (r ≡ ok a))
>>-eq-none none (ok a) h = (refl, (a, refl))
>>-eq-none none (err e) h = cc
>>-eq-none (some e) r h = cc

check_results_sound :
    (al : Allowlist) (results : Results) (n : ℕ)
    → AreMaps results
    → check_results al results ≡ ok n
    → All (IsAcceptedTarget al) results
unfolding check_results
check_results_sound al results n maps h =
    let (total, e, _) = >>=-eq-ok _ _ h in
    let (a, _) =
      check_targets_sound al results (sort_strings (keys results)) 0 total e
        (inner_maps al results maps) in
    (targets_iff al results maps).0 a

at_least_one_of_pos : (n : ℕ) → 0 < n → at_least_one n ≡ ok n
unfolding at_least_one
at_least_one_of_pos n h = ground arith

length-pos : (m : Results) → m ≢ [] → 0 < length m
length-pos [] h = absurd (h refl)
length-pos (e ∷ m) h = omega arith

check_results_complete :
    (al : Allowlist) (results : Results)
    → AreMaps results
    → results ≢ []
    → All (IsAcceptedTarget al) results
    → (n : ℕ) × (check_results al results ≡ ok n)
unfolding check_results
check_results_complete al results maps ne a =
    let inner = inner_maps al results maps in
    let names = sort_strings (keys results) in
    let (n, h) =
      check_targets_complete al results names 0 inner ((targets_iff al results maps).1 a) in
    let (_, enough) = check_targets_sound al results names 0 n h inner in
    let many : 0 < n = omega (
      arith,
      enough,
      length-pos results ne,
      length-sort_strings (keys results),
      length-keys results,
    ) in
    (n, rw h (at_least_one_of_pos n many))

-- `Validate` accepts exactly the requests that name this protocol version and a current
-- configuration, have fields within their bounds, and whose every measurement is permitted for its
-- target and valid.
pub validate_request_iff :
    (al : Allowlist) (current : String) (r : PushRequest)
    → AreMaps r.results
    → (validate_request al current r ≡ none) ↔ IsAccepted al current r
unfolding validate_request
validate_request_iff al current r maps = (
  λ h.
      let (header, (n, e)) = >>-eq-none (check_header r current) (check_results al r.results) h in
      let (a, b, c, d, l, ne) = (check_header_iff r current).0 header in
      record {
        version_ok = a;
        config_id_len = b;
        config_id_ok = c;
        timestamp_ok = d;
        probe_version_len = l;
        some_target = ne;
        targets = check_results_sound al r.results n maps e;
      },
  λ v.
      let header = (check_header_iff r current).1 (
        v.version_ok, v.config_id_len, v.config_id_ok, v.timestamp_ok, v.probe_version_len,
        v.some_target,
      ) in
      let (n, e) = check_results_complete al r.results maps v.some_target v.targets in
      rw (header, e),
)
