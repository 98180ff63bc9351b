-- ===== src/Protocol/Request/Staleness.antt =====
-- When a request is refused as stale.
use cqu_netprobe_gateway.Prelude.{
  ℕ, suc, String, Bool, Option, none, some, List, [], ◌∷◌, ◌≡◌, ◌≢◌, refl, ap, ◌∙◌, inl, inr,
  eq_iff, arith, Option-cases,
}
use cqu_netprobe_gateway.Prelude.GoMap.{GoMap, lookup, keys}
use cqu_netprobe_gateway.Protocol.Errors.{
  Error, Result, ok, err, error_of, >>=-eq-err, err_inj, config_stale,
}
use cqu_netprobe_gateway.Protocol.Types.{Allowlist, Measurement, Results, PushRequest}
use cqu_netprobe_gateway.Protocol.Measurement.Codes.{validate_measurement-code}
use cqu_netprobe_gateway.Protocol.Request.{
  sort_strings, or_empty, check_type, check_types, check_target_types, check_target, check_targets,
  at_least_one, check_results, check_header, validate_request,
}

-- An outcome that is not staleness.
abbrev NotStale : Option Error → Type 0
NotStale o = (e : Error) → o ≡ some e → e.code ≢ config_stale

abbrev NeverStale {ℓ} : {A : Type ℓ} → Result A → Type ℓ
NeverStale r = (e : Error) → r ≡ err e → e.code ≢ config_stale

check_header-stale :
    (r : PushRequest) (current : String) → r.config_id ≡ current → NotStale (check_header r current)
unfolding check_header
check_header-stale r current h e q stale = ground (arith, eq_iff r.config_id current)

check_type-stale :
    (allowed : GoMap Bool) (by_type : GoMap Measurement) (pt : String)
    → NotStale (check_type allowed by_type pt)
unfolding check_type
check_type-stale allowed by_type pt e q stale =
    ground (arith, q, stale, validate_measurement-code pt (or_empty (lookup pt by_type)) e)

check_types-stale :
    (allowed : GoMap Bool) (by_type : GoMap Measurement) (total : ℕ) (types : List String)
    → NeverStale (check_types allowed by_type total types)
unfolding check_types
check_types-stale allowed by_type total [] e q stale = ground (arith, q)
check_types-stale allowed by_type total (pt ∷ types) e q stale =
    elim (Option-cases (check_type allowed by_type pt)) [
      | inl n ↦ check_types-stale allowed by_type (suc total) types e (rw n at q) stale
      | inr (d, s) ↦
          check_type-stale allowed by_type pt d s
            (ap (λ (x : Error). x.code) (err_inj (rw s at q)) ∙ stale)
    ]

check_targets-stale :
    (al : Allowlist) (results : Results) (total : ℕ) (targets : List String)
    → NeverStale (check_targets al results total targets)
unfolding check_targets check_target check_target_types
check_targets-stale al results total [] e q stale = ground (arith, q)
check_targets-stale al results total (t ∷ targets) e q stale =
    elim (>>=-eq-err (check_target al (lookup t results) t total) _ q) [
      | inl here ↦ check_target-stale (lookup t results) e here stale
      | inr (total', _, later) ↦ check_targets-stale al results total' targets e later stale
    ]
  where
    types_of :
        (allowed : GoMap Bool) (m : GoMap Measurement)
        → NeverStale (check_target_types allowed m total)
    types_of allowed [] e q stale = ground (arith, q)
    types_of allowed (x ∷ m) e q stale = check_types-stale allowed (x ∷ m) total _ e q stale

    known_target :
        (o : Option (GoMap Measurement)) (known : Option (GoMap Bool))
        → lookup t al ≡ known
        → NeverStale (check_target al o t total)
    known_target o none k e q stale = ground (arith, rw (k, check_target) at q)
    known_target none (some allowed) k e q stale =
        types_of allowed [] e (rw (k, check_target) at q) stale
    known_target (some m) (some allowed) k e q stale =
        types_of allowed m e (rw (k, check_target) at q) stale

    check_target-stale : (o : Option (GoMap Measurement)) → NeverStale (check_target al o t total)
    check_target-stale o = known_target o (lookup t al) refl

check_results-stale : (al : Allowlist) (results : Results) → NeverStale (check_results al results)
unfolding check_results at_least_one
check_results-stale al results e q stale =
    elim (>>=-eq-err (check_targets al results 0 (sort_strings (keys results))) _ q) [
      | inl here ↦ check_targets-stale al results 0 _ e here stale
      | inr (total, _, last) ↦ ground (arith, last)
    ]

-- A request that names the current configuration is never refused as stale.
pub validate_request-stale :
    (al : Allowlist) (current : String) (r : PushRequest) (e : Error)
    → r.config_id ≡ current
    → validate_request al current r ≡ some e
    → e.code ≢ config_stale
unfolding validate_request
validate_request-stale al current r e h q stale = elim (Option-cases (check_header r current)) [
  | inl n ↦ results_error (check_results al r.results) refl (rw n at q)
  | inr (d, s) ↦
      check_header-stale r current h d s (ap (λ (x : Error). x.code) (some_inj (rw s at q)) ∙ stale)
]
  where
    some_inj : {x y : Error} → some x ≡ some y → x ≡ y
    some_inj p = ground (arith, p)

    results_error : (o : Result ℕ) → check_results al r.results ≡ o → error_of o ≡ some e → ⊥
    results_error (ok n) f p = ground (arith, p)
    results_error (err d) f p =
        check_results-stale al r.results d f (ap (λ (x : Error). x.code) (some_inj p) ∙ stale)
