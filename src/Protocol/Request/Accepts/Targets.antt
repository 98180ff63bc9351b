-- ===== src/Protocol/Request/Accepts/Targets.antt =====
-- The outer loop: the targets of a request.
use cqu_netprobe_gateway.Prelude.{
  ℕ, ◌+◌, ◌≤◌, ◌<◌, String, Bool, Option, none, some, List, [], ◌∷◌, ◌≡◌, ◌↔◌, inl, inr, refl,
  arith, All, length, Option-cases,
}
use cqu_netprobe_gateway.Prelude.GoMap.{GoMap, lookup, keys, IsMap, All-keys_iff}
use cqu_netprobe_gateway.Prelude.Sort.{All-sort_by_iff}
use cqu_netprobe_gateway.Protocol.Errors.{Result, ok, >>=-eq-ok}
use cqu_netprobe_gateway.Protocol.Types.{Allowlist, Measurement, Results}
use cqu_netprobe_gateway.Protocol.Request.{
  sort_strings, check_target_types, check_target, check_targets,
}
use cqu_netprobe_gateway.Protocol.Request.Accepts.{IsAcceptedTarget, AreMaps}
use cqu_netprobe_gateway.Protocol.Request.Accepts.Types.{
  err-ne-ok, check_target_types_sound, check_target_types_complete,
}

-- The same of one target, as the outer loop reads it.
abbrev pub TargetOk : Allowlist → String → Option (GoMap Measurement) → Type 0
TargetOk al t none = ⊥
TargetOk al t (some by_type) = IsAcceptedTarget al (t, by_type)

abbrev pub InnerMap : String → Option (GoMap Measurement) → Type 0
InnerMap t none = Unit
InnerMap t (some by_type) = IsMap by_type

module _ (al : Allowlist) where
  check_target_sound :
      (o : Option (GoMap Measurement)) (t : String) (total n : ℕ)
      → check_target al o t total ≡ ok n
      → InnerMap t o
      → TargetOk al t o × (total < n)
  unfolding check_target
  check_target_sound o t total n h maps = elim (Option-cases (lookup t al)) [
    | inl e ↦ absurd (err-ne-ok (rw (e, check_target) at h))
    | inr (allowed, e) ↦ known o allowed e (rw (e, check_target) at h) maps
  ]
    where
      known :
          (o : Option (GoMap Measurement)) (allowed : GoMap Bool)
          → lookup t al ≡ some allowed
          → elim o as (λ _. Result ℕ) [
            | none ↦ check_target_types allowed [] total
            | some m ↦ check_target_types allowed m total
          ]
            ≡ ok n
          → InnerMap t o
          → TargetOk al t o × (total < n)
      known none allowed e h maps =
          absurd ((check_target_types_sound allowed [] total n h tt).0 refl)
      known (some m) allowed e h maps =
          let (ne, a, grew) = check_target_types_sound allowed m total n h maps in
          (record { allowed = allowed; known = e; some_type = ne; types = a }, grew)

  check_target_complete :
      (o : Option (GoMap Measurement)) (t : String) (total : ℕ)
      → InnerMap t o
      → TargetOk al t o
      → (n : ℕ) × (check_target al o t total ≡ ok n) × (total ≤ n)
  unfolding check_target
  check_target_complete none t total maps a = absurd a
  check_target_complete (some m) t total maps a = (
    length (sort_strings (keys m)) + total,
    rw (a.known, check_target)
        (check_target_types_complete a.allowed m total maps a.some_type a.types),
    omega arith,
  )

  module _ (results : Results) where
    pub check_targets_sound :
        (targets : List String) (total n : ℕ)
        → check_targets al results total targets ≡ ok n
        → All (λ t. InnerMap t (lookup t results)) targets
        → All (λ t. TargetOk al t (lookup t results)) targets × (length targets + total ≤ n)
    unfolding check_targets
    check_targets_sound [] total n h maps = (tt, ground arith)
    check_targets_sound (t ∷ targets) total n h maps =
        let (total', e, h') = >>=-eq-ok _ _ h in
        let (here, grew) = check_target_sound (lookup t results) t total total' e maps.0 in
        let (rest, more) = check_targets_sound targets total' n h' maps.1 in
        ((here, rest), omega arith)

    pub check_targets_complete :
        (targets : List String) (total : ℕ)
        → All (λ t. InnerMap t (lookup t results)) targets
        → All (λ t. TargetOk al t (lookup t results)) targets
        → (n : ℕ) × (check_targets al results total targets ≡ ok n)
    unfolding check_targets
    check_targets_complete [] total maps a = (total, refl)
    check_targets_complete (t ∷ targets) total maps a =
        let (total', e, grew) = check_target_complete (lookup t results) t total maps.0 a.0 in
        let (n, h) = check_targets_complete targets total' maps.1 a.1 in (n, rw e h)

    pub targets_iff :
        AreMaps results
        → All (λ t. TargetOk al t (lookup t results)) (sort_strings (keys results))
          ↔ All (IsAcceptedTarget al) results
    unfolding sort_strings
    targets_iff (maps, inner) =
        let sorted =
          All-sort_by_iff (λ s. s) (λ t. TargetOk al t (lookup t results)) (keys results) in
        let entries = All-keys_iff (TargetOk al) results maps in
        (λ a. entries.0 (sorted.0 a), λ a. sorted.1 (entries.1 a))

    pub inner_maps :
        AreMaps results → All (λ t. InnerMap t (lookup t results)) (sort_strings (keys results))
    unfolding sort_strings
    inner_maps (maps, inner) =
        (All-sort_by_iff (λ s. s) (λ t. InnerMap t (lookup t results)) (keys results)).1
          ((All-keys_iff InnerMap results maps).1 inner)
