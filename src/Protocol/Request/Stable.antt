-- ===== src/Protocol/Request/Stable.antt =====
-- The verdict on a request, its first error included, does not depend on the order in which Go
-- iterates over the maps of the request.
use mathlib.Core.List.{Permᴰ}
use mathlib.Core.Path.{fun_ext}
use cqu_netprobe_gateway.Prelude.{
  ℕ, suc, String, Bool, true, false, Option, none, some, List, [], ◌∷◌, ◌==◌, ◌≡◌, inl, inr, refl,
  ap, ap₂, ◌∙◌, arith, All, length, Option-cases, if◌then◌else◌,
}
use cqu_netprobe_gateway.Prelude.GoMap.{GoMap, lookup, keys, IsMap, lookup-perm}
use cqu_netprobe_gateway.Prelude.GoMap.Reordered.{length-perm, sorted_keys-perm}
use cqu_netprobe_gateway.Prelude.Sort.{All-perm}
use cqu_netprobe_gateway.Protocol.Errors.{◌>>=◌}
use cqu_netprobe_gateway.Protocol.Types.{Allowlist, Measurement, Results, PushRequest}
use cqu_netprobe_gateway.Protocol.Request.{
  sort_strings, check_type, check_types, check_target_types, check_target, check_targets,
  at_least_one, check_results, check_header, validate_request,
}
use cqu_netprobe_gateway.Protocol.Request.Accepts.{AreMaps}

-- The same targets in the same order, each with its measurements in some order.
abbrev pub SameTargets : Results → Results → Type 0
SameTargets [] [] = Unit
SameTargets ((s, a) ∷ m) ((t, b) ∷ n) = (s ≡ t) × Permᴰ a b × SameTargets m n
SameTargets _ _ = ⊥

-- One request, iterated over twice.
pub record Reordered (m n : Results) : Type 0 where
  pub mid : Results
  pub targets_perm : Permᴰ m mid
  pub types_perm : SameTargets mid n

check_types-congr :
    (allowed : GoMap Bool) (a b : GoMap Measurement) (total : ℕ) (types : List String)
    → ((k : String) → lookup k a ≡ lookup k b)
    → check_types allowed a total types ≡ check_types allowed b total types
unfolding check_types check_type
check_types-congr allowed a b total [] h = refl
check_types-congr allowed a b total (pt ∷ types) h =
    rw (h pt, check_types-congr allowed a b (suc total) types h)

check_target_types-perm :
    (allowed : GoMap Bool) (a b : GoMap Measurement) (total : ℕ)
    → Permᴰ a b
    → IsMap a
    → check_target_types allowed a total ≡ check_target_types allowed b total
unfolding check_target_types sort_strings
check_target_types-perm allowed [] [] total p h = refl
check_target_types-perm allowed [] (y ∷ b) total p h = absurd (omega (arith, length-perm p))
check_target_types-perm allowed (x ∷ a) [] total p h = absurd (omega (arith, length-perm p))
check_target_types-perm allowed (x ∷ a) (y ∷ b) total p h =
    ap (check_types allowed (x ∷ a) total) (sorted_keys-perm p h)
    ∙ check_types-congr allowed (x ∷ a) (y ∷ b) total _ (λ k. lookup-perm k p h)

-- What two lookups of one target give.
data SameLookup : Option (GoMap Measurement) → Option (GoMap Measurement) → Type 0 where
  absent : SameLookup none none
  present : {a b : GoMap Measurement} → Permᴰ a b → IsMap a → SameLookup (some a) (some b)

lookup-SameTargets :
    (k : String) (m n : Results)
    → SameTargets m n
    → All (λ e. IsMap e.1) m
    → SameLookup (lookup k m) (lookup k n)
unfolding lookup
lookup-SameTargets k [] [] h i = absent
lookup-SameTargets k [] (f ∷ n) h i = absurd h
lookup-SameTargets k (e ∷ m) [] h i = absurd h
lookup-SameTargets k ((s, a) ∷ m) ((t, b) ∷ n) (e, p, h) (i, is) =
    rw (← e) (at_key (s == k) (lookup-SameTargets k m n h is))
  where
    at_key :
        (hit : Bool)
        → SameLookup (lookup k m) (lookup k n)
        → SameLookup (if hit then some a else lookup k m) (if hit then some b else lookup k n)
    at_key true later = present p i
    at_key false later = later

keys-SameTargets : (m n : Results) → SameTargets m n → keys m ≡ keys n
keys-SameTargets [] [] h = refl
keys-SameTargets [] (f ∷ n) h = absurd h
keys-SameTargets (e ∷ m) [] h = absurd h
keys-SameTargets ((s, a) ∷ m) ((t, b) ∷ n) (e, p, h) = ap₂ ◌∷◌ e (keys-SameTargets m n h)

module _ (al : Allowlist) where
  check_target-SameLookup :
      {o p : Option (GoMap Measurement)} (t : String) (total : ℕ)
      → SameLookup o p
      → check_target al o t total ≡ check_target al p t total
  unfolding check_target
  check_target-SameLookup t total absent = refl
  check_target-SameLookup t total (present {a} {b} p h) = elim (Option-cases (lookup t al)) [
    | inl e ↦ rw (e, check_target)
    | inr (allowed, e) ↦ rw (e, check_target) (check_target_types-perm allowed a b total p h)
  ]

  check_targets-congr :
      (m n : Results) (total : ℕ) (targets : List String)
      → ((t : String) (i : ℕ) → check_target al (lookup t m) t i ≡ check_target al (lookup t n) t i)
      → check_targets al m total targets ≡ check_targets al n total targets
  unfolding check_targets
  check_targets-congr m n total [] h = refl
  check_targets-congr m n total (t ∷ targets) h =
      ap₂ ◌>>=◌ (h t total) (fun_ext (λ total'. check_targets-congr m n total' targets h))

  check_results-Permᴰ :
      (m n : Results) → Permᴰ m n → IsMap m → check_results al m ≡ check_results al n
  unfolding check_results sort_strings
  check_results-Permᴰ m n p h =
      ap (λ r. r >>= at_least_one)
        (ap (check_targets al m 0) (sorted_keys-perm p h)
          ∙ check_targets-congr m n 0 _
              (λ t i. ap (λ o. check_target al o t i) (lookup-perm t p h)))

  check_results-SameTargets :
      (m n : Results)
      → SameTargets m n
      → All (λ e. IsMap e.1) m
      → check_results al m ≡ check_results al n
  unfolding check_results
  check_results-SameTargets m n p h =
      ap (λ r. r >>= at_least_one)
        (ap (λ ks. check_targets al m 0 (sort_strings ks)) (keys-SameTargets m n p)
          ∙ check_targets-congr m n 0 _
              (λ t i. check_target-SameLookup t i (lookup-SameTargets t m n p h)))

length-SameTargets : (m n : Results) → SameTargets m n → length m ≡ length n
length-SameTargets [] [] h = refl
length-SameTargets [] (f ∷ n) h = absurd h
length-SameTargets (e ∷ m) [] h = absurd h
length-SameTargets (e ∷ m) (f ∷ n) h = ap suc (length-SameTargets m n h.2)

-- However Go iterates over the request's maps, `Validate` gives the same answer, with the same
-- first error.
pub validate_request-Reordered :
    (al : Allowlist) (current : String) (r : PushRequest) (results : Results)
    → AreMaps r.results
    → Reordered r.results results
    → validate_request al current r ≡ validate_request al current (record r { results = results })
unfolding validate_request check_header
validate_request-Reordered al current r results (maps, inner) o =
    let same_length : length r.results ≡ length results =
      length-perm o.targets_perm ∙ length-SameTargets o.mid results o.types_perm in
    let same_results : check_results al r.results ≡ check_results al results =
      check_results-Permᴰ al r.results o.mid o.targets_perm maps
      ∙ check_results-SameTargets al o.mid results o.types_perm
          (All-perm (λ e. e.0) (λ e. IsMap e.1) o.targets_perm inner) in
    rw (same_length, same_results)
