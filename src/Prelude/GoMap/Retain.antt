-- ===== src/Prelude/GoMap/Retain.antt =====
-- A loop over a map that deletes the entries failing a test.
use Prim.Native.String.{String}
use Prim.Native.Nat.{◌≤◌}
use mathlib.Core.Path.{◌≡◌, refl}
use mathlib.Core.Logic.{◌≢◌, inl, inr}
use mathlib.Core.Bool.{Bool}
use mathlib.Core.Option.{Option, none, some}
use mathlib.Core.List.{[], ◌∷◌}
use native.Mathlib.Omega.{arith}
use text.Mathlib.TextEquality.{eq_iff}
use cqu_netprobe_gateway.Prelude.Tests.{if◌then◌else◌, Bool-cases}
use cqu_netprobe_gateway.Prelude.Lists.{All, length}
use cqu_netprobe_gateway.Prelude.GoMap.{GoMap, IsMap, lookup, lookup-absent}

module _ {ℓ} {V : Type ℓ} (p : V → Bool) where
  unfoldable pub retain : GoMap V → GoMap V
  retain [] = []
  retain ((name, value) ∷ m) = let rest = retain m in if p value then (name, value) ∷ rest else rest

  abbrev pub keep_if : Option V → Option V
  keep_if none = none
  keep_if (some v) = if p v then some v else none

  pub length-retain-le : (m : GoMap V) → length (retain m) ≤ length m
  unfolding retain
  length-retain-le [] = omega arith
  length-retain-le ((name, value) ∷ m) = ground (arith, length-retain-le m)

  pub All-retain {κ} : (P : String × V → Type κ) (m : GoMap V) → All P m → All P (retain m)
  unfolding retain
  All-retain P [] a = tt
  All-retain P ((name, value) ∷ m) a = ground (arith, All-retain P m a.1)

  pub retain-IsMap : (m : GoMap V) → IsMap m → IsMap (retain m)
  unfolding retain
  retain-IsMap [] h = tt
  retain-IsMap ((name, value) ∷ m) h = elim (Bool-cases (p value)) [
    | inl e ↦ rw (e, retain) (All-retain (λ y. name ≢ y.0) m h.0, retain-IsMap m h.1)
    | inr e ↦ rw (e, retain) (retain-IsMap m h.1)
  ]

  -- What is left of a map with distinct keys.
  pub lookup-retain :
      (k : String) (m : GoMap V) → IsMap m → lookup k (retain m) ≡ keep_if (lookup k m)
  unfolding retain lookup
  lookup-retain k [] h = refl
  lookup-retain k ((name, value) ∷ m) h =
      ground (arith, eq_iff name k, lookup-retain k m h.1, lookup-here name h.0)
    where
      lookup-here : (j : String) → All (λ y. j ≢ y.0) m → lookup j m ≡ none
      lookup-here j a = lookup-absent j m a
