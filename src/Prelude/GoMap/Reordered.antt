-- ===== src/Prelude/GoMap/Reordered.antt =====
-- Two iterations over one Go map meet the same entries in some order.
use mathlib.Core.List.{Permᴰ}
use Prim.Native.String.{String}
use mathlib.Core.Path.{◌≡◌, refl, ap, ◌∙◌}
use mathlib.Core.Logic.{◌≢◌}
use mathlib.Core.List.{[], ◌∷◌}
use native.Mathlib.Omega.{arith}
use cqu_netprobe_gateway.Prelude.Lists.{All, length}
use cqu_netprobe_gateway.Prelude.Sort.{HasDistinctKeys, sort_by, sort_by-perm}
use cqu_netprobe_gateway.Prelude.GoMap.{GoMap, keys, IsMap}

module _ {ℓ} {V : Type ℓ} where
  pub keys-perm : {m n : GoMap V} → Permᴰ m n → Permᴰ (keys m) (keys n)
  keys-perm Permᴰ.nil = Permᴰ.nil
  keys-perm (Permᴰ.cons e p) = Permᴰ.cons (ap (λ (x : String × V). x.0) e) (keys-perm p)
  keys-perm (Permᴰ.swap e e') =
      Permᴰ.swap (ap (λ (x : String × V). x.0) e) (ap (λ (x : String × V). x.0) e')
  keys-perm (Permᴰ.trans p q) = Permᴰ.trans (keys-perm p) (keys-perm q)

  pub length-perm : {m n : GoMap V} → Permᴰ m n → length m ≡ length n
  length-perm Permᴰ.nil = refl
  length-perm (Permᴰ.cons e p) = omega (arith, length-perm p)
  length-perm (Permᴰ.swap e e') = refl
  length-perm (Permᴰ.trans p q) = length-perm p ∙ length-perm q

  All-keys_ne : (k : String) (m : GoMap V) → All (λ e. k ≢ e.0) m → All (λ s. k ≢ s) (keys m)
  All-keys_ne k [] h = tt
  All-keys_ne k (e ∷ m) h = (h.0, All-keys_ne k m h.1)

  keys-HasDistinctKeys : (m : GoMap V) → IsMap m → HasDistinctKeys (λ s. s) (keys m)
  keys-HasDistinctKeys [] h = tt
  keys-HasDistinctKeys (e ∷ m) h = (All-keys_ne e.0 m h.0, keys-HasDistinctKeys m h.1)

  -- The sorted keys are the same for every iteration.
  pub sorted_keys-perm :
      {m n : GoMap V} → Permᴰ m n → IsMap m → sort_by (λ s. s) (keys m) ≡ sort_by (λ s. s) (keys n)
  sorted_keys-perm {m} p h = sort_by-perm (λ s. s) (keys-perm p) (keys-HasDistinctKeys m h)
