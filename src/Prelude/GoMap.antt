-- ===== src/Prelude/GoMap.antt =====
-- Go's `map[string]V`: a list of entries with distinct keys, in the order of one iteration.
pub mod Reordered
pub mod Retain
use mathlib.Core.List.{Permᴰ}
use Prim.Native.String.{String}
use Prim.Native.Nat.{suc, ◌≤◌, ◌<◌}
use mathlib.Core.Path.{◌≡◌, refl, sym, ap, ap₂, subst, ◌∙◌}
use mathlib.Core.Logic.{◌≢◌, ◌↔◌, inl, inr}
use mathlib.Core.Option.{Option, none, some}
use mathlib.Core.List.{List, [], ◌∷◌}
use native.Mathlib.Omega.{arith}
use text.Mathlib.Text.{◌==◌}
use text.Mathlib.TextEquality.{eq_iff}
use cqu_netprobe_gateway.Prelude.Tests.{if◌then◌else◌, Bool-cases}
use cqu_netprobe_gateway.Prelude.Lists.{All, length}
use cqu_netprobe_gateway.Prelude.Sort.{HasDistinctKeys, HasDistinctKeys-perm}

abbrev pub GoMap {ℓ} : Type ℓ → Type ℓ
GoMap V = List (String × V)

module _ {ℓ} {V : Type ℓ} where
  abbrev pub keys : GoMap V → List String
  keys [] = []
  keys (e ∷ m) = e.0 ∷ keys m

  pub length-keys : (m : GoMap V) → length (keys m) ≡ length m
  length-keys [] = refl
  length-keys (e ∷ m) = ap suc (length-keys m)

  -- A Go map has one entry for a key.
  abbrev pub IsMap : GoMap V → Type 0
  IsMap = HasDistinctKeys (λ e. e.0)

  -- `m[key]` with its second result.
  unfoldable pub lookup : String → GoMap V → Option V
  lookup key [] = none
  lookup key ((name, value) ∷ rest) = if name == key then some value else lookup key rest

  -- `m[key] = value`.
  unfoldable pub insert : String → V → GoMap V → GoMap V
  insert key value [] = (key, value) ∷ []
  insert key value ((name, old) ∷ rest) =
      if name == key then (key, value) ∷ rest else (name, old) ∷ insert key value rest

  -- `delete(m, k)`.
  unfoldable pub erase : String → GoMap V → GoMap V
  erase k [] = []
  erase k ((j, w) ∷ m) = if j == k then erase k m else (j, w) ∷ erase k m

  pub lookup-insert :
      (key at : String) (value : V) (m : GoMap V)
      → lookup at (insert key value m) ≡ (if key == at then some value else lookup at m)
  unfolding lookup insert
  lookup-insert key at value [] = refl
  lookup-insert key at value ((name, old) ∷ rest) =
      ground
        (arith, eq_iff key at, eq_iff name key, eq_iff name at, lookup-insert key at value rest)

  pub lookup-erase :
      (k j : String) (m : GoMap V) → lookup j (erase k m) ≡ (if k == j then none else lookup j m)
  unfolding lookup erase
  lookup-erase k j [] = ground arith
  lookup-erase k j ((i, w) ∷ m) =
      ground (arith, eq_iff k j, eq_iff i k, eq_iff i j, lookup-erase k j m)

  pub lookup-insert_here : (k : String) (v : V) (m : GoMap V) → lookup k (insert k v m) ≡ some v
  lookup-insert_here k v m = ground (arith, lookup-insert k k v m, eq_iff k k)

  pub lookup-insert_other :
      (k j : String) (v : V) (m : GoMap V) → k ≢ j → lookup j (insert k v m) ≡ lookup j m
  lookup-insert_other k j v m h = ground (arith, lookup-insert k j v m, eq_iff k j)

  pub lookup-erase_here : (k : String) (m : GoMap V) → lookup k (erase k m) ≡ none
  lookup-erase_here k m = ground (arith, lookup-erase k k m, eq_iff k k)

  pub lookup-erase_other : (k j : String) (m : GoMap V) → k ≢ j → lookup j (erase k m) ≡ lookup j m
  lookup-erase_other k j m h = ground (arith, lookup-erase k j m, eq_iff k j)

  -- What is absent stays absent.
  pub lookup-erase_absent :
      (k j : String) (m : GoMap V) → lookup j m ≡ none → lookup j (erase k m) ≡ none
  lookup-erase_absent k j m h = ground (arith, lookup-erase k j m)

  pub All-insert {κ} :
      (P : String × V → Type κ) (k : String) (v : V) (m : GoMap V)
      → P (k, v)
      → All P m
      → All P (insert k v m)
  unfolding insert
  All-insert P k v [] h a = (h, tt)
  All-insert P k v ((j, w) ∷ m) h a = ground (arith, All-insert P k v m h)

  pub All-erase {κ} :
      (P : String × V → Type κ) (k : String) (m : GoMap V) → All P m → All P (erase k m)
  unfolding erase
  All-erase P k [] a = tt
  All-erase P k ((j, w) ∷ m) a = ground (arith, All-erase P k m)

  pub insert-IsMap : (k : String) (v : V) (m : GoMap V) → IsMap m → IsMap (insert k v m)
  unfolding insert
  insert-IsMap k v [] h = (tt, tt)
  insert-IsMap k v ((j, w) ∷ m) h = elim (Bool-cases (j == k)) [
    | inl e ↦ rw (e, insert) (subst (λ i. All (λ y. i ≢ y.0) m) ((eq_iff j k).0 e) h.0, h.1)
    | inr e ↦
        rw (e, insert)
          (
            All-insert (λ y. j ≢ y.0) k v m (λ q. ground (arith, eq_iff j k)) h.0,
            insert-IsMap k v m h.1,
          )
  ]

  pub erase-IsMap : (k : String) (m : GoMap V) → IsMap m → IsMap (erase k m)
  unfolding erase
  erase-IsMap k [] h = tt
  erase-IsMap k ((j, w) ∷ m) h = elim (Bool-cases (j == k)) [
    | inl e ↦ rw (e, erase) (erase-IsMap k m h.1)
    | inr e ↦ rw (e, erase) (All-erase (λ y. j ≢ y.0) k m h.0, erase-IsMap k m h.1)
  ]

  -- An absent key adds an entry, a present one replaces its own.
  pub length-insert :
      (k : String) (v : V) (m : GoMap V)
      → length (insert k v m) ≡ elim (lookup k m) [ none ↦ suc (length m) | some w ↦ length m ]
  unfolding insert lookup
  length-insert k v [] = refl
  length-insert k v ((j, w) ∷ m) = ground (arith, length-insert k v m)

  pub length-insert-le : (k : String) (v : V) (m : GoMap V) → length (insert k v m) ≤ suc (length m)
  unfolding insert
  length-insert-le k v [] = omega arith
  length-insert-le k v ((j, w) ∷ m) = ground (arith, length-insert-le k v m)

  pub length-insert_present :
      (k : String) (v w : V) (m : GoMap V) → lookup k m ≡ some w → length (insert k v m) ≡ length m
  length-insert_present k v w m h =
      length-insert k v m
      ∙ ap (λ (o : Option V). elim o [ none ↦ suc (length m) | some w ↦ length m ]) h

  -- What is found is an entry of the map.
  pub All-lookup {κ} :
      (P : String × V → Type κ) (k : String) (v : V) (m : GoMap V)
      → lookup k m ≡ some v
      → All P m
      → P (k, v)
  unfolding lookup
  All-lookup P k v [] h a = absurd (ground (arith, h))
  All-lookup P k v ((j, w) ∷ m) h a = elim (Bool-cases (j == k)) [
    | inl e ↦ subst P (ap₂ (λ i x. (i, x)) ((eq_iff j k).0 e) (some_inj (rw (e, lookup) at h))) a.0
    | inr e ↦ All-lookup P k v m (rw (e, lookup) at h) a.1
  ]
    where
      some_inj : {x y : V} → some x ≡ some y → x ≡ y
      some_inj e = ground (arith, e)

  pub length-erase-le : (k : String) (m : GoMap V) → length (erase k m) ≤ length m
  unfolding erase
  length-erase-le k [] = omega arith
  length-erase-le k ((j, w) ∷ m) = ground (arith, length-erase-le k m)

  pub length-erase-lt :
      (k : String) (m : GoMap V) → lookup k m ≢ none → length (erase k m) < length m
  unfolding erase lookup
  length-erase-lt k [] h = absurd (h refl)
  length-erase-lt k ((j, w) ∷ m) h = ground (arith, length-erase-lt k m, length-erase-le k m)

  pub lookup-absent : (k : String) (m : GoMap V) → All (λ e. k ≢ e.0) m → lookup k m ≡ none
  unfolding lookup
  lookup-absent k [] h = refl
  lookup-absent k ((j, w) ∷ m) h = ground (arith, eq_iff j k, lookup-absent k m h.1)

  -- The order of the entries does not show.
  pub lookup-perm : (k : String) {m n : GoMap V} → Permᴰ m n → IsMap m → lookup k m ≡ lookup k n
  unfolding lookup
  lookup-perm k Permᴰ.nil h = refl
  lookup-perm k (Permᴰ.cons e p) h =
      ap₂ (λ (x : String × V) (o : Option V). if x.0 == k then some x.1 else o) e
        (lookup-perm k p h.1)
  lookup-perm k (Permᴰ.swap {a = a} {b = b} {l = l} e e') h =
      lookup_swap a b l h.0.0 ∙ ap₂ (λ (x y : String × V). lookup k (x ∷ y ∷ l)) e' e
    where
      lookup_swap :
          (x y : String × V) (l : GoMap V) → x.0 ≢ y.0 → lookup k (x ∷ y ∷ l) ≡ lookup k (y ∷ x ∷ l)
      lookup_swap x y l ne = ground (arith, eq_iff x.0 k, eq_iff y.0 k)
  lookup-perm k (Permᴰ.trans p q) h =
      lookup-perm k p h ∙ lookup-perm k q (HasDistinctKeys-perm _ p h)

  lookup-skip : (k j : String) (v : V) (m : GoMap V) → j ≢ k → lookup k ((j, v) ∷ m) ≡ lookup k m
  unfolding lookup
  lookup-skip k j v m h = ground (arith, eq_iff j k)

  lookup-here : (k : String) (v : V) (m : GoMap V) → lookup k ((k, v) ∷ m) ≡ some v
  unfolding lookup
  lookup-here k v m = ground (arith, eq_iff k k)

  module _ {κ} (P : String → Option V → Type κ) where
    All-keys_skip :
        (j : String) (v : V) (m n : GoMap V)
        → All (λ e. j ≢ e.0) m
        → All (λ k. P k (lookup k ((j, v) ∷ n))) (keys m) ↔ All (λ k. P k (lookup k n)) (keys m)
    All-keys_skip j v [] n h = (λ a. a, λ a. a)
    All-keys_skip j v ((i, w) ∷ m) n h =
        let same = lookup-skip i j v n h.0 in
        let rest = All-keys_skip j v m n h.1 in
        (λ a. (subst (P i) same a.0, rest.0 a.1), λ a. (subst (P i) (sym same) a.0, rest.1 a.1))

    -- To walk the keys and read each is to walk the entries.
    pub All-keys_iff :
        (m : GoMap V)
        → IsMap m
        → All (λ k. P k (lookup k m)) (keys m) ↔ All (λ e. P e.0 (some e.1)) m
    All-keys_iff [] h = (λ a. a, λ a. a)
    All-keys_iff ((j, v) ∷ m) h =
        let here = lookup-here j v m in
        let skip = All-keys_skip j v m m h.0 in
        let rest = All-keys_iff m h.1 in
        (
          λ a. (subst (P j) here a.0, rest.0 (skip.0 a.1)),
          λ a. (subst (P j) (sym here) a.0, skip.1 (rest.1 a.1)),
        )
