-- ===== src/Prelude/Sort.antt =====
-- `sort.Strings`, and `sort.Slice` by a text key. Any comparison sort gives the same list where the
-- keys are distinct.
use mathlib.Core.List.Permᴰ
use mathlib.Core.List.{Permᴰ}
use Prim.Native.Nat.{suc}
use Prim.Native.String.{String}
use mathlib.Core.Path.{◌≡◌, refl, sym, ap, ap₂, subst, subst₂, ◌∙◌}
use mathlib.Core.Logic.{◌≢◌, ◌↔◌, inl, inr}
use mathlib.Core.Bool.{true}
use mathlib.Core.List.{List, [], ◌∷◌}
use native.Mathlib.Omega.{arith}
use text.Mathlib.Text.{◌==◌}
use text.Mathlib.TextEquality.{eq_iff}
use cqu_netprobe_gateway.Prelude.Tests.{if◌then◌else◌, Bool-cases}
use cqu_netprobe_gateway.Prelude.Lists.{All, length}
use cqu_netprobe_gateway.Prelude.Text.{text_le, text_le_trans, text_le_total, text_le_antisymm}

module _ {ℓ} {A : Type ℓ} (key : A → String) where
  insert_by : A → List A → List A
  insert_by x [] = x ∷ []
  insert_by x (y ∷ ys) = if text_le (key x) (key y) then x ∷ y ∷ ys else y ∷ insert_by x ys

  unfoldable pub sort_by : List A → List A
  unfolding insert_by text_le
  sort_by [] = []
  sort_by (x ∷ xs) = insert_by x (sort_by xs)

  -- No two elements have the same key.
  abbrev pub HasDistinctKeys : List A → Type 0
  HasDistinctKeys [] = Unit
  HasDistinctKeys (x ∷ xs) = All (λ y. key x ≢ key y) xs × HasDistinctKeys xs

  insert_by_comm :
      (x y : A) (l : List A)
      → key x ≢ key y
      → insert_by x (insert_by y l) ≡ insert_by y (insert_by x l)
  unfolding insert_by
  insert_by_comm x y [] h =
      ground (arith, text_le_total (key x) (key y), text_le_antisymm (key x) (key y))
  insert_by_comm x y (z ∷ l) h = ground (
    arith,
    insert_by_comm x y l h,
    text_le_total (key x) (key y),
    text_le_antisymm (key x) (key y),
    text_le_trans (key x) (key y) (key z),
    text_le_trans (key y) (key x) (key z),
  )

  pub All-perm {κ} : (P : A → Type κ) {xs ys : List A} → Permᴰ xs ys → All P xs → All P ys
  All-perm P Permᴰ.nil h = tt
  All-perm P (Permᴰ.cons e p) h = (subst P e h.0, All-perm P p h.1)
  All-perm P (Permᴰ.swap e e') h = (subst P e' h.1.0, (subst P e h.0, h.1.1))
  All-perm P (Permᴰ.trans p q) h = All-perm P q (All-perm P p h)

  pub HasDistinctKeys-perm :
      {xs ys : List A} → Permᴰ xs ys → HasDistinctKeys xs → HasDistinctKeys ys
  HasDistinctKeys-perm Permᴰ.nil h = tt
  HasDistinctKeys-perm (Permᴰ.cons {l₂ = l} e p) h =
      (subst (λ a. All (λ y. key a ≢ key y) l) e (All-perm _ p h.0), HasDistinctKeys-perm p h.1)
  HasDistinctKeys-perm (Permᴰ.swap {a = a} {b = b} {l = l} e e') h =
      subst₂ (λ u v. HasDistinctKeys (u ∷ v ∷ l)) e' e ((λ q. h.0.0 (sym q), h.1.0), (h.0.1, h.1.1))
  HasDistinctKeys-perm (Permᴰ.trans p q) h = HasDistinctKeys-perm q (HasDistinctKeys-perm p h)

  -- The order in which the elements come does not matter.
  pub sort_by-perm : {xs ys : List A} → Permᴰ xs ys → HasDistinctKeys xs → sort_by xs ≡ sort_by ys
  unfolding sort_by
  sort_by-perm Permᴰ.nil h = refl
  sort_by-perm (Permᴰ.cons e p) h = ap₂ insert_by e (sort_by-perm p h.1)
  sort_by-perm (Permᴰ.swap {a = a} {b = b} {l = l} e e') h =
      insert_by_comm a b (sort_by l) h.0.0 ∙ ap₂ (λ u v. insert_by u (insert_by v (sort_by l))) e' e
  sort_by-perm (Permᴰ.trans p q) h = sort_by-perm p h ∙ sort_by-perm q (HasDistinctKeys-perm p h)

  insert_by-Permᴰ : (x : A) (l : List A) → Permᴰ (x ∷ l) (insert_by x l)
  unfolding insert_by
  insert_by-Permᴰ x [] = Permᴰ.cons refl Permᴰ.nil
  insert_by-Permᴰ x (y ∷ l) = elim (Bool-cases (text_le (key x) (key y))) [
    | inl e ↦ rw (e, insert_by) (Permᴰ.refl (x ∷ y ∷ l))
    | inr e ↦
        rw (e, insert_by)
          (Permᴰ.trans (Permᴰ.swap refl refl) (Permᴰ.cons refl (insert_by-Permᴰ x l)))
  ]

  -- The elements are those of the input.
  pub sort_by-Permᴰ : (l : List A) → Permᴰ l (sort_by l)
  unfolding sort_by
  sort_by-Permᴰ [] = Permᴰ.nil
  sort_by-Permᴰ (x ∷ l) =
      Permᴰ.trans (Permᴰ.cons refl (sort_by-Permᴰ l)) (insert_by-Permᴰ x (sort_by l))

  pub All-sort_by_iff {κ} : (P : A → Type κ) (l : List A) → All P (sort_by l) ↔ All P l
  All-sort_by_iff P l = (All-perm P (Permᴰ.symm (sort_by-Permᴰ l)), All-perm P (sort_by-Permᴰ l))

  -- Each key at most the next one.
  abbrev pub IsSortedBy : List A → Type 0
  IsSortedBy [] = Unit
  IsSortedBy (x ∷ l) = All (λ y. text_le (key x) (key y) ≡ true) l × IsSortedBy l

  All-le_trans :
      (x y : A) (l : List A)
      → text_le (key x) (key y) ≡ true
      → All (λ z. text_le (key y) (key z) ≡ true) l
      → All (λ z. text_le (key x) (key z) ≡ true) l
  All-le_trans x y [] h k = tt
  All-le_trans x y (z ∷ l) h k =
      (text_le_trans (key x) (key y) (key z) h k.0, All-le_trans x y l h k.1)

  insert_by-IsSortedBy : (x : A) (l : List A) → IsSortedBy l → IsSortedBy (insert_by x l)
  unfolding insert_by
  insert_by-IsSortedBy x [] h = (tt, tt)
  insert_by-IsSortedBy x (y ∷ l) h = elim (Bool-cases (text_le (key x) (key y))) [
    | inl e ↦ rw (e, insert_by) ((e, All-le_trans x y l e h.0), h)
    | inr e ↦
        rw (e, insert_by)
          (
            All-perm (λ z. text_le (key y) (key z) ≡ true) (insert_by-Permᴰ x l)
                (ground (arith, text_le_total (key x) (key y)), h.0),
            insert_by-IsSortedBy x l h.1,
          )
  ]

  -- The result is in order.
  pub sort_by-IsSortedBy : (l : List A) → IsSortedBy (sort_by l)
  unfolding sort_by
  sort_by-IsSortedBy [] = tt
  sort_by-IsSortedBy (x ∷ l) = insert_by-IsSortedBy x (sort_by l) (sort_by-IsSortedBy l)

  length-insert_by : (x : A) (l : List A) → length (insert_by x l) ≡ suc (length l)
  unfolding insert_by
  length-insert_by x [] = refl
  length-insert_by x (y ∷ l) = ground (arith, length-insert_by x l)

  pub length-sort_by : (l : List A) → length (sort_by l) ≡ length l
  unfolding sort_by
  length-sort_by [] = refl
  length-sort_by (x ∷ l) = length-insert_by x (sort_by l) ∙ ap suc (length-sort_by l)

string_insert_comm :
    (x y : String) (l : List String)
    → insert_by (λ s. s) x (insert_by (λ s. s) y l) ≡ insert_by (λ s. s) y (insert_by (λ s. s) x l)
string_insert_comm x y l = elim (Bool-cases (x == y)) [
  | inl e ↦
      ap₂ (λ u v. insert_by (λ s. s) u (insert_by (λ s. s) v l)) ((eq_iff x y).0 e)
        (sym ((eq_iff x y).0 e))
  | inr e ↦ insert_by_comm (λ s. s) x y l (λ q. ground (arith, eq_iff x y))
]

-- `sort.Strings` does not need distinct texts: equal ones cannot be told apart.
pub sort_strings-perm :
    {xs ys : List String} → Permᴰ xs ys → sort_by (λ s. s) xs ≡ sort_by (λ s. s) ys
unfolding sort_by
sort_strings-perm Permᴰ.nil = refl
sort_strings-perm (Permᴰ.cons e p) = ap₂ (insert_by (λ s. s)) e (sort_strings-perm p)
sort_strings-perm (Permᴰ.swap {a = a} {b = b} {l = l} e e') =
    string_insert_comm a b (sort_by (λ s. s) l)
    ∙ ap₂ (λ u v. insert_by (λ s. s) u (insert_by (λ s. s) v (sort_by (λ s. s) l))) e' e
sort_strings-perm (Permᴰ.trans p q) = sort_strings-perm p ∙ sort_strings-perm q
