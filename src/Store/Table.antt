-- ===== src/Store/Table.antt =====
-- The SQL statements of internal/store on one table: the rows in the order of their insertion, and
-- a WHERE clause that compares a column with a text.
pub mod Unique
pub mod Columns
use cqu_netprobe_gateway.Prelude.{
  ℕ, suc, String, ◌≡◌, refl, subst, ◌≢◌, ◌↔◌, inl, inr, Bool, true, false, Option, none, some, List,
  ◌||◌, [], ◌∷◌, ◌++◌, arith, ◌==◌, eq_iff, if◌then◌else◌, Bool-cases, some_inj, All,
}

abbrev pub is_found {ℓ} : {A : Type ℓ} → Option A → Bool
is_found none = false
is_found (some a) = true

abbrev pub map_found {ℓ} : {A : Type ℓ} → (A → A) → Option A → Option A
map_found f none = none
map_found f (some a) = some (f a)

-- A value among others, as IN and a Go map of seen values ask.
unfoldable pub is_member : String → List String → Bool
is_member s [] = false
is_member s (x ∷ xs) = (x == s) || is_member s xs

-- `INSERT`.
abbrev pub append {ℓ} : {A : Type ℓ} → List A → A → List A
append rows r = rows ++ r ∷ []

module _ {ℓ} {A : Type ℓ} (column : A → String) where
  -- `SELECT ... WHERE column = k`, of which the first row is read.
  unfoldable pub find : String → List A → Option A
  find k [] = none
  find k (r ∷ rows) = if column r == k then some r else find k rows

  -- All of its rows.
  unfoldable pub select : String → List A → List A
  select k [] = []
  select k (r ∷ rows) = let rest = select k rows in if column r == k then r ∷ rest else rest

  -- `UPDATE ... SET f WHERE column = k`.
  unfoldable pub update : String → (A → A) → List A → List A
  update k f [] = []
  update k f (r ∷ rows) = (if column r == k then f r else r) ∷ update k f rows

  -- `DELETE ... WHERE column = k`.
  unfoldable pub delete : String → List A → List A
  delete k [] = []
  delete k (r ∷ rows) = let rest = delete k rows in if column r == k then rest else r ∷ rest

  -- `SELECT COUNT(*) ... WHERE column = k`.
  unfoldable pub count : String → List A → ℕ
  count k [] = 0
  count k (r ∷ rows) = (if column r == k then suc (count k rows) else count k rows)

  -- Whether any row has it, which `RowsAffected` tells of an UPDATE or a DELETE.
  abbrev pub has : String → List A → Bool
  has k rows = is_found (find k rows)

  pub find-append :
      (k : String) (rows : List A) (r : A)
      → find k (append rows r)
        ≡ (elim (find k rows) [ none ↦ if column r == k then some r else none | some a ↦ some a ])
  unfolding find
  find-append k [] r = refl
  find-append k (x ∷ rows) r = ground (arith, find-append k rows r)

  pub find-append_new :
      (rows : List A) (r : A)
      → find (column r) rows ≡ none
      → find (column r) (append rows r) ≡ some r
  find-append_new rows r h =
      ground (arith, find-append (column r) rows r, h, eq_iff (column r) (column r))

  pub find-append_other :
      (k : String) (rows : List A) (r : A) → column r ≢ k → find k (append rows r) ≡ find k rows
  find-append_other k rows r h = ground (arith, find-append k rows r, h, eq_iff (column r) k)

  pub find-update :
      (k j : String) (f : A → A) (rows : List A)
      → ((a : A) → column (f a) ≡ column a)
      → find j (update k f rows) ≡ (if k == j then map_found f (find j rows) else find j rows)
  unfolding find update
  find-update k j f [] h = ground arith
  find-update k j f (r ∷ rows) h =
      ground
        (arith, h r, eq_iff k j, eq_iff (column r) k, eq_iff (column r) j, find-update k j f rows h)

  pub find-delete :
      (k j : String) (rows : List A)
      → find j (delete k rows) ≡ (if k == j then none else find j rows)
  unfolding find delete
  find-delete k j [] = ground arith
  find-delete k j (r ∷ rows) =
      ground (arith, eq_iff k j, eq_iff (column r) k, eq_iff (column r) j, find-delete k j rows)

  pub find-column : (k : String) (rows : List A) (a : A) → find k rows ≡ some a → column a ≡ k
  unfolding find
  find-column k [] a h = absurd (ground (arith, h))
  find-column k (r ∷ rows) a h = ground (arith, eq_iff (column r) k, find-column k rows a)

  pub find-none_iff :
      (k : String) (rows : List A) → (find k rows ≡ none) ↔ All (λ r. column r ≢ k) rows
  unfolding find
  find-none_iff k [] = (λ h. tt, λ h. refl)
  find-none_iff k (r ∷ rows) =
      let rest = find-none_iff k rows in
      (
        λ h. (λ e. ground (arith, h, e, eq_iff (column r) k), rest.0 (ground (arith, h))),
        λ h. ground (arith, eq_iff (column r) k, rest.1 h.1, h.0),
      )

  pub count-zero_iff :
      (k : String) (rows : List A) → (count k rows ≡ 0) ↔ All (λ r. column r ≢ k) rows
  unfolding count
  count-zero_iff k [] = (λ h. tt, λ h. refl)
  count-zero_iff k (r ∷ rows) =
      let rest = count-zero_iff k rows in
      (
        λ h. (λ e. ground (arith, h, e, eq_iff (column r) k), rest.0 (ground (arith, h))),
        λ h. ground (arith, eq_iff (column r) k, rest.1 h.1, h.0),
      )

  module _ {κ} (P : A → Type κ) where
    pub All-append : (rows : List A) (r : A) → All P rows → P r → All P (append rows r)
    All-append [] r h p = (p, tt)
    All-append (x ∷ rows) r h p = (h.0, All-append rows r h.1 p)

    pub All-delete : (k : String) (rows : List A) → All P rows → All P (delete k rows)
    unfolding delete
    All-delete k [] h = tt
    All-delete k (r ∷ rows) h = ground (arith, All-delete k rows h.1)

    pub All-update :
        (k : String) (f : A → A) (rows : List A)
        → ((a : A) → P a → P (f a))
        → All P rows
        → All P (update k f rows)
    unfolding update
    All-update k f [] step h = tt
    All-update k f (r ∷ rows) step h = elim (Bool-cases (column r == k)) [
      | inl e ↦ rw (e, update) (step r h.0, All-update k f rows step h.1)
      | inr e ↦ rw (e, update) (h.0, All-update k f rows step h.1)
    ]

    pub All-find : (k : String) (rows : List A) (a : A) → find k rows ≡ some a → All P rows → P a
    unfolding find
    All-find k [] a h p = absurd (ground (arith, h))
    All-find k (r ∷ rows) a h p = elim (Bool-cases (column r == k)) [
      | inl e ↦ subst P (some_inj (rw (e, find) at h)) p.0
      | inr e ↦ All-find k rows a (rw (e, find) at h) p.1
    ]

    -- The rows that stay do not have the value.
    pub All-delete_imp {μ} :
        (Q : A → Type μ) (k : String) (rows : List A)
        → ((a : A) → column a ≢ k → P a → Q a)
        → All P rows
        → All Q (delete k rows)
    unfolding delete
    All-delete_imp Q k [] step h = tt
    All-delete_imp Q k (r ∷ rows) step h = elim (Bool-cases (column r == k)) [
      | inl e ↦ rw (e, delete) (All-delete_imp Q k rows step h.1)
      | inr e ↦
          rw (e, delete)
            (
              step r (λ q. ground (arith, e, eq_iff (column r) k, q)) h.0,
              All-delete_imp Q k rows step h.1,
            )
    ]
