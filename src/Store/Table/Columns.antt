-- ===== src/Store/Table/Columns.antt =====
-- A statement that picks rows by one column, seen through another.
use cqu_netprobe_gateway.Prelude.{
  String, ◌≡◌, ◌≢◌, refl, sym, ap, ◌∙◌, inl, inr, none, some, List, [], ◌∷◌, ◌==◌, eq_iff, arith,
  Bool-cases, some_inj, All, All-imp,
}
use cqu_netprobe_gateway.Prelude.Sort.{HasDistinctKeys}
use cqu_netprobe_gateway.Store.Table.{find, update, delete, All-find}

-- On a UNIQUE column, a row that a statement found is the only one with its value.
module _ {ℓ} {A : Type ℓ} (key column : A → String) where
  pub found_unique :
      (k : String) (rows : List A) (a : A)
      → HasDistinctKeys key rows
      → find column k rows ≡ some a
      → All (λ y. key y ≡ key a → y ≡ a) rows
  unfolding find
  found_unique k [] a d h = tt
  found_unique k (r ∷ rows) a d h = elim (Bool-cases (column r == k)) [
    | inl e ↦
        let same : r ≡ a = some_inj (rw (e, find) at h) in
        (λ q. same, All-imp (λ y ne q. absurd (ne (ap key same ∙ sym q))) rows d.0)
    | inr e ↦
        let later = rw (e, find) at h in
        (
          λ q. absurd (All-find column (λ y. key r ≢ key y) k rows a later d.0 q),
          found_unique k rows a d.1 later,
        )
  ]

  -- So no other row has it.
  pub others_differ :
      (k : String) (rows : List A) (a : A)
      → HasDistinctKeys key rows
      → find column k rows ≡ some a
      → column a ≡ k
      → All (λ y. column y ≢ k → key y ≢ key a) rows
  others_differ k rows a d h at =
      All-imp (λ y u ne q. ne (ap column (u q) ∙ at)) rows (found_unique k rows a d h)

  pub find-delete_other :
      (k j : String) (rows : List A)
      → All (λ y. column y ≡ k → key y ≢ j) rows
      → find key j (delete column k rows) ≡ find key j rows
  unfolding find delete
  find-delete_other k j [] a = refl
  find-delete_other k j (r ∷ rows) a =
      ground (arith, eq_iff (column r) k, eq_iff (key r) j, a.0, find-delete_other k j rows a.1)

  pub find-delete_gone :
      (k j : String) (rows : List A)
      → All (λ y. column y ≢ k → key y ≢ j) rows
      → find key j (delete column k rows) ≡ none
  unfolding find delete
  find-delete_gone k j [] a = refl
  find-delete_gone k j (r ∷ rows) a =
      ground (arith, eq_iff (column r) k, eq_iff (key r) j, a.0, find-delete_gone k j rows a.1)

  pub find-delete_nothing :
      (k j : String) (rows : List A)
      → find key j (delete column k rows) ≡ none
      → All (λ y. column y ≢ k → key y ≢ j) rows
  unfolding find delete
  find-delete_nothing k j [] h = tt
  find-delete_nothing k j (r ∷ rows) h = elim (Bool-cases (column r == k)) [
    | inl e ↦ (
      λ ne. absurd (ne ((eq_iff (column r) k).0 e)),
      find-delete_nothing k j rows (rw (e, delete) at h),
    )
    | inr e ↦
        let kept = rw (e, delete) at h in
        (
          λ ne q. ground (arith, kept, eq_iff (key r) j, q),
          find-delete_nothing k j rows (ground (arith, kept)),
        )
  ]

  module _ (f : A → A) where
    pub find-update_other :
        (k j : String) (rows : List A)
        → All (λ y. column y ≡ k → key y ≢ j) rows
        → ((a : A) → key (f a) ≢ j)
        → find key j (update column k f rows) ≡ find key j rows
    unfolding find update
    find-update_other k j [] a h = refl
    find-update_other k j (r ∷ rows) a h = ground (
      arith,
      eq_iff (column r) k,
      eq_iff (key r) j,
      eq_iff (key (f r)) j,
      a.0,
      h r,
      find-update_other k j rows a.1 h,
    )

    pub find-update_gone :
        (k j : String) (rows : List A)
        → All (λ y. column y ≢ k → key y ≢ j) rows
        → ((a : A) → key (f a) ≢ j)
        → find key j (update column k f rows) ≡ none
    unfolding find update
    find-update_gone k j [] a h = refl
    find-update_gone k j (r ∷ rows) a h = ground (
      arith,
      eq_iff (column r) k,
      eq_iff (key r) j,
      eq_iff (key (f r)) j,
      a.0,
      h r,
      find-update_gone k j rows a.1 h,
    )

    -- The row that now has the value.
    pub find-update_new :
        (k j : String) (rows : List A) (a : A)
        → All (λ y. column y ≢ k → key y ≢ j) rows
        → ((a : A) → key (f a) ≡ j)
        → find column k rows ≡ some a
        → find key j (update column k f rows) ≡ some (f a)
    unfolding find update
    find-update_new k j [] a u h e = absurd (ground (arith, e))
    find-update_new k j (r ∷ rows) a u h e = ground (
      arith,
      eq_iff (column r) k,
      eq_iff (key r) j,
      eq_iff (key (f r)) j,
      u.0,
      h r,
      e,
      find-update_new k j rows a u.1 h,
    )
