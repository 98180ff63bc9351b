-- ===== src/Store/Table/Unique.antt =====
-- A UNIQUE column: no statement that respects the constraint makes two rows agree on it.
use cqu_netprobe_gateway.Prelude.{
  String, ◌≡◌, sym, subst, ◌∙◌, ◌≢◌, inl, inr, none, List, [], ◌∷◌, ◌==◌, eq_iff, Bool-cases, All,
  All-imp,
}
use cqu_netprobe_gateway.Prelude.Sort.{HasDistinctKeys}
use cqu_netprobe_gateway.Store.Table.{
  find, update, delete, append, find-none_iff, All-append, All-delete, All-update,
}

module _ {ℓ} {A : Type ℓ} (key : A → String) where
  pub append-HasDistinctKeys :
      (rows : List A) (r : A)
      → find key (key r) rows ≡ none
      → HasDistinctKeys key rows
      → HasDistinctKeys key (append rows r)
  append-HasDistinctKeys rows r h d = grow rows ((find-none_iff key (key r) rows).0 h) d
    where
      grow :
          (rows : List A)
          → All (λ y. key y ≢ key r) rows
          → HasDistinctKeys key rows
          → HasDistinctKeys key (append rows r)
      grow [] a d = (tt, tt)
      grow (x ∷ rows) a d = (All-append key (λ y. key x ≢ key y) rows r d.0 a.0, grow rows a.1 d.1)

  module _ (column : A → String) (k : String) where
    pub delete-HasDistinctKeys :
        (rows : List A) → HasDistinctKeys key rows → HasDistinctKeys key (delete column k rows)
    unfolding delete
    delete-HasDistinctKeys [] d = tt
    delete-HasDistinctKeys (r ∷ rows) d = elim (Bool-cases (column r == k)) [
      | inl e ↦ rw (e, delete) (delete-HasDistinctKeys rows d.1)
      | inr e ↦
          rw (e, delete)
            (All-delete column (λ y. key r ≢ key y) k rows d.0, delete-HasDistinctKeys rows d.1)
    ]

    -- An update that leaves the column alone.
    pub update-HasDistinctKeys :
        (f : A → A) (rows : List A)
        → ((a : A) → key (f a) ≡ key a)
        → HasDistinctKeys key rows
        → HasDistinctKeys key (update column k f rows)
    unfolding update
    update-HasDistinctKeys f [] h d = tt
    update-HasDistinctKeys f (r ∷ rows) h d =
        let others = All-update column (λ y. key r ≢ key y) k f rows (λ a ne q. ne (q ∙ h a)) d.0 in
        elim (Bool-cases (column r == k)) [
          | inl e ↦
              rw (e, update)
                (
                  subst (λ i. All (λ y. i ≢ key y) (update column k f rows)) (sym (h r)) others,
                  update-HasDistinctKeys f rows h d.1,
                )
          | inr e ↦ rw (e, update) (others, update-HasDistinctKeys f rows h d.1)
        ]

    All-update_fresh :
        (f : A → A) (i v : String) (rows : List A)
        → ((a : A) → key (f a) ≡ v)
        → i ≢ v
        → All (λ y. i ≢ key y) rows
        → All (λ y. i ≢ key y) (update column k f rows)
    All-update_fresh f i v rows h ne a =
        All-update column (λ y. i ≢ key y) k f rows (λ x old q. ne (q ∙ h x)) a

    All-update_absent :
        (P : A → Type 0) (f : A → A) (rows : List A)
        → All (λ y. column y ≢ k) rows
        → All P rows
        → All P (update column k f rows)
    unfolding update
    All-update_absent P f [] n a = tt
    All-update_absent P f (r ∷ rows) n a = elim (Bool-cases (column r == k)) [
      | inl e ↦ absurd (n.0 ((eq_iff (column r) k).0 e))
      | inr e ↦ rw (e, update) (a.0, All-update_absent P f rows n.1 a.1)
    ]

    -- An update of the one row at `k` to a value that no other row has.
    pub update_one-HasDistinctKeys :
        (f : A → A) (v : String) (rows : List A)
        → ((a : A) → key (f a) ≡ v)
        → HasDistinctKeys column rows
        → All (λ y. column y ≢ k → key y ≢ v) rows
        → HasDistinctKeys key rows
        → HasDistinctKeys key (update column k f rows)
    unfolding update
    update_one-HasDistinctKeys f v [] h u fresh d = tt
    update_one-HasDistinctKeys f v (r ∷ rows) h u fresh d = elim (Bool-cases (column r == k)) [
      | inl e ↦
          let at = (eq_iff (column r) k).0 e in
          let apart = All-imp (λ y ne q. ne (at ∙ sym q)) rows u.0 in
          rw (e, update)
            (
              subst (λ i. All (λ y. i ≢ key y) (update column k f rows)) (sym (h r))
                  (All-update_absent (λ y. v ≢ key y) f rows apart (others rows apart fresh.1)),
              update_one-HasDistinctKeys f v rows h u.1 fresh.1 d.1,
            )
      | inr e ↦
          rw (e, update)
            (
              All-update_fresh f (key r) v rows h (fresh.0 (λ q. cc (e, (eq_iff (column r) k).1 q)))
                  d.0,
              update_one-HasDistinctKeys f v rows h u.1 fresh.1 d.1,
            )
    ]
      where
        others :
            (rows : List A)
            → All (λ y. column y ≢ k) rows
            → All (λ y. column y ≢ k → key y ≢ v) rows
            → All (λ y. v ≢ key y) rows
        others [] n g = tt
        others (y ∷ rows) n g = (λ q. g.0 n.0 (sym q), others rows n.1 g.1)
