-- ===== src/Store/Targets/Dispatch.antt =====
-- The rows of the join, folded back: one entry for a target.
use mathlib.Core.List.{append-nil, append_assoc}
use cqu_netprobe_gateway.Prelude.{
  String, not, ◌&&◌, ◌==◌, eqb, map, false, some, List, [], ◌∷◌, ◌++◌, ◌≡◌, ◌≢◌, refl, sym, ap,
  subst, ◌∙◌, inl, inr, arith, Bool-cases, eq_iff, eq_refl, if◌then◌else◌, All,
}
use cqu_netprobe_gateway.Prelude.Sort.{
  HasDistinctKeys, sort_by, sort_by-Permᴰ, HasDistinctKeys-perm,
}
use cqu_netprobe_gateway.Store.{StoredTarget}
use cqu_netprobe_gateway.Store.Table.{append, All-append, select}
use cqu_netprobe_gateway.Prelude.Text.Split.{sql_trim}
use cqu_netprobe_gateway.Store.Targets.{
  TargetRow, TargetTables, target_id_of, probe_types_for, type_name, type_target,
}
use cqu_netprobe_gateway.Store.Targets.Queries.{
  JoinRow, join_target, join_rows, is_dispatched_row, one_type, fold_row, fold_rows,
  dispatch_targets,
}

abbrev entry_of : TargetRow → List String → StoredTarget
entry_of r types = record { target_id = r.target_id; address = r.address; probe_types = types }

abbrev unless_empty : TargetRow → List String → List StoredTarget → List StoredTarget
unless_empty r [] rest = rest
unless_empty r (pt ∷ types) rest = entry_of r (pt ∷ types) ∷ rest

-- The description by targets, without the join: an entry for each target that is enabled, has an address, and has a
-- type, with its types in order.
pub entries : TargetTables → List TargetRow → List StoredTarget
entries t [] = []
entries t (r ∷ rows) =
    let rest = entries t rows in
    if eqb r.enabled 1 && not (sql_trim r.address == "")
    then unless_empty r (sort_by (λ s. s) (map type_name (select type_target r.target_id t.types)))
        rest
    else rest

abbrev Apart : String → List StoredTarget → Type 0
Apart id = All (λ e. e.target_id ≢ id)

fold_row_new :
    (out : List StoredTarget) (r : JoinRow)
    → Apart r.target_id out
    → fold_row out r ≡ append out (one_type r)
unfolding fold_row
fold_row_new [] r a = refl
fold_row_new (e ∷ []) r a = ground (arith, eq_iff e.target_id r.target_id, a.0)
fold_row_new (e ∷ e' ∷ out) r a = ap (λ l. e ∷ l) (fold_row_new (e' ∷ out) r a.1)

fold_row_same :
    (out : List StoredTarget) (r : TargetRow) (types : List String) (pt : String)
    → fold_row
        (append out (entry_of r types))
        (record { target_id = r.target_id; address = r.address; probe_type = pt })
      ≡ append out (entry_of r (append types pt))
unfolding fold_row
fold_row_same [] r types pt = rw (eq_refl r.target_id) refl
fold_row_same (e ∷ []) r types pt = ap (λ l. e ∷ l) (fold_row_same [] r types pt)
fold_row_same (e ∷ e' ∷ out) r types pt = ap (λ l. e ∷ l) (fold_row_same (e' ∷ out) r types pt)

fold_rows-append :
    (out : List StoredTarget) (rows more : List JoinRow)
    → fold_rows out (rows ++ more) ≡ fold_rows (fold_rows out rows) more
unfolding fold_rows
fold_rows-append out [] more = refl
fold_rows-append out (r ∷ rows) more = fold_rows-append (fold_row out r) rows more

fold_rows_same :
    (out : List StoredTarget) (r : TargetRow) (types more : List String)
    → fold_rows (append out (entry_of r types)) (join_target r more)
      ≡ append out (entry_of r (types ++ more))
unfolding fold_rows
fold_rows_same out r types [] = ap (λ ts. append out (entry_of r ts)) (sym (append-nil types))
fold_rows_same out r types (pt ∷ more) =
    ap (λ o. fold_rows o (join_target r more)) (fold_row_same out r types pt)
    ∙ fold_rows_same out r (append types pt) more
    ∙ ap (λ ts. append out (entry_of r ts)) (append_assoc types (pt ∷ []) more)

fold_rows_target :
    (out : List StoredTarget) (r : TargetRow) (types : List String)
    → Apart r.target_id out
    → fold_rows out (join_target r types) ≡ out ++ unless_empty r types []
unfolding fold_rows
fold_rows_target out r [] a = sym (append-nil out)
fold_rows_target out r (pt ∷ types) a =
    ap (λ o. fold_rows o (join_target r types)) (fold_row_new out _ a)
    ∙ fold_rows_same out r (pt ∷ []) types

-- Every entry of `out` is of another target than those that come.
abbrev AllApart : List StoredTarget → List TargetRow → Type 0
AllApart out rows = All (λ r. Apart r.target_id out) rows

AllApart-grown :
    (out : List StoredTarget) (r : TargetRow) (types : List String) (rows : List TargetRow)
    → All (λ y. r.target_id ≢ y.target_id) rows
    → AllApart out rows
    → AllApart (out ++ unless_empty r types []) rows
AllApart-grown out r [] rows d a = subst (λ o. AllApart o rows) (sym (append-nil out)) a
AllApart-grown out r (pt ∷ types) [] d a = tt
AllApart-grown out r (pt ∷ types) (y ∷ rows) d a = (
  All-append (λ (e : StoredTarget). e.target_id) (λ e. e.target_id ≢ y.target_id) out
      (entry_of r (pt ∷ types)) a.0 d.0,
  AllApart-grown out r (pt ∷ types) rows d.1 a.1,
)

unless_empty-append :
    (out : List StoredTarget) (r : TargetRow) (types : List String) (rest : List StoredTarget)
    → (out ++ unless_empty r types []) ++ rest ≡ out ++ unless_empty r types rest
unless_empty-append out r [] rest = ap (λ o. o ++ rest) (append-nil out)
unless_empty-append out r (pt ∷ types) rest = append_assoc out (entry_of r (pt ∷ types) ∷ []) rest

fold_rows-entries :
    (t : TargetTables) (out : List StoredTarget) (rows : List TargetRow)
    → HasDistinctKeys target_id_of rows
    → AllApart out rows
    → fold_rows out (join_rows is_dispatched_row t rows) ≡ out ++ entries t rows
unfolding join_rows entries
fold_rows-entries t out [] d a = unfold fold_rows in sym (append-nil out)
fold_rows-entries t out (r ∷ rows) d a = elim (Bool-cases (is_dispatched_row r)) [
  | inl e ↦ rw e (
      fold_rows-append out (join_target r types) (join_rows is_dispatched_row t rows)
      ∙ ap (λ o. fold_rows o (join_rows is_dispatched_row t rows))
          (fold_rows_target out r types a.0)
      ∙ fold_rows-entries t (out ++ unless_empty r types []) rows d.1
          (AllApart-grown out r types rows d.0 a.1)
      ∙ unless_empty-append out r types (entries t rows))
  | inr e ↦ rw e (fold_rows-entries t out rows d.1 a.1)
]
  where
    types : List String
    types = probe_types_for t r.target_id

AllApart-nil : (rows : List TargetRow) → AllApart [] rows
AllApart-nil [] = tt
AllApart-nil (r ∷ rows) = (tt, AllApart-nil rows)

-- With distinct target IDs, what is dispatched is one entry for each target that is enabled, has an
-- address that is not blank and permits a type, in the order of the IDs and with its types in order.
pub dispatch_targets-entries :
    (t : TargetTables)
    → HasDistinctKeys target_id_of t.targets
    → dispatch_targets false t ≡ some (entries t (sort_by target_id_of t.targets))
unfolding dispatch_targets
dispatch_targets-entries t d = ap some (
    fold_rows-entries t [] (sort_by target_id_of t.targets)
      (HasDistinctKeys-perm target_id_of (sort_by-Permᴰ target_id_of t.targets) d)
      (AllApart-nil (sort_by target_id_of t.targets)))
