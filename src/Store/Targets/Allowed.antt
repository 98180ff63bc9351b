-- ===== src/Store/Targets/Allowed.antt =====
-- What is dispatched is allowed: the two queries agree.
use cqu_netprobe_gateway.Prelude.{
  String, Bool, true, false, some, List, [], ◌∷◌, ◌++◌, ◌≡◌, refl, sym, ap, subst, ◌∙◌, inl, inr,
  arith, Bool-cases, some_inj, ◌==◌, eq_iff, eq_refl, All,
}
use cqu_netprobe_gateway.Prelude.GoMap.{GoMap, lookup, insert, lookup-insert}
use cqu_netprobe_gateway.Prelude.Sort.{sort_by}
use cqu_netprobe_gateway.Protocol.Types.{Allowlist}
use cqu_netprobe_gateway.Store.{StoredTarget}
use cqu_netprobe_gateway.Store.Table.{All-append}
use cqu_netprobe_gateway.Store.Targets.{TargetRow, TargetTables, target_id_of, probe_types_for}
use cqu_netprobe_gateway.Store.Targets.Queries.{
  JoinRow, join_target, join_rows, is_enabled_row, is_dispatched_row, or_no_types, allow_row,
  allow_rows, allowlist, fold_row, fold_rows, dispatch_targets,
}

-- The request rules find the target in the list, and the type among its own.
pub record Allows (al : Allowlist) (target : String) (pt : String) : Type 0 where
  pub allowed : GoMap Bool
  pub known : lookup target al ≡ some allowed
  pub permits : lookup pt allowed ≡ some true

-- Every type of the entry.
abbrev pub AllowsEntry : Allowlist → StoredTarget → Type 0
AllowsEntry al e = All (Allows al e.target_id) e.probe_types

abbrev AllowsRow : Allowlist → JoinRow → Type 0
AllowsRow al r = Allows al r.target_id r.probe_type

allow_row-keeps :
    (al : Allowlist) (r : JoinRow) (target pt : String)
    → Allows al target pt
    → Allows (allow_row al r) target pt
unfolding allow_row
allow_row-keeps al r target pt h = elim (Bool-cases (r.target_id == target)) [
  | inl e ↦ record {
    allowed = insert r.probe_type true h.allowed;
    known =
        lookup-insert r.target_id target _ al
        ∙ rw e (
            ap some (
              ap (λ o. insert r.probe_type true (or_no_types o))
                (ap (λ k. lookup k al) ((eq_iff r.target_id target).0 e) ∙ h.known)));
    permits = ground (arith, lookup-insert r.probe_type pt true h.allowed, h.permits);
  }
  | inr e ↦ record {
    allowed = h.allowed;
    known = lookup-insert r.target_id target _ al ∙ rw e h.known;
    permits = h.permits;
  }
]

allow_row-allows : (al : Allowlist) (r : JoinRow) → AllowsRow (allow_row al r) r
unfolding allow_row
allow_row-allows al r = record {
  allowed = insert r.probe_type true (or_no_types (lookup r.target_id al));
  known = lookup-insert r.target_id r.target_id _ al ∙ rw (eq_refl r.target_id) refl;
  permits =
      lookup-insert r.probe_type r.probe_type true (or_no_types (lookup r.target_id al))
      ∙ rw (eq_refl r.probe_type) refl;
}

allow_rows-keeps :
    (al : Allowlist) (rows : List JoinRow) (target pt : String)
    → Allows al target pt
    → Allows (allow_rows al rows) target pt
unfolding allow_rows
allow_rows-keeps al [] target pt h = h
allow_rows-keeps al (r ∷ rows) target pt h =
    allow_rows-keeps (allow_row al r) rows target pt (allow_row-keeps al r target pt h)

allow_rows-allows :
    (al : Allowlist) (rows : List JoinRow) → All (AllowsRow (allow_rows al rows)) rows
unfolding allow_rows
allow_rows-allows al [] = tt
allow_rows-allows al (r ∷ rows) = (
  allow_rows-keeps (allow_row al r) rows r.target_id r.probe_type (allow_row-allows al r),
  allow_rows-allows (allow_row al r) rows,
)

All-join {κ} :
    (P : JoinRow → Type κ) (xs ys : List JoinRow) → All P (xs ++ ys) → All P xs × All P ys
All-join P [] ys h = (tt, h)
All-join P (x ∷ xs) ys h = let rest = All-join P xs ys h.1 in ((h.0, rest.0), rest.1)

join_All {κ} :
    (P : JoinRow → Type κ) (xs ys : List JoinRow) → All P xs → All P ys → All P (xs ++ ys)
join_All P [] ys h k = k
join_All P (x ∷ xs) ys h k = (h.0, join_All P xs ys h.1 k)

-- The rows of the narrower query are among those of the wider one.
dispatched_rows :
    (P : JoinRow → Type 0) (t : TargetTables) (rows : List TargetRow)
    → All P (join_rows is_enabled_row t rows)
    → All P (join_rows is_dispatched_row t rows)
unfolding join_rows
dispatched_rows P t [] h = tt
dispatched_rows P t (r ∷ rows) h = elim (Bool-cases (is_enabled_row r)) [
  | inl e ↦
      let parts =
        All-join P (join_target r (probe_types_for t r.target_id)) (join_rows is_enabled_row t rows)
          (rw e at h) in
      rw e (elim (Bool-cases (is_dispatched_row r)) [
        | inl g ↦ rw (rw e at g) (
            join_All P (join_target r (probe_types_for t r.target_id)) _ parts.0
              (dispatched_rows P t rows parts.1))
        | inr g ↦ rw (rw e at g) (dispatched_rows P t rows parts.1)
      ])
  | inr e ↦ rw e (dispatched_rows P t rows (rw e at h))
]

fold_row-All :
    (al : Allowlist) (out : List StoredTarget) (r : JoinRow)
    → AllowsRow al r
    → All (AllowsEntry al) out
    → All (AllowsEntry al) (fold_row out r)
unfolding fold_row
fold_row-All al [] r h a = ((h, tt), tt)
fold_row-All al (e ∷ []) r h a = elim (Bool-cases (e.target_id == r.target_id)) [
  | inl q ↦ rw q (
    All-append (λ s. s) (Allows al e.target_id) e.probe_types r.probe_type a.0
        (subst (λ id. Allows al id r.probe_type) (sym ((eq_iff e.target_id r.target_id).0 q)) h),
    tt,
  )
  | inr q ↦ rw q (a.0, ((h, tt), tt))
]
fold_row-All al (e ∷ e' ∷ out) r h a = (a.0, fold_row-All al (e' ∷ out) r h a.1)

fold_rows-All :
    (al : Allowlist) (out : List StoredTarget) (rows : List JoinRow)
    → All (AllowsRow al) rows
    → All (AllowsEntry al) out
    → All (AllowsEntry al) (fold_rows out rows)
unfolding fold_rows
fold_rows-All al out [] h a = a
fold_rows-All al out (r ∷ rows) h a =
    fold_rows-All al (fold_row out r) rows h.1 (fold_row-All al out r h.0 a)

-- Each target and type that a probe is told to measure is one that it may report: the allowlist read
-- from the same tables knows the target and permits the type.
pub dispatch_targets-allowed :
    (t : TargetTables) (al : Allowlist) (targets : List StoredTarget)
    → allowlist false t ≡ some al
    → dispatch_targets false t ≡ some targets
    → All (AllowsEntry al) targets
unfolding allowlist dispatch_targets
dispatch_targets-allowed t al targets h k =
    let rows = sort_by target_id_of t.targets in
    subst (λ a. All (AllowsEntry a) targets) (some_inj h)
      (subst (All (AllowsEntry (allow_rows [] (join_rows is_enabled_row t rows)))) (some_inj k) (
        fold_rows-All _ [] (join_rows is_dispatched_row t rows)
          (dispatched_rows _ t rows (allow_rows-allows [] (join_rows is_enabled_row t rows))) tt))
