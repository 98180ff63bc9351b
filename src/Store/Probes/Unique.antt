-- ===== src/Store/Probes/Unique.antt =====
-- The constraints of the schema hold through every history of the table.
use cqu_netprobe_gateway.Prelude.{
  String, Bool, true, false, Option, none, some, List, [], ◌∷◌, ◌≡◌, ◌≢◌, refl, sym, subst, inl,
  inr, arith, Bool-cases, eq_iff, All,
}
use cqu_netprobe_gateway.Prelude.Sort.{HasDistinctKeys}
use cqu_netprobe_gateway.Prelude.Time.{Time, unix}
use cqu_netprobe_gateway.Store.{Probe, Exec, ran, refused, uncounted, execute}
use cqu_netprobe_gateway.Store.Table.{find, update, has, is_found}
use cqu_netprobe_gateway.Store.Table.Columns.{find-delete_nothing}
use cqu_netprobe_gateway.Store.Table.Unique.{
  append-HasDistinctKeys, delete-HasDistinctKeys, update-HasDistinctKeys,
  update_one-HasDistinctKeys,
}
use cqu_netprobe_gateway.Store.Probes.{
  ProbeRow, ProbeTable, probe_id_of, token_hash_of, stamp, new_row, insert_row, is_taken,
  create_probe, with_enabled, set_probe_enabled, with_token, is_taken_elsewhere, update_probe_token,
  delete_probe,
}

pub record IsWellFormed (t : ProbeTable) : Type 0 where
  pub ids_distinct : HasDistinctKeys probe_id_of t.rows
  pub tokens_distinct : HasDistinctKeys token_hash_of t.rows

-- One statement of the program on the table, with what the driver does and the clock.
pub data Call : Type 0 where
  create_call : Bool → Bool → Time → Probe → Call
  enable_call : Exec → Time → String → Bool → Call
  rotate_call : Exec → Time → Time → String → String → Call
  delete_call : Exec → String → Call

abbrev pub step : ProbeTable → Call → ProbeTable
step t (create_call insert_fails read_fails now p) =
    (create_probe insert_fails read_fails now t p).0
step t (enable_call driver now id enabled) = (set_probe_enabled driver now t id enabled).0
step t (rotate_call driver now then_now id hash) =
    (update_probe_token driver now then_now t id hash).0
step t (delete_call driver id) = (delete_probe driver t id).0

abbrev pub probes_run : ProbeTable → List Call → ProbeTable
probes_run t [] = t
probes_run t (c ∷ cs) = probes_run (step t c) cs

pub not_has : {A : Type 0} (o : Option A) → is_found o ≡ false → o ≡ none
not_has none h = refl
not_has (some a) h = cc

pub execute_cases {ℓ κ} :
    {A : Type ℓ} (P : A → Type κ) (driver : Exec) (before after : A) (affected : Bool)
    → P before
    → P after
    → P (execute driver before after affected).0
unfolding execute
execute_cases P refused before after affected b a = b
execute_cases P uncounted before after affected b a = a
execute_cases P ran before after affected b a = a

insert_row-IsWellFormed :
    (t : ProbeTable) (p : Probe)
    → is_taken t p ≡ false
    → IsWellFormed t
    → IsWellFormed (insert_row t p)
unfolding insert_row new_row
insert_row-IsWellFormed t p free w = record {
  ids_distinct =
      append-HasDistinctKeys probe_id_of t.rows (new_row t.next_id p)
        (not_has (find probe_id_of p.probe_id t.rows) (ground (arith, free))) w.ids_distinct;
  tokens_distinct =
      append-HasDistinctKeys token_hash_of t.rows (new_row t.next_id p)
        (not_has (find token_hash_of p.token_hash t.rows) (ground (arith, free))) w.tokens_distinct;
}

create_probe-IsWellFormed :
    (insert_fails read_fails : Bool) (now : Time) (t : ProbeTable) (p : Probe)
    → IsWellFormed t
    → IsWellFormed (create_probe insert_fails read_fails now t p).0
unfolding create_probe
create_probe-IsWellFormed true read_fails now t p w = w
create_probe-IsWellFormed false read_fails now t p w =
    elim (Bool-cases (is_taken t (stamp now p))) [
      | inl e ↦ rw e w
      | inr e ↦ rw e (insert_row-IsWellFormed t (stamp now p) e w)
    ]

-- The check of the constraint, as a fact about each row.
pub fresh_elsewhere :
    (t : ProbeTable) (id hash : String)
    → is_taken_elsewhere t id hash ≡ false
    → has probe_id_of id t.rows ≡ true
    → All (λ y. y.probe_id ≢ id → y.token_hash ≢ hash) t.rows
fresh_elsewhere t id hash free e =
    find-delete_nothing token_hash_of probe_id_of id hash t.rows
      (not_has _ (ground (arith, free, e)))

update_absent :
    (k : String) (f : ProbeRow → ProbeRow) (rows : List ProbeRow)
    → find probe_id_of k rows ≡ none
    → update probe_id_of k f rows ≡ rows
unfolding find update
update_absent k f [] h = refl
update_absent k f (r ∷ rows) h = ground (arith, eq_iff r.probe_id k, update_absent k f rows)

renamed-IsWellFormed :
    (now then_now : Time) (t : ProbeTable) (id hash : String)
    → is_taken_elsewhere t id hash ≡ false
    → IsWellFormed t
    → IsWellFormed (record t {
      rows = update probe_id_of id (with_token (unix now) (unix then_now) hash) t.rows;
    })
renamed-IsWellFormed now then_now t id hash free w = record {
  ids_distinct =
      update-HasDistinctKeys probe_id_of probe_id_of id f t.rows (λ a. refl) w.ids_distinct;
  tokens_distinct = elim (Bool-cases (has probe_id_of id t.rows)) [
    | inl e ↦
        update_one-HasDistinctKeys token_hash_of probe_id_of id f hash t.rows (λ a. refl)
          w.ids_distinct (fresh_elsewhere t id hash free e) w.tokens_distinct
    | inr e ↦
        subst (HasDistinctKeys token_hash_of) (sym (update_absent id f t.rows (not_has _ e)))
          w.tokens_distinct
  ];
}
  where
    f : ProbeRow → ProbeRow
    f = with_token (unix now) (unix then_now) hash

update_probe_token-IsWellFormed :
    (driver : Exec) (now then_now : Time) (t : ProbeTable) (id hash : String)
    → IsWellFormed t
    → IsWellFormed (update_probe_token driver now then_now t id hash).0
unfolding update_probe_token execute
update_probe_token-IsWellFormed refused now then_now t id hash w = w
update_probe_token-IsWellFormed ran now then_now t id hash w =
    elim (Bool-cases (is_taken_elsewhere t id hash)) [
      | inl e ↦ rw e w
      | inr e ↦ rw e (renamed-IsWellFormed now then_now t id hash e w)
    ]
update_probe_token-IsWellFormed uncounted now then_now t id hash w =
    elim (Bool-cases (is_taken_elsewhere t id hash)) [
      | inl e ↦ rw e w
      | inr e ↦ rw e (renamed-IsWellFormed now then_now t id hash e w)
    ]

step-IsWellFormed : (t : ProbeTable) (c : Call) → IsWellFormed t → IsWellFormed (step t c)
unfolding set_probe_enabled delete_probe
step-IsWellFormed t (create_call insert_fails read_fails now p) w =
    create_probe-IsWellFormed insert_fails read_fails now t p w
step-IsWellFormed t (enable_call driver now id enabled) w =
    execute_cases IsWellFormed driver t _ _ w (record {
      ids_distinct =
          update-HasDistinctKeys probe_id_of probe_id_of id (with_enabled (unix now) enabled) t.rows
            (λ a. refl) w.ids_distinct;
      tokens_distinct =
          update-HasDistinctKeys token_hash_of probe_id_of id (with_enabled (unix now) enabled)
            t.rows (λ a. refl) w.tokens_distinct;
    })
step-IsWellFormed t (rotate_call driver now then_now id hash) w =
    update_probe_token-IsWellFormed driver now then_now t id hash w
step-IsWellFormed t (delete_call driver id) w = execute_cases IsWellFormed driver t _ _ w (record {
  ids_distinct = delete-HasDistinctKeys probe_id_of probe_id_of id t.rows w.ids_distinct;
  tokens_distinct = delete-HasDistinctKeys token_hash_of probe_id_of id t.rows w.tokens_distinct;
})

-- Whatever statements the program runs on the table of probes, and whatever the driver makes of them,
-- no two probes have one ID and no two have one token hash.
pub probes_run-IsWellFormed :
    (t : ProbeTable) (calls : List Call) → IsWellFormed t → IsWellFormed (probes_run t calls)
probes_run-IsWellFormed t [] w = w
probes_run-IsWellFormed t (c ∷ cs) w =
    probes_run-IsWellFormed (step t c) cs (step-IsWellFormed t c w)
