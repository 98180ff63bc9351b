-- ===== src/Store/Targets/Replaced.antt =====
-- An update of a target is stored whole or not at all.
use cqu_netprobe_gateway.Prelude.{
  String, Bool, true, false, Option, none, some, inl, inr, Bool-cases, [], ◌++◌, ◌≡◌, ◌≢◌, refl,
  sym, ap, ◌∙◌, arith, ◌==◌, if◌then◌else◌, ◌⊎◌,
}
use cqu_netprobe_gateway.Prelude.Time.{Time, unix}
use cqu_netprobe_gateway.Store.{
  WriteResult, written, missing, duplicate, in_use, write_failed, ran, execute, Transaction,
  in_transaction,
}
use cqu_netprobe_gateway.Store.Table.{is_member, find, delete, has, map_found, find-update}
use cqu_netprobe_gateway.Store.Targets.{
  Target, TargetRow, TargetTables, target_id_of, type_target, types_of, insert_probe_types,
  with_metadata, update_target_tx, update_target, create_target,
}
use cqu_netprobe_gateway.Store.Targets.Types.{
  unseen, types_of-delete, types_of-delete_other, not_member, Inserted, insert_probe_types-Inserted,
}

-- A driver that fails nowhere in the transaction.
pub record IsHealthy (d : Transaction) : Type 0 where
  pub begins : d.begin_fails ≡ false
  pub runs : d.statement ≡ ran
  pub clears : d.clear_fails ≡ false
  pub inserts : (pt : String) → d.type_fails pt ≡ false
  pub commits : d.commit_fails ≡ false

-- The row of a target with the texts and the flag of the form; its number, its ID and the time of its
-- creation stay.
abbrev pub edited_row : Time → Target → TargetRow → TargetRow
edited_row now tgt r = record {
  id = r.id;
  target_id = r.target_id;
  display_name = tgt.display_name;
  address = tgt.address;
  description = tgt.description;
  enabled = if tgt.enabled then 1 else 0;
  created_at = r.created_at;
  updated_at = unix now;
}

-- What an update of a known target leaves.
pub record Replaced (now : Time) (t : TargetTables) (tgt : Target)
    (done : TargetTables × WriteResult) : Type 0 where
  pub succeeds : done.1 ≡ written
  pub own_types : types_of tgt.target_id done.0.types ≡ unseen [] tgt.probe_types
  pub other_types :
      (other : String)
      → tgt.target_id ≢ other
      → types_of other done.0.types ≡ types_of other t.types
  pub rows :
      (id : String)
      → find target_id_of id done.0.targets ≡ (
          if tgt.target_id == id
          then map_found (edited_row now tgt) (find target_id_of id t.targets)
          else find target_id_of id t.targets)

with_metadata-id :
    (now : Time) (tgt : Target) (r : TargetRow)
    → (with_metadata (unix now) tgt r).target_id ≡ r.target_id
unfolding with_metadata
with_metadata-id now tgt r = refl

edited_found :
    (now : Time) (tgt : Target) (b : Bool) (o : Option TargetRow)
    → (if b then map_found (with_metadata (unix now) tgt) o else o)
      ≡ (if b then map_found (edited_row now tgt) o else o)
unfolding with_metadata
edited_found now tgt false o = refl
edited_found now tgt true none = refl
edited_found now tgt true (some r) = elim (Bool-cases tgt.enabled) [
  | inl e ↦ rw e refl
  | inr e ↦ rw e refl
]

-- An update of a known target is stored where the driver does not fail: its texts and its flag are the
-- form's, and in place of its types stand those of the form, each once and in the form's order; no
-- other target changes.
pub update_target-Replaced :
    (d : Transaction) (now : Time) (t : TargetTables) (tgt : Target)
    → IsHealthy d
    → has target_id_of tgt.target_id t.targets ≡ true
    → Replaced now t tgt (update_target d now t tgt)
unfolding update_target update_target_tx execute in_transaction
update_target-Replaced d now t tgt healthy known =
    rw (healthy.begins, healthy.runs, known, healthy.clears, inserted.succeeds, healthy.commits)
      (record {
        succeeds = refl;
        own_types =
            inserted.stored
            ∙ ap (λ l. l ++ unseen [] tgt.probe_types) (types_of-delete tgt.target_id t.types);
        other_types = λ other ne.
            inserted.others other ne ∙ types_of-delete_other tgt.target_id other t.types ne;
        rows = λ id.
            find-update target_id_of tgt.target_id id (with_metadata (unix now) tgt) t.targets
              (with_metadata-id now tgt)
            ∙ edited_found now tgt (tgt.target_id == id) (find target_id_of id t.targets);
      })
  where
    inserted :
        Inserted tgt.target_id
          (unseen [] tgt.probe_types)
          (delete type_target tgt.target_id t.types)
          (insert_probe_types d.type_fails tgt.target_id [] tgt.probe_types
            (delete type_target tgt.target_id t.types))
    inserted =
        insert_probe_types-Inserted d.type_fails tgt.target_id [] tgt.probe_types
          (delete type_target tgt.target_id t.types) healthy.inserts
          (λ s h.
            absurd
              (not_member s (sym h ∙ ap (is_member s) (types_of-delete tgt.target_id t.types))))

in_transaction-atomic {ℓ} :
    {A : Type ℓ} (d : Transaction) (before : A) (done : A × WriteResult)
    → ((in_transaction d before done).1 ≡ written) ⊎ ((in_transaction d before done).0 ≡ before)
unfolding in_transaction
in_transaction-atomic d before (after, written) = ground arith
in_transaction-atomic d before (after, missing) = ground arith
in_transaction-atomic d before (after, duplicate) = ground arith
in_transaction-atomic d before (after, in_use) = ground arith
in_transaction-atomic d before (after, write_failed) = ground arith

-- Wherever the driver fails, creating or updating a target reports success or leaves both tables as
-- they were: no target is left without its types.
pub target_writes_atomic :
    (d : Transaction) (now : Time) (t : TargetTables) (tgt : Target)
    → (((create_target d now t tgt).1 ≡ written) ⊎ ((create_target d now t tgt).0 ≡ t))
      × (((update_target d now t tgt).1 ≡ written) ⊎ ((update_target d now t tgt).0 ≡ t))
unfolding create_target update_target
target_writes_atomic d now t tgt = (in_transaction-atomic d t _, in_transaction-atomic d t _)
