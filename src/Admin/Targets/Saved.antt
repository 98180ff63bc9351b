-- ===== src/Admin/Targets/Saved.antt =====
-- What the form of a target lets into the tables.
use cqu_netprobe_gateway.Prelude.{◌≤◌, String, true, false, ◌≡◌, ◌≢◌, ◌⊎◌, All, length}
use cqu_netprobe_gateway.Prelude.Sort.{IsSortedBy}
use cqu_netprobe_gateway.Forms.{rune_count}
use cqu_netprobe_gateway.Store.{written, duplicate}
use cqu_netprobe_gateway.Store.Targets.{Target, TargetTables, create_target, update_target}
use cqu_netprobe_gateway.Admin.Server.{Admin, Reply, redirect}
use cqu_netprobe_gateway.Admin.Targets.{
  TargetForm, rejected, accepted, valid_target_id, valid_probe_type, read_target_form, Saving,
}

-- A target that an administrator may save.
pub record IsAcceptable (t : Target) : Type 0 where
  pub some_type : 1 ≤ length t.probe_types
  pub types_valid : All (λ pt. valid_probe_type pt ≡ true) t.probe_types
  pub types_ordered : IsSortedBy (λ s. s) t.probe_types
  pub short_name : rune_count t.display_name ≤ 64
  pub short_address : rune_count t.address ≤ 256
  pub short_description : rune_count t.description ≤ 256

-- What a save leaves in the tables, and with which answer.
pub record Saved (x : Saving) (f : TargetForm) (t t' : TargetTables) (reply : Reply) : Type 0 where
  pub target : Target
  pub read : read_target_form f ≡ accepted target
  pub acceptable : IsAcceptable target
  pub good_id : valid_target_id target.target_id ≡ true
  pub stored :
      (create_target x.creation x.creation_now t target ≡ (t', written))
      ⊎ ((create_target x.creation x.creation_now t target ≡ (t, duplicate))
          × (update_target x.update x.update_now t target ≡ (t', written)))
  pub answer : reply ≡ redirect "/admin/targets"

-- Why nothing is saved: the form or its ID is refused, or the database did not take what was read.
pub data Refusal (x : Saving) (f : TargetForm) (t : TargetTables) : Type 0 where
  bad_form : (message : String) → read_target_form f ≡ rejected message → Refusal x f t
  bad_id :
      (tgt : Target)
      → read_target_form f ≡ accepted tgt
      → valid_target_id tgt.target_id ≡ false
      → Refusal x f t
  not_created :
      (tgt : Target)
      → read_target_form f ≡ accepted tgt
      → (create_target x.creation x.creation_now t tgt).1 ≢ written
      → (create_target x.creation x.creation_now t tgt).1 ≢ duplicate
      → Refusal x f t
  not_updated :
      (tgt : Target)
      → read_target_form f ≡ accepted tgt
      → (create_target x.creation x.creation_now t tgt).1 ≡ duplicate
      → (update_target x.update x.update_now t tgt).1 ≢ written
      → Refusal x f t

module _ (x : Saving) (f : TargetForm) (t : TargetTables) where
  -- Nothing is stored and the answer is not that of a success, or all of an acceptable target is
  -- stored.
  abbrev pub Outcome : TargetTables × Reply → Type 0
  Outcome z = ((z.0 ≡ t) × (z.1 ≢ redirect "/admin/targets") × Refusal x f t) ⊎ Saved x f t z.0 z.1
