-- ===== src/Admin/Targets.antt =====
-- internal/admin/targets.go: the form of a target, and the handlers that save and delete one. The
-- tables of targets are passed beside the rest of the server's state, which the handlers leave alone
-- but for the session.
pub mod Saved
use Prim.Native.Char.{Char, code}
use Prim.Native.String
use cqu_netprobe_gateway.Prelude.{
  ℕ, String, Bool, true, false, not, ◌&&◌, ◌||◌, Option, none, some, List, [], ◌∷◌, ◌==◌, leb, ltb,
  if◌then◌else◌, ◌≡◌, refl,
}
use cqu_netprobe_gateway.Prelude.Sort.{sort_by}
use cqu_netprobe_gateway.Prelude.Text.Split.{trim_space}
use cqu_netprobe_gateway.Prelude.Time.{Time}
use cqu_netprobe_gateway.RateLimit.{RateLimiter}
use cqu_netprobe_gateway.Protocol.Types.{probe_icmp, probe_dns, probe_http}
use cqu_netprobe_gateway.Store.{
  WriteResult, written, missing, duplicate, in_use, write_failed, Exec, Transaction,
}
use cqu_netprobe_gateway.Store.Table.{is_member}
use cqu_netprobe_gateway.Store.Targets.{
  Target, TargetTables, list_targets, create_target, update_target, delete_target,
}
use cqu_netprobe_gateway.Forms.{rune_count, all_code_chars}
use cqu_netprobe_gateway.Admin.Server.{Admin, Reply, redirect, plain, missing_page, view, Visit}
use cqu_netprobe_gateway.Admin.Auth.{look_again}
use cqu_netprobe_gateway.Admin.Probes.{internal_error}

-- `^[a-z0-9_]{1,32}$`.
unfoldable pub valid_target_id : String → Bool
valid_target_id s = leb 1 (rune_count s) && leb (rune_count s) 32 && all_code_chars s

abbrev pub valid_probe_type : String → Bool
valid_probe_type s = s == probe_icmp || s == probe_dns || s == probe_http

-- The fields of a submitted form.
pub record TargetForm : Type 0 where
  pub target_id : String
  pub display_name : String
  pub address : String
  pub description : String
  pub enabled : String
  pub probe_types : List String

-- A message for the user, or what was read.
pub data Checked {ℓ} (T : Type ℓ) : Type ℓ where
  rejected : String → Checked T
  accepted : T → Checked T

-- The loop over the submitted types, each of which is taken once.
unfoldable pub read_types : List String → List String → Checked (List String)
read_types seen [] = accepted []
read_types seen (pt ∷ types) =
    let skip = read_types seen types in
    let take = read_types (pt ∷ seen) types in
    if not (valid_probe_type pt)
    then rejected "Probe Type 只能是 icmp、dns 或 http"
    else if is_member pt seen
    then skip
    else elim take [ rejected m ↦ rejected m | accepted out ↦ accepted (pt ∷ out) ]

-- The target that a form asks for; the store gives the row its number and its times.
unfoldable pub form_target : TargetForm → List String → Target
form_target f types = record {
  id = 0;
  target_id = trim_space f.target_id;
  display_name = trim_space f.display_name;
  address = trim_space f.address;
  description = trim_space f.description;
  enabled = not (f.enabled == "");
  probe_types = sort_by (λ s. s) types;
  created_at = 0;
  updated_at = 0;
}

abbrev pub is_too_long : TargetForm → Bool
is_too_long f =
    ltb 64 (rune_count (trim_space f.display_name))
    || ltb 256 (rune_count (trim_space f.address))
    || ltb 256 (rune_count (trim_space f.description))

-- Behind the loop over the types.
unfoldable pub check_fields : TargetForm → Checked (List String) → Checked Target
check_fields f (rejected m) = rejected m
check_fields f (accepted []) = rejected "至少选择一种 Probe Type"
check_fields f (accepted (pt ∷ types)) =
    if is_too_long f then rejected "字段过长" else accepted (form_target f (pt ∷ types))

unfoldable pub read_target_form : TargetForm → Checked Target
read_target_form f = check_fields f (read_types [] f.probe_types)

unfoldable pub check_id : Checked Target → Checked Target
check_id (rejected m) = rejected m
check_id (accepted t) =
    if valid_target_id t.target_id then accepted t else rejected "Target ID 只能使用 1-32 位小写字母、数字或下划线"

-- What the driver and the clock do while a target is saved.
pub record Saving : Type 0 where
  pub list_fails : Bool
  pub types_fail : String → Bool
  pub creation : Transaction
  pub creation_now : Time
  pub update : Transaction
  pub update_now : Time

-- `renderTargetsWithError`.
unfoldable pub render_targets : Saving → TargetTables → ℕ → String → Reply
render_targets x t status message = elim (list_targets x.list_fails x.types_fail t) [
  | none ↦ internal_error
  | some targets ↦ view status "targets.html" message
]

-- Behind `CreateTarget`; an ID that is there already is updated in place.
unfoldable pub or_update : Saving → Target → TargetTables × WriteResult → TargetTables × WriteResult
or_update x tgt (t, duplicate) = update_target x.update x.update_now t tgt
or_update x tgt (t, written) = (t, written)
or_update x tgt (t, missing) = (t, missing)
or_update x tgt (t, in_use) = (t, in_use)
or_update x tgt (t, write_failed) = (t, write_failed)

abbrev pub saved_reply : WriteResult → Reply
saved_reply written = redirect "/admin/targets"
saved_reply missing = internal_error
saved_reply duplicate = internal_error
saved_reply in_use = internal_error
saved_reply write_failed = internal_error

-- A row that is not there is answered as a page that is not there.
abbrev pub changed_reply : WriteResult → Reply
changed_reply written = redirect "/admin/targets"
changed_reply missing = missing_page
changed_reply duplicate = internal_error
changed_reply in_use = internal_error
changed_reply write_failed = internal_error

abbrev pub replied : (WriteResult → Reply) → TargetTables × WriteResult → TargetTables × Reply
replied reply (t, result) = (t, reply result)

unfoldable pub save_created : Saving → TargetTables → Checked Target → TargetTables × Reply
save_created x t (rejected m) = (t, render_targets x t 400 m)
save_created x t (accepted tgt) =
    replied saved_reply (or_update x tgt (create_target x.creation x.creation_now t tgt))

unfoldable pub save_updated : Saving → TargetTables → String → Checked Target → TargetTables × Reply
save_updated x t id (rejected m) = (t, render_targets x t 400 m)
save_updated x t id (accepted tgt) =
    replied changed_reply (update_target x.update x.update_now t (record tgt { target_id = id }))

module _ {R : RateLimiter} where
  abbrev pub beside : Admin R → TargetTables × Reply → Admin R × TargetTables × Reply
  beside s (t, reply) = (s, t, reply)

  -- `none` is the answer 500.
  unfoldable pub handle_target_list :
      Visit → Bool → (String → Bool) → Admin R → TargetTables → Admin R × Option (List Target)
  handle_target_list v fails types_fail s t = (look_again v s, list_targets fails types_fail t)

  unfoldable pub handle_target_create :
      Visit → Saving → TargetForm → Admin R → TargetTables → Admin R × TargetTables × Reply
  handle_target_create v x f s t =
      beside (look_again v s) (save_created x t (check_id (read_target_form f)))

  -- The ID of the path is the one that counts.
  unfoldable pub handle_target_update :
      Visit → Saving → String → TargetForm → Admin R → TargetTables → Admin R × TargetTables × Reply
  handle_target_update v x id f s t =
      beside (look_again v s) (save_updated x t id (read_target_form f))

  unfoldable pub handle_target_delete :
      Visit → Exec → String → Admin R → TargetTables → Admin R × TargetTables × Reply
  handle_target_delete v driver id s t =
      beside (look_again v s) (replied changed_reply (delete_target driver t id))

-- All that the handlers compute with, past the store.
unfoldable pub target_handlers_run : Unit {0}
unfolding valid_target_id read_types form_target check_fields read_target_form check_id
    render_targets or_update save_created save_updated handle_target_list handle_target_create
    handle_target_update handle_target_delete rune_count all_code_chars trim_space
target_handlers_run = tt
