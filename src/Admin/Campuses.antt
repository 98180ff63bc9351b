-- ===== src/Admin/Campuses.antt =====
-- internal/admin/campuses.go: the list of campuses, and the handlers that create, rename and delete one.
pub mod Kept
use Prim.Native.String
use cqu_netprobe_gateway.Prelude.{
  ℕ, String, Bool, true, false, not, Option, none, some, List, [], ◌∷◌, ◌==◌, ltb, if◌then◌else◌,
}
use cqu_netprobe_gateway.Prelude.Text.Split.{trim_space}
use cqu_netprobe_gateway.Prelude.Time.{Time}
use cqu_netprobe_gateway.RateLimit.{RateLimiter}
use cqu_netprobe_gateway.Forms.{rune_count, match_code}
use cqu_netprobe_gateway.Store.{
  WriteResult, written, missing, duplicate, in_use, write_failed, Exec, Transaction,
}
use cqu_netprobe_gateway.Store.Catalog.{
  Campus, Catalog, list_campuses, create_campus, update_campus_name, delete_campus,
}
use cqu_netprobe_gateway.Store.Catalog.Buildings.{list_buildings}
use cqu_netprobe_gateway.Admin.Server.{Admin, Reply, redirect, plain, missing_page, view, Visit}
use cqu_netprobe_gateway.Admin.Auth.{look_again}
use cqu_netprobe_gateway.Admin.Probes.{internal_error}

-- The message for a name that is refused.
unfoldable pub validate_name : String → Option String
validate_name name =
    if name == "" then some "显示名不能为空" else if ltb 64 (rune_count name) then some "显示名过长" else none

unfoldable pub validate_catalog_names : String → String → Option String
validate_catalog_names code name =
    if not (match_code code) then some "代号只能使用 1-16 位小写字母、数字或下划线" else validate_name name

-- What the driver and the clock do during a request.
pub record Around : Type 0 where
  pub campuses_fail : Bool
  pub buildings_fail : Bool
  pub insert_fails : Bool
  pub rename : Exec
  pub count_fails : Bool
  pub deletion : Transaction
  pub store_now : Time

-- `renderCampuses`.
unfoldable pub render_campuses : Around → Catalog → ℕ → String → Reply
render_campuses x c status message = elim (list_campuses x.campuses_fail c) [
  | none ↦ internal_error
  | some campuses ↦ elim (list_buildings x.buildings_fail c) [
    | none ↦ internal_error
    | some buildings ↦ view status "campuses.html" message
  ]
]

abbrev pub new_campus : String → String → Campus
new_campus code name = record { code = code; name = name; created_at = 0; updated_at = 0 }

abbrev pub to_campuses : Reply
to_campuses = redirect "/admin/campuses"

unfoldable pub created_reply : Around → String → Catalog × WriteResult → Catalog × Reply
created_reply x code (c, written) = (c, to_campuses)
created_reply x code (c, duplicate) =
    (c, render_campuses x c 400 (String.◌++◌ "代号 " (String.◌++◌ code " 已存在")))
created_reply x code (c, missing) = (c, internal_error)
created_reply x code (c, in_use) = (c, internal_error)
created_reply x code (c, write_failed) = (c, internal_error)

-- Behind the checks of the form.
unfoldable pub create_checked : Around → Catalog → String → String → Option String → Catalog × Reply
create_checked x c code name (some message) = (c, render_campuses x c 400 message)
create_checked x c code name none =
    created_reply x code (create_campus x.insert_fails x.store_now c (new_campus code name))

unfoldable pub renamed_reply : Catalog × WriteResult → Catalog × Reply
renamed_reply (c, written) = (c, to_campuses)
renamed_reply (c, missing) = (c, missing_page)
renamed_reply (c, duplicate) = (c, internal_error)
renamed_reply (c, in_use) = (c, internal_error)
renamed_reply (c, write_failed) = (c, internal_error)

unfoldable pub rename_checked : Around → Catalog → String → String → Option String → Catalog × Reply
rename_checked x c code name (some message) = (c, render_campuses x c 400 message)
rename_checked x c code name none =
    renamed_reply (update_campus_name x.rename x.store_now c code name)

abbrev pub in_use_message : String → String
in_use_message code = String.◌++◌ "校区 " (String.◌++◌ code " 仍被探针引用（直接引用，或引用了它名下的楼栋），请先迁移或删除这些探针")

unfoldable pub deleted_reply : Around → String → Catalog × WriteResult → Catalog × Reply
deleted_reply x code (c, written) = (c, to_campuses)
deleted_reply x code (c, missing) = (c, missing_page)
deleted_reply x code (c, in_use) = (c, render_campuses x c 409 (in_use_message code))
deleted_reply x code (c, duplicate) = (c, internal_error)
deleted_reply x code (c, write_failed) = (c, internal_error)

module _ {R : RateLimiter} where
  abbrev pub with_catalog : Admin R → Catalog × Reply → Admin R × Reply
  with_catalog s (c, reply) = (record s { catalog = c }, reply)

  unfoldable pub handle_campus_list : Visit → Around → Admin R → Admin R × Reply
  handle_campus_list v x s = (look_again v s, render_campuses x s.catalog 200 "")

  -- The code and the name of the form.
  unfoldable pub handle_campus_create : Visit → Around → String → String → Admin R → Admin R × Reply
  handle_campus_create v x code name s = with_catalog (look_again v s) (
      create_checked x s.catalog (trim_space code) (trim_space name)
        (validate_catalog_names (trim_space code) (trim_space name)))

  -- The code of the path and the name of the form.
  unfoldable pub handle_campus_update : Visit → Around → String → String → Admin R → Admin R × Reply
  handle_campus_update v x code name s =
      if not (match_code code)
      then (look_again v s, missing_page)
      else with_catalog (look_again v s)
          (rename_checked x s.catalog code (trim_space name) (validate_name (trim_space name)))

  unfoldable pub handle_campus_delete : Visit → Around → String → Admin R → Admin R × Reply
  handle_campus_delete v x code s =
      with_catalog (look_again v s)
        (deleted_reply x code (delete_campus x.count_fails x.deletion s.catalog s.probes.rows code))

-- All that the handlers compute with, past the store.
unfoldable pub campus_handlers_run : Unit {0}
unfolding validate_name validate_catalog_names render_campuses created_reply create_checked
    renamed_reply rename_checked deleted_reply handle_campus_list handle_campus_create
    handle_campus_update handle_campus_delete
campus_handlers_run = tt
