-- ===== src/Admin/Campuses/Kept.antt =====
-- What the handlers of campuses keep of the catalog.
use cqu_netprobe_gateway.Prelude.{
  ◌≤◌, String, Bool, true, false, not, Option, none, some, List, [], ◌∷◌, ◌≡◌, ◌≢◌, refl, sym,
  subst, inl, inr, arith, Bool-cases, eq_iff, All, if◌then◌else◌,
}
use cqu_netprobe_gateway.Prelude.Text.Split.{trim_space}
use cqu_netprobe_gateway.Prelude.Time.{Time, unix}
use cqu_netprobe_gateway.RateLimit.{RateLimiter}
use cqu_netprobe_gateway.Forms.{rune_count, match_code}
use cqu_netprobe_gateway.Store.{
  WriteResult, written, missing, duplicate, in_use, write_failed, Exec, Transaction,
}
use cqu_netprobe_gateway.Store.Table.{has, All-append, All-delete, All-update}
use cqu_netprobe_gateway.Store.Probes.{ProbeRow}
use cqu_netprobe_gateway.Store.Probes.Unique.{execute_cases}
use cqu_netprobe_gateway.Store.Catalog.{
  CampusRow, Catalog, campus_code_of, with_campus_name, create_campus, update_campus_name,
  delete_campus,
}
use cqu_netprobe_gateway.Store.Catalog.Consistent.{
  IsConsistent, create_campus_call, name_campus_call, delete_campus_call,
}
use cqu_netprobe_gateway.Store.Catalog.Deletions.{delete_campus_result, step-IsConsistent}
use cqu_netprobe_gateway.Admin.Server.{Admin, Visit, missing_page}
use cqu_netprobe_gateway.Admin.Auth.{look_again}
use cqu_netprobe_gateway.Admin.Campuses.{
  Around, validate_name, validate_catalog_names, new_campus, created_reply, create_checked,
  with_catalog, renamed_reply, rename_checked, deleted_reply, handle_campus_list,
  handle_campus_create, handle_campus_update, handle_campus_delete,
}

-- A code that may stand in a label and in the ID of a probe, and a name that can be shown.
pub record IsGood (r : CampusRow) : Type 0 where
  pub good_code : match_code r.code ≡ true
  pub has_name : r.name ≢ ""
  pub short_name : rune_count r.name ≤ 64

abbrev AllGood : Catalog → Type 0
AllGood c = All IsGood c.campuses

-- The invariant of the catalog beside the probes.
pub record IsKept (probes : List ProbeRow) (c : Catalog) : Type 0 where
  pub consistent : IsConsistent probes c
  pub good : All IsGood c.campuses

validate_name_sound :
    (name : String) → validate_name name ≡ none → (name ≢ "") × (rune_count name ≤ 64)
unfolding validate_name
validate_name_sound name h = (ground (arith, h, eq_iff name ""), ground (arith, h))

validate_catalog_names_sound :
    (code name : String)
    → validate_catalog_names code name ≡ none
    → (match_code code ≡ true) × (validate_name name ≡ none)
unfolding validate_catalog_names
validate_catalog_names_sound code name h = ground (arith, h)

create_campus-AllGood :
    (fails : Bool) (now : Time) (c : Catalog) (code name : String)
    → validate_catalog_names code name ≡ none
    → AllGood c
    → AllGood (create_campus fails now c (new_campus code name)).0
unfolding create_campus
create_campus-AllGood true now c code name h w = w
create_campus-AllGood false now c code name h w =
    elim (Bool-cases (has campus_code_of code c.campuses)) [
      | inl e ↦ rw e w
      | inr e ↦ rw e (
          let (g, n) = validate_catalog_names_sound code name h in
          let (ne, short) = validate_name_sound name n in
          All-append campus_code_of IsGood c.campuses _ w
            (record { good_code = g; has_name = ne; short_name = short }))
    ]

update_campus_name-AllGood :
    (driver : Exec) (now : Time) (c : Catalog) (code name : String)
    → validate_name name ≡ none
    → AllGood c
    → AllGood (update_campus_name driver now c code name).0
unfolding update_campus_name
update_campus_name-AllGood driver now c code name h w =
    let (ne, short) = validate_name_sound name h in
    execute_cases AllGood driver c _ _ w (
      All-update campus_code_of IsGood code (with_campus_name (unix now) name) c.campuses
        (λ a g. record { good_code = g.good_code; has_name = ne; short_name = short }) w)

delete_campus-AllGood :
    (count_fails : Bool) (d : Transaction) (c : Catalog) (probes : List ProbeRow) (code : String)
    → AllGood c
    → AllGood (delete_campus count_fails d c probes code).0
delete_campus-AllGood count_fails d c probes code w =
    elim (delete_campus_result count_fails d c probes code) [
      | inl e ↦ subst AllGood (sym e) w
      | inr (none_left, e) ↦
          subst AllGood (sym e) (All-delete campus_code_of IsGood code c.campuses w)
    ]

created_reply-catalog :
    (x : Around) (code : String) (w : Catalog × WriteResult) → (created_reply x code w).0 ≡ w.0
unfolding created_reply
created_reply-catalog x code (c, written) = refl
created_reply-catalog x code (c, duplicate) = refl
created_reply-catalog x code (c, missing) = refl
created_reply-catalog x code (c, in_use) = refl
created_reply-catalog x code (c, write_failed) = refl

renamed_reply-catalog : (w : Catalog × WriteResult) → (renamed_reply w).0 ≡ w.0
unfolding renamed_reply
renamed_reply-catalog (c, written) = refl
renamed_reply-catalog (c, missing) = refl
renamed_reply-catalog (c, duplicate) = refl
renamed_reply-catalog (c, in_use) = refl
renamed_reply-catalog (c, write_failed) = refl

deleted_reply-catalog :
    (x : Around) (code : String) (w : Catalog × WriteResult) → (deleted_reply x code w).0 ≡ w.0
unfolding deleted_reply
deleted_reply-catalog x code (c, written) = refl
deleted_reply-catalog x code (c, missing) = refl
deleted_reply-catalog x code (c, in_use) = refl
deleted_reply-catalog x code (c, duplicate) = refl
deleted_reply-catalog x code (c, write_failed) = refl

create_checked-IsKept :
    (probes : List ProbeRow) (x : Around) (c : Catalog) (code name : String) (o : Option String)
    → validate_catalog_names code name ≡ o
    → IsKept probes c
    → IsKept probes (create_checked x c code name o).0
unfolding create_checked
create_checked-IsKept probes x c code name (some m) h w = w
create_checked-IsKept probes x c code name none h w =
    subst (IsKept probes)
      (sym (
        created_reply-catalog x code
          (create_campus x.insert_fails x.store_now c (new_campus code name))))
      (record {
        consistent =
            step-IsConsistent probes c
              (create_campus_call x.insert_fails x.store_now (new_campus code name)) w.consistent;
        good = create_campus-AllGood x.insert_fails x.store_now c code name h w.good;
      })

rename_checked-IsKept :
    (probes : List ProbeRow) (x : Around) (c : Catalog) (code name : String) (o : Option String)
    → validate_name name ≡ o
    → IsKept probes c
    → IsKept probes (rename_checked x c code name o).0
unfolding rename_checked
rename_checked-IsKept probes x c code name (some m) h w = w
rename_checked-IsKept probes x c code name none h w =
    subst (IsKept probes)
      (sym (renamed_reply-catalog (update_campus_name x.rename x.store_now c code name)))
      (record {
        consistent =
            step-IsConsistent probes c (name_campus_call x.rename x.store_now code name)
              w.consistent;
        good = update_campus_name-AllGood x.rename x.store_now c code name h w.good;
      })

-- The requests that reach these handlers.
pub data CampusRequest : Type 0 where
  list_request : CampusRequest
  create_request : (code name : String) → CampusRequest
  rename_request : (code name : String) → CampusRequest
  delete_request : (code : String) → CampusRequest

module _ {R : RateLimiter} where
  abbrev pub handle : Admin R → Visit × Around × CampusRequest → Admin R
  handle s (v, x, list_request) = (handle_campus_list v x s).0
  handle s (v, x, create_request code name) = (handle_campus_create v x code name s).0
  handle s (v, x, rename_request code name) = (handle_campus_update v x code name s).0
  handle s (v, x, delete_request code) = (handle_campus_delete v x code s).0

  abbrev pub handle_all : Admin R → List (Visit × Around × CampusRequest) → Admin R
  handle_all s [] = s
  handle_all s (r ∷ requests) = handle_all (handle s r) requests

  abbrev renamed_if : Visit → Around → Admin R → String → String → Bool → Admin R
  renamed_if v x s code name b =
      (if not b
        then (look_again v s, missing_page)
        else with_catalog (look_again v s)
            (rename_checked x s.catalog code (trim_space name) (validate_name (trim_space name)))).0

  handle-IsKept :
      (s : Admin R) (r : Visit × Around × CampusRequest)
      → IsKept s.probes.rows s.catalog
      → IsKept (handle s r).probes.rows (handle s r).catalog
  unfolding handle_campus_list handle_campus_create handle_campus_update handle_campus_delete
  handle-IsKept s (v, x, list_request) w = w
  handle-IsKept s (v, x, create_request code name) w =
      create_checked-IsKept s.probes.rows x s.catalog (trim_space code) (trim_space name)
        (validate_catalog_names (trim_space code) (trim_space name)) refl w
  handle-IsKept s (v, x, rename_request code name) w = by_code (match_code code) (
      rename_checked-IsKept s.probes.rows x s.catalog code (trim_space name)
        (validate_name (trim_space name)) refl w)
    where
      by_code :
          (b : Bool)
          → IsKept s.probes.rows
              (rename_checked x s.catalog code
                (trim_space name)
                (validate_name (trim_space name))).0
          → IsKept (renamed_if v x s code name b).probes.rows (renamed_if v x s code name b).catalog
      by_code true k = k
      by_code false k = w
  handle-IsKept s (v, x, delete_request code) w =
      subst (IsKept s.probes.rows)
        (sym (
          deleted_reply-catalog x code
            (delete_campus x.count_fails x.deletion s.catalog s.probes.rows code)))
        (record {
          consistent =
              step-IsConsistent s.probes.rows s.catalog
                (delete_campus_call x.count_fails x.deletion code) w.consistent;
          good = delete_campus-AllGood x.count_fails x.deletion s.catalog s.probes.rows code w.good;
        })

  -- Through every sequence of requests for campuses, whatever the driver does, the catalog stays
  -- consistent with the probes, and every campus has a code that the pattern admits and a name that is
  -- neither empty nor longer than 64 characters.
  pub handle_all-IsKept :
      (s : Admin R) (requests : List (Visit × Around × CampusRequest))
      → IsKept s.probes.rows s.catalog
      → IsKept (handle_all s requests).probes.rows (handle_all s requests).catalog
  handle_all-IsKept s [] w = w
  handle_all-IsKept s (r ∷ requests) w =
      handle_all-IsKept (handle s r) requests (handle-IsKept s r w)
