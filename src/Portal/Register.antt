-- ===== src/Portal/Register.antt =====
-- internal/portal/register.go: the public registration of a probe.
pub mod Added
pub mod Effects
pub mod Overlap
pub mod Registered
mod Tests
use Prim.Native.String
use cqu_netprobe_gateway.Prelude.{
  ℕ, zero, suc, String, Bool, true, false, not, Option, none, some, List, [], ◌∷◌, ◌==◌, leb, ltb,
  if◌then◌else◌, ◌&&◌,
}
use cqu_netprobe_gateway.Prelude.Text.Split.{trim_space}
use cqu_netprobe_gateway.Prelude.Time.{Time}
use cqu_netprobe_gateway.RateLimit.{RateLimiter}
use cqu_netprobe_gateway.ClientIp
use cqu_netprobe_gateway.ClientIp.{NetLibrary, from}
use cqu_netprobe_gateway.Forms.{
  rune_count, match_code, is_network_type, max_description, generate_probe_id, itoa,
}
use cqu_netprobe_gateway.Store.{
  Probe, Lookup, found, not_found, failed, WriteResult, written, missing, duplicate, in_use,
  write_failed,
}
use cqu_netprobe_gateway.Store.Probes.{ProbeTable, create_probe, count_probes}
use cqu_netprobe_gateway.Store.Catalog.{Catalog, Campus, Building, list_campuses, get_campus}
use cqu_netprobe_gateway.Store.Catalog.Buildings.{get_building}
use cqu_netprobe_gateway.Portal.OneShot.{OneShotStore, put_pair}
use cqu_netprobe_gateway.Portal.Limiter.{RegisterLimiter, allow}
use cqu_netprobe_gateway.Portal.Server.{
  Portal, Settings, Answer, redirect, plain, internal_error, RenderFaults, render_form,
  origin_allowed,
}

pub record RegistrationForm : Type 0 where
  pub campus_code : String
  pub building_code : String
  pub network_type : String
  pub description : String

-- A request: its Origin, the form fields unless `ParseForm` failed, and its client.
pub record RegisterCall : Type 0 where
  pub origin : String
  pub fields : Option RegistrationForm
  pub client : ClientIp.Request

-- One turn of the loop that draws an ID: the random bytes, and what the driver and the clock do.
pub record Attempt : Type 0 where
  pub suffix : Option (List ℕ)
  pub insert_fails : Bool
  pub read_fails : Bool
  pub now : Time

-- All that happens around one request: the driver on its queries, the limiter's readings of the clock,
-- the token, the turns of the loop, and the slot with its reading of the clock.
pub record Surroundings : Type 0 where
  pub list_fails : Bool
  pub validate_fails : Bool
  pub building_fails : Bool
  pub campus_fails : Bool
  pub count_fails : Bool
  pub render : RenderFaults
  pub limiter_now : Time
  pub limiter_at : Time
  pub token : Option String
  pub attempt : ℕ → Attempt
  pub slot : Option String
  pub slot_now : Time

-- A step that goes on with a value, or has answered.
pub data Checked {ℓ} (A : Type ℓ) : Type ℓ where
  answered : Answer → Checked A
  passed : A → Checked A

infixl 5 ◌>>=◌ ◌>>◌
abbrev pub ◌>>=◌ {ℓ κ} : {A : Type ℓ} {B : Type κ} → Checked A → (A → Checked B) → Checked B
passed a >>= f = f a
answered r >>= f = answered r

abbrev pub ◌>>◌ {ℓ} : {B : Type ℓ} → Checked (Unit {0}) → Checked B → Checked B
m >> k = m >>= λ _. k

abbrev pub require : Bool → Answer → Checked (Unit {0})
require true r = passed tt
require false r = answered r

abbrev pub or_answer {ℓ} : {A : Type ℓ} → Option A → Answer → Checked A
or_answer none r = answered r
or_answer (some a) r = passed a

abbrev pub found_or {ℓ} : {A : Type ℓ} → Lookup A → Answer → Checked A
found_or (found a) r = passed a
found_or not_found r = answered r
found_or failed r = answered r

abbrev pub trimmed : RegistrationForm → RegistrationForm
trimmed f = record {
  campus_code = trim_space f.campus_code;
  building_code = trim_space f.building_code;
  network_type = trim_space f.network_type;
  description = trim_space f.description;
}

abbrev pub building_message : RegistrationForm → Lookup Building → String
building_message f not_found = "楼栋不存在，请从列表中选择。"
building_message f failed = "无法校验楼栋，请稍后重试。"
building_message f (found b) = if not (b.campus_code == f.campus_code) then "所选楼栋不属于该校区。" else ""

unfoldable pub validate_registration : Bool → Catalog → RegistrationForm → String
validate_registration fails c f =
    if not (match_code f.campus_code)
    then "请选择校区。"
    else if not (match_code f.building_code)
    then "请选择楼栋。"
    else if not (is_network_type f.network_type)
    then "网络类型必须是 wired 或 wireless。"
    else if ltb max_description (rune_count f.description)
    then "备注过长。"
    else building_message f (get_building fails c f.building_code)

-- The format of the answer at the cap.
abbrev pub cap_message : ℕ → String
cap_message max = String.◌++◌ "探针数量已达上限（" (String.◌++◌ (itoa max) " 个），暂时无法自助注册。请联系网络中心。")

-- What passed the checks of the form.
pub record Accepted : Type 0 where
  pub form : RegistrationForm
  pub building : Building
  pub campus : Campus

abbrev pub is_empty_list : List Campus → Bool
is_empty_list [] = true
is_empty_list (c ∷ cs) = false

abbrev pub max_attempts : ℕ
max_attempts = 5

module _ (R : RateLimiter) (L : NetLibrary) (url_host : String → Option String)
    (token_hash : String → String) where
  -- The building and its campus, read again for the row.
  unfoldable pub check_location : Catalog → Surroundings → RegistrationForm → Checked Accepted
  check_location c env form = do
    building ←
        found_or (get_building env.building_fails c form.building_code)
          (render_form env.render c 400 "楼栋不存在，请从列表中选择。" form.campus_code)
    campus ←
        found_or (get_campus env.campus_fails c building.campus_code)
          (render_form env.render c 400 "楼栋所属校区不存在。" form.campus_code)
    passed (record { form = form; building = building; campus = campus })

  -- From the parsed form on.
  unfoldable pub check_fields : Catalog → Surroundings → RegistrationForm → Checked Accepted
  check_fields c env form = do
    campuses ← or_answer (list_campuses env.list_fails c) internal_error
    require (not (is_empty_list campuses)) (render_form env.render c 503 "管理员尚未配置任何校区，暂时无法注册。" "")
    let message = validate_registration env.validate_fails c form
    require (message == "") (render_form env.render c 400 message form.campus_code)
    check_location c env form

  -- The handler up to the limiter; nothing has changed yet.
  unfoldable pub check_form : Settings L → Catalog → Surroundings → RegisterCall → Checked Accepted
  check_form cfg c env r = do
    require (origin_allowed url_host cfg.public_base_url r.origin) (plain 403 "forbidden origin")
    fields ← or_answer r.fields (plain 400 "invalid form")
    check_fields c env (trimmed fields)

  -- The probe before its ID is drawn.
  unfoldable pub new_probe : Accepted → String → Probe
  new_probe a token = record {
    id = 0;
    probe_id = "";
    token_hash = token_hash token;
    campus_code = a.campus.code;
    campus_name = a.campus.name;
    building_group_code = a.building.building_group_code;
    building_group_name = a.building.building_group_name;
    building_code = a.building.code;
    building_name = a.building.name;
    network_type = a.form.network_type;
    enabled = true;
    description = a.form.description;
    rotated_at = 0;
    created_via = "public";
    created_at = 0;
    updated_at = 0;
  }

  -- `none` is one of the loop's answers 500.
  pub after_create :
      ProbeTable × (WriteResult × Probe)
      → (ProbeTable → Probe → ProbeTable × Option Probe)
      → ProbeTable × Option Probe
  after_create (t, (written, p)) retry = (t, some p)
  after_create (t, (duplicate, p)) retry = retry t p
  after_create (t, (missing, p)) retry = (t, none)
  after_create (t, (in_use, p)) retry = (t, none)
  after_create (t, (write_failed, p)) retry = (t, none)

  -- The loop, by the turns that are left; the next one's number is `i`.
  pub create_loop :
      ℕ → ℕ → (ℕ → Attempt) → String → String → ProbeTable → Probe → ProbeTable × Option Probe
  create_loop zero i attempt campus building t p = (t, none)
  create_loop (suc left) i attempt campus building t p =
      elim (generate_probe_id campus building (attempt i).suffix) [
        | none ↦ (t, none)
        | some id ↦
            after_create
              (create_probe (attempt i).insert_fails (attempt i).read_fails (attempt i).now t
                (record p { probe_id = id }))
              (create_loop left (suc i) attempt campus building)
      ]

  -- From a row that was created on.
  pub show_slot : Portal R → Surroundings → String → ProbeTable × Option Probe → Portal R × Answer
  show_slot s env token (t, none) = (record s { probes = t }, internal_error)
  show_slot s env token (t, some p) =
      let (o, slot) = put_pair s.one_shot env.slot p.probe_id token "/" env.slot_now in
      (
        record s { probes = t; one_shot = o },
        elim slot [ none ↦ internal_error | some v ↦ redirect (String.◌++◌ "/token/" v) ],
      )

  pub create_with_token : Portal R → Surroundings → Accepted → Option String → Portal R × Answer
  create_with_token s env a none = (s, internal_error)
  create_with_token s env a (some token) = show_slot s env token (
      create_loop max_attempts 0 env.attempt a.campus.code a.building.code s.probes
        (new_probe a token))

  -- The cap, on the count of the rows.
  pub check_cap : Settings L → Portal R → Surroundings → Accepted → Option ℕ → Portal R × Answer
  check_cap cfg s env a none = (s, internal_error)
  check_cap cfg s env a (some count) =
      if leb cfg.max_probes count
      then (s, render_form env.render s.catalog 503 (cap_message cfg.max_probes) a.form.campus_code)
      else create_with_token s env a env.token

  -- `s.limiter != nil && !s.limiter.Allow(...)`.
  pub spend_of : Portal R → Option (RegisterLimiter R) → String → Surroundings → Portal R × Bool
  spend_of s none ip env = (s, true)
  spend_of s (some l) ip env =
      let (l', allowed) = allow R l ip env.limiter_now env.limiter_at in
      (record s { limiter = some l' }, allowed)

  pub within_allowance : Settings L → Surroundings → Accepted → Portal R × Bool → Portal R × Answer
  within_allowance cfg env a (s, false) =
      (s, render_form env.render s.catalog 429 "注册过于频繁，请稍后再试。" a.form.campus_code)
  within_allowance cfg env a (s, true) =
      check_cap cfg s env a (count_probes env.count_fails s.probes)

  pub register_checked :
      Settings L → Portal R → Surroundings → RegisterCall → Checked Accepted → Portal R × Answer
  register_checked cfg s env r (answered answer) = (s, answer)
  register_checked cfg s env r (passed a) =
      within_allowance cfg env a (spend_of s s.limiter (from L r.client cfg.trusted_proxies) env)

  unfoldable pub handle_register :
      Settings L → Portal R → Surroundings → RegisterCall → Portal R × Answer
  handle_register cfg s env r = register_checked cfg s env r (check_form cfg s.catalog env r)

  -- All that a run of `handle_register` computes with, past the store.
  unfoldable pub register_runs : Unit {0}
  unfolding check_location check_fields check_form new_probe after_create create_loop show_slot
      create_with_token check_cap spend_of within_allowance register_checked handle_register
  register_runs = tt
