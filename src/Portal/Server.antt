-- ===== src/Portal/Server.antt =====
-- internal/portal/portal.go: the state of the portal, its answers, the check of the origin, and the
-- form and token pages. The templates are left out: a page is the data that is given to one.
use Prim.Native.String.{len, slice}
use Prim.Native.Nat.{◌-◌}
use cqu_netprobe_gateway.Prelude.{
  ℕ, String, Bool, true, false, Option, none, some, List, ◌||◌, ◌==◌, if◌then◌else◌,
}
use cqu_netprobe_gateway.Prelude.Text.Split.{trim_space}
use cqu_netprobe_gateway.Prelude.Time.{Time}
use cqu_netprobe_gateway.RateLimit.{RateLimiter}
use cqu_netprobe_gateway.ClientIp.{NetLibrary}
use cqu_netprobe_gateway.Store.Probes.{ProbeTable}
use cqu_netprobe_gateway.Store.Catalog.{Catalog, Campus, Building, list_campuses}
use cqu_netprobe_gateway.Store.Catalog.Buildings.{list_buildings_by_campus}
use cqu_netprobe_gateway.Portal.OneShot.{OneShot, OneShotStore, take_pair}
use cqu_netprobe_gateway.Portal.Limiter.{RegisterLimiter}

-- The tables that the portal reads and writes, its limiter, which may be nil, and its slots.
pub record Portal (R : RateLimiter) : Type 0 where
  pub probes : ProbeTable
  pub catalog : Catalog
  pub limiter : Option (RegisterLimiter R)
  pub one_shot : OneShotStore

-- What is read of the configuration.
pub record Settings (L : NetLibrary) : Type 0 where
  pub public_base_url : String
  pub max_probes : ℕ
  pub trusted_proxies : List L.Network

-- The data of the registration page.
pub record FormPage : Type 0 where
  pub campuses : List Campus
  pub campus : String
  pub buildings : Option (List Building)

pub data Answer : Type 0 where
  redirect : String → Answer
  plain : ℕ → String → Answer
  form_page : ℕ → String → FormPage → Answer
  token_page : String → String → String → String → Answer
  token_gone : Answer

abbrev pub internal_error : Answer
internal_error = plain 500 "internal error"

-- Whether the driver fails the two queries of `renderForm`.
pub record RenderFaults : Type 0 where
  pub campuses_fail : Bool
  pub buildings_fail : Bool

abbrev pub with_buildings : ℕ → String → String → Option (List Building) → List Campus → Answer
with_buildings status message campus none campuses = internal_error
with_buildings status message campus (some buildings) campuses =
    form_page status message
      (record { campuses = campuses; campus = campus; buildings = some buildings })

abbrev pub with_campuses : Bool → Catalog → ℕ → String → String → Option (List Campus) → Answer
with_campuses buildings_fail c status message campus none = internal_error
with_campuses buildings_fail c status message campus (some campuses) =
    if campus == ""
    then form_page status message
        (record { campuses = campuses; campus = campus; buildings = none })
    else with_buildings status message campus (list_buildings_by_campus buildings_fail c campus)
        campuses

unfoldable pub render_form : RenderFaults → Catalog → ℕ → String → String → Answer
render_form f c status message campus =
    with_campuses f.buildings_fail c status message campus (list_campuses f.campuses_fail c)

-- The host of a parsed URL by `net/url`; an error is `none`.
abbrev same_host : String → Option String → Bool
same_host host none = true
same_host host (some base) = base == "" || host == base

abbrev origin_host : Option String → Option String → Bool
origin_host none base = false
origin_host (some host) base = same_host host base

unfoldable pub origin_allowed : (String → Option String) → String → String → Bool
origin_allowed url_host public_base_url origin =
    if origin == "" then true else origin_host (url_host origin) (url_host public_base_url)

-- `strings.TrimSuffix`.
abbrev pub trim_suffix : String → String → String
trim_suffix s suffix =
    let cut = len s - len suffix in if slice s cut (len s) == suffix then slice s 0 cut else s

abbrev show_record : String → OneShotStore × Option OneShot → OneShotStore × Answer
show_record base (o, none) = (o, token_gone)
show_record base (o, some rec) =
    (o, token_page rec.probe_id rec.value (trim_suffix base "/") rec.back)

-- `handleTokenShow`.
unfoldable pub handle_token_show : String → OneShotStore → String → Time → OneShotStore × Answer
handle_token_show base o slot now = show_record base (take_pair o slot now)

-- `handleForm`, on the campus of the query.
unfoldable pub handle_form : RenderFaults → Catalog → String → Answer
handle_form f c campus = render_form f c 200 "" (trim_space campus)
