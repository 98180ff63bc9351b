-- ===== src/Admin/Server.antt =====
-- internal/admin/server.go: the state of the management interface and its answers. A page is the name
-- of its template with the error that it shows.
use cqu_netprobe_gateway.Prelude.{ℕ, String, Option}
use cqu_netprobe_gateway.Prelude.Time.{Time, Duration}
use cqu_netprobe_gateway.RateLimit.{RateLimiter}
use cqu_netprobe_gateway.Latest
use cqu_netprobe_gateway.Api.Limiter.{Limiter}
use cqu_netprobe_gateway.Store.Probes.{ProbeTable}
use cqu_netprobe_gateway.Store.Catalog.{Catalog}
use cqu_netprobe_gateway.Admin.Session.{SessionStore}
use cqu_netprobe_gateway.Portal.OneShot.{OneShotStore}

-- What requests change: the tables, the sessions, the slots of the portal, and what is kept in memory
-- of each probe.
pub record Admin (R : RateLimiter) : Type 0 where
  pub probes : ProbeTable
  pub catalog : Catalog
  pub sessions : SessionStore
  pub one_shot : OneShotStore
  pub latest : Latest.Store
  pub limiter : Limiter R

-- What is fixed when the server is built.
pub record Fixed : Type 0 where
  pub username : String
  pub password_hash : String
  pub online_threshold : Duration

pub data Reply : Type 0 where
  redirect : String → Reply
  plain : ℕ → String → Reply
  missing_page : Reply
  view : ℕ → String → String → Reply
  signed_in : String → Reply
  signed_out : Reply

-- The fields that the session routes read of a form.
pub record FormFields : Type 0 where
  pub username : String
  pub password : String
  pub csrf : String

-- The parts of a request that the session routes read: the cookie, the form unless it does not parse,
-- and the readings of the clock.
pub record Visit : Type 0 where
  pub cookie : Option String
  pub fields : Option FormFields
  pub now : Time
  pub csrf_now : Time
  pub handler_now : Time
