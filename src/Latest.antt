-- ===== src/Latest.antt =====
-- internal/latest/store.go: the latest measurement of each probe. The lock makes each operation
-- one step.
pub mod Traces
mod Tests
use cqu_netprobe_gateway.Prelude.{String, Option, []}
use cqu_netprobe_gateway.Prelude.GoMap.{GoMap, lookup, insert, erase}
use cqu_netprobe_gateway.Prelude.Time.{Time}
use cqu_netprobe_gateway.Protocol.Types.{Results}

pub record Entry : Type 0 where
  pub results : Results
  pub server_received_at : Time

pub record Store : Type 0 where
  pub entries : GoMap Entry

unfoldable pub new : Store
new = record { entries = [] }

unfoldable pub put : Store → String → Results → Time → Store
put s probe_id results at = record s {
  entries = insert probe_id (record { results = results; server_received_at = at }) s.entries;
}

unfoldable pub get : Store → String → Option Entry
get s probe_id = lookup probe_id s.entries

-- A copy; entries never change once stored, so the values may be shared.
unfoldable pub snapshot : Store → GoMap Entry
snapshot s = s.entries

unfoldable pub delete : Store → String → Store
delete s probe_id = record s { entries = erase probe_id s.entries }
