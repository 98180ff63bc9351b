-- ===== src/Metrics.antt =====
-- internal/metrics/collector.go and names.go: what a scrape emits. A sample is a name, the values of
-- its labels and a value; the channel is the list of what was sent. The two counts are float64 in the
-- source, which counts exactly to 2^53; here they are numbers, converted when they are sent.
pub mod Scrape
mod Tests
use cqu_netprobe_gateway.Prelude.{
  ℕ, suc, ◌-◌, ◌/◌, String, Bool, true, false, not, Option, none, some, List, [], ◌∷◌, ◌++◌, ◌==◌,
  leb, if◌then◌else◌,
}
use cqu_netprobe_gateway.Prelude.Int.{ℤ, pos, ◌-i◌}
use cqu_netprobe_gateway.Prelude.GoMap.{GoMap, lookup, keys}
use cqu_netprobe_gateway.Prelude.Time.{Time, Duration, second}
use cqu_netprobe_gateway.Float64.{Float64, of_int, ◌/f◌}
use cqu_netprobe_gateway.Protocol.Types.{
  IcmpResult, DnsResult, HttpResult, Measurement, Results, probe_icmp, probe_dns, probe_http,
}
use cqu_netprobe_gateway.Protocol.Request.{sort_strings}
use cqu_netprobe_gateway.Store.{Probe}
use cqu_netprobe_gateway.Latest
use cqu_netprobe_gateway.Latest.{Entry, get}

pub record Sample : Type 0 where
  pub name : String
  pub labels : List String
  pub value : Float64

abbrev sample : String → List String → Float64 → Sample
sample name labels value = record { name = name; labels = labels; value = value }

pub bool_value : Bool → Float64
bool_value true = of_int (pos 1)
bool_value false = of_int (pos 0)

pub milliseconds_to_seconds : Float64 → Float64
milliseconds_to_seconds ms = ms /f of_int (pos 1000)

-- A field that is nil sends nothing.
abbrev in_seconds : String → List String → Option Float64 → List Sample
in_seconds name labels none = []
in_seconds name labels (some v) = sample name labels (milliseconds_to_seconds v) ∷ []

pub emit_icmp : Option IcmpResult → List String → List Sample
emit_icmp none labels = []
emit_icmp (some m) labels =
    sample "campus_probe_icmp_success" labels (bool_value m.success)
    ∷ sample "campus_probe_icmp_loss_ratio" labels m.loss_ratio
    ∷ (in_seconds "campus_probe_icmp_rtt_min_seconds" labels m.min_rtt_ms
        ++ in_seconds "campus_probe_icmp_rtt_seconds" labels m.avg_rtt_ms
        ++ in_seconds "campus_probe_icmp_rtt_max_seconds" labels m.max_rtt_ms
        ++ in_seconds "campus_probe_icmp_jitter_seconds" labels m.jitter_ms)

pub emit_dns : Option DnsResult → List String → List Sample
emit_dns none labels = []
emit_dns (some m) labels =
    sample "campus_probe_dns_success" labels (bool_value m.success)
    ∷ in_seconds "campus_probe_dns_duration_seconds" labels m.duration_ms

abbrev status_sample : List String → Option ℤ → List Sample
status_sample labels none = []
status_sample labels (some code) = sample "campus_probe_http_status_code" labels (of_int code) ∷ []

pub emit_http : Option HttpResult → List String → List Sample
emit_http none labels = []
emit_http (some m) labels =
    sample "campus_probe_http_success" labels (bool_value m.success)
    ∷ (status_sample labels m.status_code
        ++ in_seconds "campus_probe_http_duration_seconds" labels m.duration_ms)

abbrev or_nothing : Option Measurement → Measurement
or_nothing none = record { icmp = none; dns = none; http = none }
or_nothing (some m) = m

pub emit_type : String → Measurement → List String → List Sample
emit_type pt m labels =
    if pt == probe_icmp
    then emit_icmp m.icmp labels
    else if pt == probe_dns
    then emit_dns m.dns labels
    else if pt == probe_http
    then emit_http m.http labels
    else []

pub emit_types : GoMap Measurement → List String → List String → List Sample
emit_types by_type labels [] = []
emit_types by_type labels (pt ∷ types) =
    emit_type pt (or_nothing (lookup pt by_type)) labels ++ emit_types by_type labels types

abbrev or_no_types : Option (GoMap Measurement) → GoMap Measurement
or_no_types none = []
or_no_types (some m) = m

pub emit_targets : Results → List String → List String → List Sample
emit_targets results ident [] = []
emit_targets results ident (target ∷ targets) =
    let by_type = or_no_types (lookup target results) in
    emit_types by_type (ident ++ (target ∷ [])) (sort_strings (keys by_type))
    ++ emit_targets results ident targets

unfoldable pub emit_measurements : Results → List String → List Sample
emit_measurements results ident = emit_targets results ident (sort_strings (keys results))

abbrev pub identity_labels : Probe → List String
identity_labels p =
    p.probe_id ∷ p.campus_code ∷ p.building_group_code ∷ p.building_code ∷ p.network_type ∷ []

-- Seconds from the year 1 to 1970.
abbrev unix_epoch : ℕ
unix_epoch = 62135596800

-- `t.Unix()`.
abbrev unix : Time → ℤ
unix t = pos (t / second) -i pos unix_epoch

abbrev pub online_sample : List String → Bool → Sample
online_sample ident online = sample "campus_probe_online" ident (bool_value online)

unfoldable pub last_seen_sample : List String → Entry → Sample
last_seen_sample ident e =
    sample "campus_probe_last_seen_timestamp_seconds" ident (of_int (unix e.server_received_at))

-- The loop's state: the counts and what was sent.
pub record Scan : Type 0 where
  pub registered : ℕ
  pub online : ℕ
  pub sent : List Sample

abbrev send : Scan → List Sample → Scan
send c samples = record c { sent = c.sent ++ samples }

-- `now.Sub(entry.ServerReceivedAt) <= c.threshold`; an entry from the future is within it.
abbrev pub is_online : Time → Duration → Entry → Bool
is_online now threshold e = leb (now - e.server_received_at) threshold

unfoldable pub scan_entry : Time → Duration → List String → Scan → Option Entry → Scan
scan_entry now threshold ident c none = send c (online_sample ident false ∷ [])
scan_entry now threshold ident c (some e) =
    if is_online now threshold e
    then send (record c { online = suc c.online })
        (online_sample ident true
          ∷ (emit_measurements e.results ident ++ (last_seen_sample ident e ∷ [])))
    else send c (online_sample ident false ∷ last_seen_sample ident e ∷ [])

unfoldable pub scan_flag : Latest.Store → Time → Duration → Probe → Scan → Bool → Scan
scan_flag latest now threshold p c false = c
scan_flag latest now threshold p c true =
    scan_entry now threshold (identity_labels p) c (get latest p.probe_id)

-- The body of the loop.
unfoldable pub scan_probe : Latest.Store → Time → Duration → Scan → Probe → Scan
scan_probe latest now threshold c p =
    scan_flag latest now threshold p (record c { registered = suc c.registered }) p.enabled

unfoldable pub scan_probes : Latest.Store → Time → Duration → Scan → List Probe → Scan
scan_probes latest now threshold c [] = c
scan_probes latest now threshold c (p ∷ ps) =
    scan_probes latest now threshold (scan_probe latest now threshold c p) ps

pub finish : Scan → List Sample
finish c =
    c.sent
    ++ (sample "cqu_netprobe_gateway_registered_probes" [] (of_int (pos c.registered))
        ∷ sample "cqu_netprobe_gateway_online_probes" [] (of_int (pos c.online))
        ∷ [])

abbrev pub start : Scan
start = record { registered = 0; online = 0; sent = [] }

-- What is sent, and whether an error is counted; a failed list of probes is `none`.
unfoldable pub collect : Latest.Store → Time → Duration → Option (List Probe) → List Sample × Bool
collect latest now threshold none = ([], true)
collect latest now threshold (some probes) =
    (finish (scan_probes latest now threshold start probes), false)
