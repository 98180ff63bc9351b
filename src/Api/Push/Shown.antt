-- ===== src/Api/Push/Shown.antt =====
-- What the list of probes and a scrape show of a push.
use cqu_netprobe_gateway.Prelude.{
  ◌+◌, ◌-◌, ◌≤◌, String, true, some, [], ◌∷◌, ◌≡◌, ◌≢◌, ◌⊎◌, ◌∙◌, refl, ap, inl, inr, arith, leb,
}
use cqu_netprobe_gateway.Prelude.GoMap.{lookup-insert_here}
use cqu_netprobe_gateway.Prelude.Time.{Time, Duration}
use cqu_netprobe_gateway.Latest.{Entry, get, put}
use cqu_netprobe_gateway.Latest
use cqu_netprobe_gateway.Protocol.Types.{Results}
use cqu_netprobe_gateway.Metrics.{scan_probes, start}
use cqu_netprobe_gateway.Admin.Probes.{
  online_state, count_probe_filter, matches_probe_filter, probe_row,
}
use cqu_netprobe_gateway.Admin.Probes.Counts.{counts-scan}
use cqu_netprobe_gateway.Store.{Probe}
use cqu_netprobe_gateway.Api.Errors.{Response, no_content}
use cqu_netprobe_gateway.Api.Server.{PushCall, Clock, Reads}
use cqu_netprobe_gateway.Api.Push.{Imports, ServerOf, handle_push}
use cqu_netprobe_gateway.Api.Push.Effects.{
  IsAcceptedPush, Pushed, handle_push-Pushed, handle_push_accepted,
}

get-put :
    (m : Latest.Store) (id : String) (results : Results) (at : Time)
    → get (put m id results at) id ≡ some (record { results = results; server_received_at = at })
unfolding get put
get-put m id results at = lookup-insert_here id _ m.entries

online_state-put :
    (m : Latest.Store) (threshold : Duration) (now at : Time) (p : Probe) (results : Results)
    → p.enabled ≡ true
    → now ≤ at + threshold
    → online_state (put m p.probe_id results at) threshold now p ≡ (true, at)
unfolding online_state
online_state-put m threshold now at p results on le =
    rw (on, get-put m p.probe_id results at) (ap (λ b. (b, at)) (within le))
  where
    within : now ≤ at + threshold → leb (now - at) threshold ≡ true
    within le = ground (arith, le)

-- A probe that is shown online counts as one.
count_online :
    (m : Latest.Store) (threshold : Duration) (now at : Time) (p : Probe)
    → p.enabled ≡ true
    → online_state m threshold now p ≡ (true, at)
    → count_probe_filter m threshold now "online" (p ∷ []) ≡ 1
unfolding count_probe_filter matches_probe_filter probe_row
count_online m threshold now at p on h = rw (h, on) refl

module _ (I : Imports) where
  -- An accepted push, or one that shows nowhere.
  abbrev pub Shown :
      ServerOf I → Reads → Clock → PushCall → Duration → Time → ServerOf I × Response → Type 0
  Shown s reads clock r threshold now out =
      ((a : IsAcceptedPush I s reads clock r) × (out.1 ≡ no_content)
        × (online_state out.0.latest threshold now a.probe ≡ (true, clock.received_at))
        × ((scan_probes out.0.latest now threshold start (a.probe ∷ [])).online ≡ 1))
      ⊎ ((IsAcceptedPush I s reads clock r → ⊥)
          × (out.1 ≢ no_content)
          × ((id : String) → get out.0.latest id ≡ get s.latest id))

  -- At any time until the threshold has passed since the server received it: a push of a known and
  -- enabled probe, within its allowance and with an acceptable body, is answered 204, and the list
  -- shows the probe online, last seen when the push was received, and the collector counts one online
  -- probe when it scans this one; every other push has another answer, and what is kept of each probe
  -- is as before.
  pub handle_push-Shown :
      (s : ServerOf I) (reads : Reads) (clock : Clock) (r : PushCall) (threshold : Duration)
      (now : Time)
      → now ≤ clock.received_at + threshold
      → Shown s reads clock r threshold now (handle_push I s reads clock r)
  handle_push-Shown s reads clock r threshold now le = shown (handle_push-Pushed I s reads clock r)
    where
      out : ServerOf I × Response
      out = handle_push I s reads clock r

      shown : Pushed I s reads clock r out → Shown s reads clock r threshold now out
      shown (inr (ne, kept)) =
          inr
            (λ a. ne (handle_push_accepted I s reads clock r a), ne, λ id. ap (λ m. get m id) kept)
      shown (inl (a, sent, l)) =
          let online : online_state out.0.latest threshold now a.probe ≡ (true, clock.received_at) =
            ap (λ m. online_state m threshold now a.probe) l
            ∙ online_state-put s.latest threshold now clock.received_at a.probe a.body.req.results
                a.enabled le in
          inl (
            a,
            sent,
            online,
            (counts-scan out.0.latest threshold now (a.probe ∷ [])).0
                ∙ count_online out.0.latest threshold now clock.received_at a.probe a.enabled
                    online,
          )
