-- ===== src/Admin/Probes/Counts.antt =====
-- The counts of the probe list, and the gauges of a scrape.
use cqu_netprobe_gateway.Prelude.{
  ℕ, ◌+◌, suc, String, Bool, true, false, not, ◌&&◌, List, [], ◌∷◌, ◌≡◌, refl, ap, ◌∙◌, inl, inr,
  arith, Bool-cases, Option-cases, length, if◌then◌else◌,
}
use cqu_netprobe_gateway.Prelude.Time.{Time, Duration}
use cqu_netprobe_gateway.Latest
use cqu_netprobe_gateway.Latest.{Entry, get}
use cqu_netprobe_gateway.Store.{Probe}
use cqu_netprobe_gateway.Metrics.{
  is_online, Scan, scan_entry, scan_flag, scan_probe, scan_probes, start,
}
use cqu_netprobe_gateway.Admin.Probes.{
  online_state, probe_row, matches_probe_filter, count_probe_filter,
}

module _ (latest : Latest.Store) (threshold : Duration) (now : Time) where
  abbrev counted : String → List Probe → ℕ
  counted filter ps = count_probe_filter latest threshold now filter ps

  -- Each probe is counted by exactly one of the three filters.
  partition :
      (ps : List Probe)
      → counted "disabled" ps + counted "online" ps + counted "offline" ps ≡ length ps
  unfolding count_probe_filter matches_probe_filter probe_row
  partition [] = refl
  partition (p ∷ ps) = by_flags p.enabled (online_state latest threshold now p).0 (partition ps)
    where
      by_flags :
          (enabled online : Bool)
          → counted "disabled" ps + counted "online" ps + counted "offline" ps ≡ length ps
          → (if not enabled then suc (counted "disabled" ps) else counted "disabled" ps)
              + (if enabled && online then suc (counted "online" ps) else counted "online" ps)
              + (if enabled && not online then suc (counted "offline" ps) else counted "offline" ps)
            ≡ suc (length ps)
      by_flags true true h = omega (arith, h)
      by_flags true false h = omega (arith, h)
      by_flags false true h = omega (arith, h)
      by_flags false false h = omega (arith, h)

  -- One turn of the collector's loop counts a probe as the list does.
  scan_probe_online :
      (c : Scan) (p : Probe)
      → (scan_probe latest now threshold c p).online
        ≡ (if p.enabled && (online_state latest threshold now p).0 then suc c.online else c.online)
  unfolding scan_probe scan_flag scan_entry online_state
  scan_probe_online c p = elim (Bool-cases p.enabled) [
    | inl e ↦ elim (Option-cases (get latest p.probe_id)) [
      | inl g ↦ rw (e, g) refl
      | inr (entry, g) ↦ elim (Bool-cases (is_online now threshold entry)) [
        | inl q ↦ rw (e, g, q) refl
        | inr q ↦ rw (e, g, q) refl
      ]
    ]
    | inr e ↦ rw e refl
  ]

  scan_probes_online :
      (c : Scan) (ps : List Probe)
      → (scan_probes latest now threshold c ps).online ≡ counted "online" ps + c.online
  unfolding scan_probes count_probe_filter matches_probe_filter probe_row
  scan_probes_online c [] = omega arith
  scan_probes_online c (p ∷ ps) =
      scan_probes_online (scan_probe latest now threshold c p) ps
      ∙ ap (λ n. counted "online" ps + n) (scan_probe_online c p)
      ∙ by_test (p.enabled && (online_state latest threshold now p).0)
    where
      by_test :
          (b : Bool)
          → counted "online" ps + (if b then suc c.online else c.online)
            ≡ (if b then suc (counted "online" ps) else counted "online" ps) + c.online
      by_test true = omega arith
      by_test false = refl

  -- On the same probes, threshold and clock the list and a scrape agree: the list's count of online
  -- probes is the collector's, and its three filters split all probes.
  pub counts-scan :
      (ps : List Probe)
      → ((scan_probes latest now threshold start ps).online ≡ counted "online" ps)
        × (counted "disabled" ps + counted "online" ps + counted "offline" ps ≡ length ps)
  counts-scan ps = (scan_probes_online start ps ∙ omega arith, partition ps)
