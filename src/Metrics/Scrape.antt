-- ===== src/Metrics/Scrape.antt =====
-- What a scrape says of the whole fleet.
use mathlib.Core.List.{append_assoc, append-nil}
use cqu_netprobe_gateway.Prelude.{
  ℕ, suc, ◌+◌, ◌-◌, ◌/◌, leb, String, Bool, true, false, Option, none, some, List, [], ◌∷◌, ◌++◌,
  ◌≡◌, refl, sym, ap, ◌∙◌, length, inl, inr, Bool-cases, arith, if◌then◌else◌,
}
use cqu_netprobe_gateway.Prelude.Time.{Time, Duration, second}
use cqu_netprobe_gateway.Prelude.Int.{ℤ, pos, ◌-i◌}
use cqu_netprobe_gateway.Float64.{of_int}
use cqu_netprobe_gateway.Store.{Probe}
use cqu_netprobe_gateway.Latest
use cqu_netprobe_gateway.Latest.{Entry, get}
use cqu_netprobe_gateway.Metrics.{
  Sample, Scan, emit_measurements, identity_labels, is_online, last_seen_sample, bool_value,
  scan_entry, scan_flag, scan_probe, scan_probes, finish, start, collect,
}

module _ (latest : Latest.Store) (now : Time) (threshold : Duration) where
  abbrev pub gauge : String → List String → ℤ → Sample
  gauge name labels value = record { name = name; labels = labels; value = of_int value }

  -- The last push, in seconds since 1970.
  abbrev last_seen : List String → Entry → Sample
  last_seen ident e =
      gauge "campus_probe_last_seen_timestamp_seconds" ident
        (pos (e.server_received_at / second) -i pos 62135596800)

  -- What is said of one enabled probe: online with its measurements and the time of its last push, or
  -- offline with that time if it ever pushed.
  abbrev entry_report : List String → Option Entry → List Sample
  entry_report ident none = gauge "campus_probe_online" ident (pos 0) ∷ []
  entry_report ident (some e) =
      if leb (now - e.server_received_at) threshold
      then gauge "campus_probe_online" ident (pos 1)
        ∷ (emit_measurements e.results ident ++ (last_seen ident e ∷ []))
      else gauge "campus_probe_online" ident (pos 0) ∷ last_seen ident e ∷ []

  abbrev report_flag : Probe → Bool → List Sample
  report_flag p false = []
  report_flag p true = entry_report (identity_labels p) (get latest p.probe_id)

  -- A disabled probe is not mentioned.
  abbrev pub reports : List Probe → List Sample
  reports [] = []
  reports (p ∷ ps) = report_flag p p.enabled ++ reports ps

  abbrev entry_count : Option Entry → ℕ
  entry_count none = 0
  entry_count (some e) = if leb (now - e.server_received_at) threshold then 1 else 0

  abbrev count_flag : Probe → Bool → ℕ
  count_flag p false = 0
  count_flag p true = entry_count (get latest p.probe_id)

  -- How many enabled probes pushed within the threshold.
  abbrev pub online_count : List Probe → ℕ
  online_count [] = 0
  online_count (p ∷ ps) = count_flag p p.enabled + online_count ps

  abbrev then_scan : Scan → ℕ → ℕ → List Sample → Scan
  then_scan c registered online samples = record {
    registered = registered + c.registered;
    online = online + c.online;
    sent = c.sent ++ samples;
  }

  scan_path :
      (c d : Scan) → c.registered ≡ d.registered → c.online ≡ d.online → c.sent ≡ d.sent → c ≡ d
  scan_path c d h k l = cc (h, k, l)

  scan_entry-eq :
      (ident : List String) (c : Scan) (o : Option Entry)
      → scan_entry now threshold ident c o ≡ then_scan c 0 (entry_count o) (entry_report ident o)
  unfolding scan_entry last_seen_sample bool_value
  scan_entry-eq ident c none = scan_path _ _ (omega arith) (omega arith) refl
  scan_entry-eq ident c (some e) = elim (Bool-cases (is_online now threshold e)) [
    | inl q ↦ rw (scan_entry, q) (scan_path _ _ (omega arith) (omega arith) refl)
    | inr q ↦ rw (scan_entry, q) (scan_path _ _ (omega arith) (omega arith) refl)
  ]

  scan_flag-eq :
      (p : Probe) (c : Scan) (b : Bool)
      → scan_flag latest now threshold p c b ≡ then_scan c 0 (count_flag p b) (report_flag p b)
  unfolding scan_flag
  scan_flag-eq p c true = scan_entry-eq (identity_labels p) c (get latest p.probe_id)
  scan_flag-eq p c false = scan_path _ _ (omega arith) (omega arith) (sym (append-nil c.sent))

  scan_probes-eq :
      (ps : List Probe) (c : Scan)
      → scan_probes latest now threshold c ps
        ≡ then_scan c (length ps) (online_count ps) (reports ps)
  unfolding scan_probes scan_probe
  scan_probes-eq [] c = scan_path _ _ (omega arith) (omega arith) (sym (append-nil c.sent))
  scan_probes-eq (p ∷ ps) c =
      ap (λ d. scan_probes latest now threshold d ps)
        (scan_flag-eq p (record c { registered = suc c.registered }) p.enabled)
      ∙ scan_probes-eq ps _
      ∙ scan_path _ _ (omega arith) (omega arith)
          (append_assoc c.sent (report_flag p p.enabled) (reports ps))

  -- The two gauges on the whole fleet.
  abbrev pub totals : List Probe → List Sample
  totals ps =
      gauge "cqu_netprobe_gateway_registered_probes" [] (pos (length ps))
      ∷ gauge "cqu_netprobe_gateway_online_probes" [] (pos (online_count ps))
      ∷ []

  -- Where the probes are read, a scrape is the reports of the probes one after the other, each by
  -- its probe's own state, then how many probes there are and how many enabled ones pushed within the
  -- threshold, and no error is counted.
  pub collect-eq :
      (ps : List Probe) → collect latest now threshold (some ps) ≡ (reports ps ++ totals ps, false)
  unfolding collect finish
  collect-eq ps =
      ap (λ c. (finish c, false))
        (scan_probes-eq ps start ∙ scan_path _ _ (omega arith) (omega arith) refl)
