-- ===== src/Protocol/Config/Laws.antt =====
-- What a validated configuration promises to the probes, and where the 64-bit arithmetic breaks it.
use cqu_netprobe_gateway.Prelude.{
  ℕ, zero, suc, ◌+◌, ◌-◌, ◌*◌, ◌%◌, ◌≤◌, ◌<◌, none, ◌≡◌, ◌↔◌, eq_iff, ap, ◌∙◌, arith,
}
use cqu_netprobe_gateway.Prelude.Int.{
  ℤ, pos, negsuc, pos_part, ◌≤ℤ◌, ◌<ℤ◌, ◌+i◌, ◌-i◌, ◌*i◌, two_63, two_64,
}
use cqu_netprobe_gateway.Prelude.Int.Arithmetic.{+i_small, *i_small, -i_one, *i_overflow}
use cqu_netprobe_gateway.Protocol.Config.{
  MeasurementConfig, min_interval_ms, http_method, dns_transport, icmp_round_ms, timeout_error,
  validate,
}

-- The worst case of one ICMP round, as a number without a bound.
abbrev pub round_ms : MeasurementConfig → ℕ
round_ms c = (pos_part c.icmp.count - 1) * pos_part c.icmp.interval_ms + pos_part c.icmp.timeout_ms

-- Parameters that a probe can follow: everything is positive, a whole ICMP round and both other
-- timeouts end before the next cycle begins, and the method and the transport are those of v1.
pub record IsDispatchable (c : MeasurementConfig) : Type 0 where
  pub cycle : min_interval_ms ≤ℤ c.interval_ms
  pub count_pos : pos 0 <ℤ c.icmp.count
  pub interval_pos : pos 0 <ℤ c.icmp.interval_ms
  pub timeout_pos : pos 0 <ℤ c.icmp.timeout_ms
  pub round_fits : pos (round_ms c) <ℤ c.interval_ms
  pub method_get : c.http.method ≡ http_method
  pub transport_udp : c.dns.transport ≡ dns_transport
  pub http_pos : pos 0 <ℤ c.http.timeout_ms
  pub http_fits : c.http.timeout_ms <ℤ c.interval_ms
  pub dns_pos : pos 0 <ℤ c.dns.timeout_ms
  pub dns_fits : c.dns.timeout_ms <ℤ c.interval_ms

round_of_pos :
    (n d t : ℕ)
    → n * suc d + t < two_63
    → (pos (suc n) -i pos 1) *i pos (suc d) +i pos t ≡ pos (n * suc d + t)
round_of_pos n d t h =
    rw (-i_one n (omega arith), *i_small n (suc d) (omega arith)) (+i_small (n * suc d) t h)

round_exact :
    (count interval timeout : ℤ)
    → pos 0 <ℤ count
    → pos 0 <ℤ interval
    → pos 0 <ℤ timeout
    → (pos_part count - 1) * pos_part interval + pos_part timeout < two_63
    → (count -i pos 1) *i interval +i timeout
      ≡ pos ((pos_part count - 1) * pos_part interval + pos_part timeout)
round_exact (pos (suc n)) (pos (suc d)) (pos t) h i j k =
    let e : suc n - 1 ≡ n = omega arith in rw e (round_of_pos n d t (rw e at k))
round_exact (pos zero) d t h i j k = absurd (omega arith)
round_exact (pos (suc n)) (pos zero) t h i j k = absurd (omega arith)
round_exact (negsuc n) d t h i j k = absurd (omega arith)
round_exact (pos (suc n)) (negsuc d) t h i j k = absurd (omega arith)
round_exact (pos (suc n)) (pos (suc d)) (negsuc t) h i j k = absurd (omega arith)

-- Without overflow `ICMPRoundMS` is the true duration.
icmp_round_ms_exact :
    (c : MeasurementConfig)
    → pos 0 <ℤ c.icmp.count
    → pos 0 <ℤ c.icmp.interval_ms
    → pos 0 <ℤ c.icmp.timeout_ms
    → round_ms c < two_63
    → icmp_round_ms c ≡ pos (round_ms c)
unfolding icmp_round_ms
icmp_round_ms_exact c h i t k =
    ground (arith, round_exact c.icmp.count c.icmp.interval_ms c.icmp.timeout_ms h i t k)

timeout_error_iff :
    (c : MeasurementConfig)
    → (timeout_error c ≡ none) ↔ (
        (pos 0 <ℤ c.http.timeout_ms)
        × (c.http.timeout_ms <ℤ c.interval_ms)
        × (pos 0 <ℤ c.dns.timeout_ms)
        × (c.dns.timeout_ms <ℤ c.interval_ms))
unfolding timeout_error
timeout_error_iff c = ground arith

validate_sound :
    (c : MeasurementConfig) → round_ms c < two_63 → validate c ≡ none → IsDispatchable c
unfolding validate
validate_sound c h e = ground (
  arith,
  icmp_round_ms_exact c,
  timeout_error_iff c,
  eq_iff c.http.method http_method,
  eq_iff c.dns.transport dns_transport,
)

validate_complete :
    (c : MeasurementConfig) → round_ms c < two_63 → IsDispatchable c → validate c ≡ none
unfolding validate
validate_complete c h v = ground (
  arith,
  icmp_round_ms_exact c,
  timeout_error_iff c,
  eq_iff c.http.method http_method,
  eq_iff c.dns.transport dns_transport,
)

-- Where the true duration of an ICMP round is below 2^63, `MeasurementConfig.Validate` accepts
-- exactly the configurations that a probe can follow.
pub validate_iff :
    (c : MeasurementConfig) → round_ms c < two_63 → (validate c ≡ none) ↔ IsDispatchable c
validate_iff c h = (validate_sound c h, validate_complete c h)

-- A configuration that is in order but for its ICMP round, whose gaps add up to a multiple of 2^64
-- milliseconds.
pub record IsWrapping (c : MeasurementConfig) : Type 0 where
  pub gaps : ℕ
  pub step : ℕ
  pub wait : ℕ
  pub count_eq : c.icmp.count ≡ pos (suc gaps)
  pub interval_eq : c.icmp.interval_ms ≡ pos (suc step)
  pub timeout_eq : c.icmp.timeout_ms ≡ pos (suc wait)
  pub gaps_pos : 0 < gaps
  pub gaps_in_range : gaps < two_63
  pub wraps : (gaps * suc step) % two_64 ≡ 0
  pub cycle : min_interval_ms ≤ℤ c.interval_ms
  pub cycle_in_range : c.interval_ms <ℤ pos two_63
  pub wait_fits : pos (suc wait) <ℤ c.interval_ms
  pub method_get : c.http.method ≡ http_method
  pub transport_udp : c.dns.transport ≡ dns_transport
  pub http_pos : pos 0 <ℤ c.http.timeout_ms
  pub http_fits : c.http.timeout_ms <ℤ c.interval_ms
  pub dns_pos : pos 0 <ℤ c.dns.timeout_ms
  pub dns_fits : c.dns.timeout_ms <ℤ c.interval_ms

wrapped_round :
    (n d t : ℕ)
    → n < two_63
    → (n * suc d) % two_64 ≡ 0
    → t < two_63
    → (pos (suc n) -i pos 1) *i pos (suc d) +i pos t ≡ pos t
wrapped_round n d t h w k =
    rw (-i_one n h, *i_overflow n (suc d) w) (+i_small 0 t (omega arith) ∙ ap pos (omega arith))

icmp_round_ms_wrapped :
    (c : MeasurementConfig) (w : IsWrapping c) → icmp_round_ms c ≡ pos (suc w.wait)
unfolding icmp_round_ms
icmp_round_ms_wrapped c w =
    rw (w.count_eq, w.interval_eq, w.timeout_eq)
      (ground (
        arith,
        wrapped_round w.gaps w.step (suc w.wait) w.gaps_in_range w.wraps,
        w.wait_fits,
        w.cycle_in_range,
      ))

gaps_long : (n d t : ℕ) → 0 < n → (n * suc d) % two_64 ≡ 0 → two_64 ≤ (suc n - 1) * suc d + t
gaps_long n d t h w = let e : suc n - 1 ≡ n = omega arith in rw e (omega (arith, product_pos n d h))
  where
    product_pos : (n d : ℕ) → 0 < n → 0 < n * suc d
    product_pos n d h = grind arith

round_ms_long : (c : MeasurementConfig) (w : IsWrapping c) → two_64 ≤ round_ms c
round_ms_long c w =
    rw (w.count_eq, w.interval_eq, w.timeout_eq)
      (gaps_long w.gaps w.step (suc w.wait) w.gaps_pos w.wraps)

-- Where the gaps of a round add up to a multiple of 2^64, the product wraps to 0 and `Validate`
-- accepts a configuration that no probe can follow.
pub validate_overflow :
    (c : MeasurementConfig) → IsWrapping c → (validate c ≡ none) × (¬ IsDispatchable c)
unfolding validate
validate_overflow c w = (
  ground (
    arith,
    icmp_round_ms_wrapped c w,
    timeout_error_iff c,
    eq_iff c.http.method http_method,
    eq_iff c.dns.transport dns_transport,
  ),
  λ v. omega (arith, round_ms_long c w, v.round_fits, w.cycle_in_range),
)
