-- ===== src/Admin/Probes/Cleared.antt =====
-- What a probe leaves behind in memory.
use cqu_netprobe_gateway.Prelude.{
  String, Bool, true, false, not, none, some, ◌≡◌, ◌≢◌, refl, sym, ap, subst, ◌∙◌, inl, inr, arith,
  Bool-cases, if◌then◌else◌, eqb, eq_refl,
}
use cqu_netprobe_gateway.Prelude.GoMap.{lookup, lookup-erase_here}
use cqu_netprobe_gateway.Prelude.Time.{Time, unix}
use cqu_netprobe_gateway.RateLimit.{RateLimiter}
use cqu_netprobe_gateway.Latest.{get}
use cqu_netprobe_gateway.Latest
use cqu_netprobe_gateway.Api.Limiter.{remove}
use cqu_netprobe_gateway.Store.{
  Probe, found, not_found, WriteResult, written, missing, duplicate, in_use, write_failed, Exec,
  ran, refused, uncounted, execute,
}
use cqu_netprobe_gateway.Store.Table.{
  find, update, delete, has, find-update, find-delete, map_found,
}
use cqu_netprobe_gateway.Store.Probes.{
  ProbeTable, bool_to_int, probe_id_of, scan_probe, scan_found, get_probe, with_enabled,
  set_probe_enabled, delete_probe,
}
use cqu_netprobe_gateway.Store.Probes.Tokens.{Holds, get_probe-Holds}
use cqu_netprobe_gateway.Admin.Server.{Admin, Reply, redirect, missing_page, Visit}
use cqu_netprobe_gateway.Admin.Auth.{look_again}
use cqu_netprobe_gateway.Admin.Probes.{
  forget, with_probes, after_toggle, toggle_found, handle_probe_toggle, after_delete,
  handle_probe_delete, internal_error,
}

flag_read : (b : Bool) → not (eqb (bool_to_int b) 0) ≡ b
flag_read true = refl
flag_read false = refl

-- The probe reads back with the flag that was written.
set_probe_enabled-reads :
    (driver : Exec) (now : Time) (t t' : ProbeTable) (id : String) (p : Probe) (b : Bool)
    → get_probe false t id ≡ found p
    → set_probe_enabled driver now t id b ≡ (t', written)
    → (q : Probe) × (get_probe false t' id ≡ found q)
      × (q.enabled ≡ b)
      × (q.token_hash ≡ p.token_hash)
unfolding set_probe_enabled execute get_probe scan_probe
set_probe_enabled-reads driver now t t' id p b h u = by_driver driver u
  where
    held : Holds t id p
    held = get_probe-Holds t id p h

    t₁ : ProbeTable
    t₁ = record t { rows = update probe_id_of id (with_enabled (unix now) b) t.rows }

    changed : find probe_id_of id t₁.rows ≡ some (with_enabled (unix now) b held.row)
    changed =
        find-update probe_id_of id id (with_enabled (unix now) b) t.rows (λ a. refl)
        ∙ subst
            (λ c.
              (if c
                then map_found (with_enabled (unix now) b) (find probe_id_of id t.rows)
                else find probe_id_of id t.rows)
              ≡ map_found (with_enabled (unix now) b) (find probe_id_of id t.rows))
            (sym (eq_refl id)) refl
        ∙ ap (map_found (with_enabled (unix now) b)) held.at

    reads :
        (q : Probe) × (scan_found (find probe_id_of id t₁.rows) ≡ found q)
        × (q.enabled ≡ b)
        × (q.token_hash ≡ p.token_hash)
    reads = (
      scan_probe (with_enabled (unix now) b held.row),
      ap scan_found changed,
      flag_read b,
      ap (λ (q : Probe). q.token_hash) held.scanned,
    )

    by_driver :
        (d : Exec)
        → execute d t t₁ (has probe_id_of id t.rows) ≡ (t', written)
        → (q : Probe) × (scan_found (find probe_id_of id t'.rows) ≡ found q)
          × (q.enabled ≡ b)
          × (q.token_hash ≡ p.token_hash)
    by_driver refused e = absurd (ground (arith, e))
    by_driver uncounted e = absurd (ground (arith, e))
    by_driver ran e =
        subst
          (λ (x : ProbeTable).
            (q : Probe) × (scan_found (find probe_id_of id x.rows) ≡ found q)
            × (q.enabled ≡ b)
            × (q.token_hash ≡ p.token_hash))
          (ap (λ (z : ProbeTable × WriteResult). z.0) e) reads

internal-ne : (path : String) → internal_error ≢ redirect path
internal-ne path h = absurd (ground (arith, h))

missing-ne : (path : String) → missing_page ≢ redirect path
missing-ne path h = absurd (ground (arith, h))

delete_probe-gone :
    (driver : Exec) (t t' : ProbeTable) (id : String)
    → delete_probe driver t id ≡ (t', written)
    → get_probe false t' id ≡ not_found
unfolding delete_probe execute get_probe
delete_probe-gone driver t t' id u = by_driver driver u
  where
    t₁ : ProbeTable
    t₁ = record t { rows = delete probe_id_of id t.rows }

    gone : find probe_id_of id t₁.rows ≡ none
    gone =
        find-delete probe_id_of id id t.rows
        ∙ subst (λ c. (if c then none else find probe_id_of id t.rows) ≡ none) (sym (eq_refl id))
            refl

    by_driver :
        (d : Exec)
        → execute d t t₁ (has probe_id_of id t.rows) ≡ (t', written)
        → get_probe false t' id ≡ not_found
    by_driver refused e = absurd (ground (arith, e))
    by_driver uncounted e = absurd (ground (arith, e))
    by_driver ran e =
        subst (λ (x : ProbeTable). get_probe false x id ≡ not_found)
          (ap (λ (z : ProbeTable × WriteResult). z.0) e) (ap scan_found gone)

module _ {R : RateLimiter} where
  -- Nothing is kept of the probe: no measurement that a scrape or the list would show, and no bucket.
  pub record IsForgotten (s : Admin R) (id : String) : Type 0 where
    pub no_entry : get s.latest id ≡ none
    pub no_bucket : lookup id s.limiter.buckets ≡ none

  forget-IsForgotten : (s : Admin R) (id : String) → IsForgotten (forget s id) id
  unfolding forget Latest.delete get remove
  forget-IsForgotten s id = record {
    no_entry = lookup-erase_here id s.latest.entries;
    no_bucket = lookup-erase_here id s.limiter.buckets;
  }

  -- What holds of the probe once its flag is turned over.
  abbrev pub IsToggled : String → Probe → Admin R → Type 0
  IsToggled id p s =
      (q : Probe) × (get_probe false s.probes id ≡ found q)
      × (q.enabled ≡ not p.enabled)
      × (q.token_hash ≡ p.token_hash)
      × (p.enabled ≡ true → IsForgotten s id)

  written-IsToggled :
      (s : Admin R) (id : String) (p q : Probe) (t : ProbeTable)
      → get_probe false t id ≡ found q
      → q.enabled ≡ not p.enabled
      → q.token_hash ≡ p.token_hash
      → IsToggled id p (if p.enabled then forget (with_probes s t) id else with_probes s t)
  unfolding forget
  written-IsToggled s id p q t h e k = elim (Bool-cases p.enabled) [
    | inl b ↦ rw b (q, h, e ∙ ap not b, k, λ c. forget-IsForgotten (with_probes s t) id)
    | inr b ↦ rw b (q, h, e ∙ ap not b, k, λ c. absurd (ground (arith, c)))
  ]

  after_toggle-IsToggled :
      (driver : Exec) (now : Time) (id : String) (s s' : Admin R) (p : Probe) (path : String)
      (w : ProbeTable × WriteResult)
      → get_probe false s.probes id ≡ found p
      → set_probe_enabled driver now s.probes id (not p.enabled) ≡ w
      → after_toggle s id p.enabled w ≡ (s', redirect path)
      → IsToggled id p s'
  unfolding after_toggle
  after_toggle-IsToggled driver now id s s' p path (t, written) h e u =
      let (q, at, flag, token) =
        set_probe_enabled-reads driver now s.probes t id p (not p.enabled) h e in
      subst (IsToggled id p) (ap (λ (x : Admin R × Reply). x.0) u)
        (written-IsToggled s id p q t at flag token)
  after_toggle-IsToggled driver now id s s' p path (t, missing) h e u =
      absurd (internal-ne path (ap (λ (x : Admin R × Reply). x.1) u))
  after_toggle-IsToggled driver now id s s' p path (t, duplicate) h e u =
      absurd (internal-ne path (ap (λ (x : Admin R × Reply). x.1) u))
  after_toggle-IsToggled driver now id s s' p path (t, in_use) h e u =
      absurd (internal-ne path (ap (λ (x : Admin R × Reply). x.1) u))
  after_toggle-IsToggled driver now id s s' p path (t, write_failed) h e u =
      absurd (internal-ne path (ap (λ (x : Admin R × Reply). x.1) u))

  -- A toggle that succeeds turns the flag of the probe over and keeps its token; of a probe that is
  -- turned off nothing is kept in memory that could make it look online when it is turned on again.
  pub handle_probe_toggle-IsToggled :
      (v : Visit) (driver : Exec) (now : Time) (id : String) (s s' : Admin R) (p : Probe)
      (path : String)
      → get_probe false s.probes id ≡ found p
      → handle_probe_toggle v false driver now id s ≡ (s', redirect path)
      → IsToggled id p s'
  unfolding handle_probe_toggle toggle_found
  handle_probe_toggle-IsToggled v driver now id s s' p path h u =
      after_toggle-IsToggled driver now id (look_again v s) s' p path
        (set_probe_enabled driver now s.probes id (not p.enabled)) h refl
        (sym (ap (toggle_found driver now id (look_again v s)) h) ∙ u)

  after_delete-deleted :
      (driver : Exec) (id : String) (s s' : Admin R) (path : String) (w : ProbeTable × WriteResult)
      → delete_probe driver s.probes id ≡ w
      → after_delete s id w ≡ (s', redirect path)
      → IsForgotten s' id × (get_probe false s'.probes id ≡ not_found)
  unfolding after_delete
  after_delete-deleted driver id s s' path (t, written) e u =
      subst (λ (x : Admin R). IsForgotten x id × (get_probe false x.probes id ≡ not_found))
        (ap (λ (x : Admin R × Reply). x.0) u)
        (
          forget-IsForgotten (with_probes s t) id,
          unfold forget in delete_probe-gone driver s.probes t id e,
        )
  after_delete-deleted driver id s s' path (t, missing) e u =
      absurd (missing-ne path (ap (λ (x : Admin R × Reply). x.1) u))
  after_delete-deleted driver id s s' path (t, duplicate) e u =
      absurd (internal-ne path (ap (λ (x : Admin R × Reply). x.1) u))
  after_delete-deleted driver id s s' path (t, in_use) e u =
      absurd (internal-ne path (ap (λ (x : Admin R × Reply). x.1) u))
  after_delete-deleted driver id s s' path (t, write_failed) e u =
      absurd (internal-ne path (ap (λ (x : Admin R × Reply). x.1) u))

  -- A deletion that is answered with the list has removed the probe, and nothing is kept of it in
  -- memory, so that a new probe of the same ID starts clean.
  pub handle_probe_delete-deleted :
      (v : Visit) (driver : Exec) (id : String) (s s' : Admin R) (path : String)
      → handle_probe_delete v driver id s ≡ (s', redirect path)
      → IsForgotten s' id × (get_probe false s'.probes id ≡ not_found)
  unfolding handle_probe_delete
  handle_probe_delete-deleted v driver id s s' path u =
      after_delete-deleted driver id (look_again v s) s' path (delete_probe driver s.probes id) refl
        u
