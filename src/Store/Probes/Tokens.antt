-- ===== src/Store/Probes/Tokens.antt =====
-- A token authenticates its probe until it is rotated or the probe deleted, and no other token is
-- touched.
use cqu_netprobe_gateway.Prelude.{
  String, Bool, true, false, not, none, some, ◌≡◌, ◌≢◌, refl, sym, ap, subst, ◌∙◌, inl, inr, arith,
  Bool-cases, Option-cases, All, All-imp, eqb,
}
use cqu_netprobe_gateway.Prelude.Time.{Time, unix}
use cqu_netprobe_gateway.Store.{
  Probe, found, not_found, WriteResult, written, Exec, ran, refused, uncounted, execute,
}
use cqu_netprobe_gateway.Store.Table.{
  find, update, delete, is_found, find-append_new, find-append_other, find-column,
}
use cqu_netprobe_gateway.Store.Table.Columns.{
  found_unique, others_differ, find-delete_other, find-delete_gone, find-update_other,
  find-update_gone, find-update_new,
}
use cqu_netprobe_gateway.Store.Probes.{
  ProbeRow, ProbeTable, probe_id_of, token_hash_of, scan_probe, scan_found, probe_by_token_hash,
  get_probe, stamp, new_row, insert_row, is_taken, create_probe, with_token, is_taken_elsewhere,
  update_probe_token, delete_probe, bool_to_int,
}
use cqu_netprobe_gateway.Store.Probes.Unique.{IsWellFormed, not_has, fresh_elsewhere}

-- The row behind a probe that was read.
pub record Holds (t : ProbeTable) (id : String) (p : Probe) : Type 0 where
  pub row : ProbeRow
  pub at : find probe_id_of id t.rows ≡ some row
  pub scanned : scan_probe row ≡ p

found_inj : {p q : Probe} → found p ≡ found q → p ≡ q
found_inj h = ground (arith, h)

pub get_probe-Holds :
    (t : ProbeTable) (id : String) (p : Probe) → get_probe false t id ≡ found p → Holds t id p
unfolding get_probe
get_probe-Holds t id p h = elim (Option-cases (find probe_id_of id t.rows)) [
  | inl e ↦ absurd (ground (arith, ap scan_found e, h))
  | inr r ↦ record { row = r.0; at = r.1; scanned = found_inj (ap scan_found (sym r.1) ∙ h) }
]

scan_probe-token : (r : ProbeRow) (p : Probe) → scan_probe r ≡ p → r.token_hash ≡ p.token_hash
unfolding scan_probe
scan_probe-token r p h = ap (λ (q : Probe). q.token_hash) h

abbrev renamed : Time → Time → ProbeTable → String → String → ProbeTable
renamed now then_now t id hash = record t {
  rows = update probe_id_of id (with_token (unix now) (unix then_now) hash) t.rows;
}

update_probe_token_written :
    (driver : Exec) (now then_now : Time) (t t' : ProbeTable) (id hash : String)
    → update_probe_token driver now then_now t id hash ≡ (t', written)
    → (is_taken_elsewhere t id hash ≡ false) × (renamed now then_now t id hash ≡ t')
unfolding update_probe_token execute
update_probe_token_written refused now then_now t t' id hash u = absurd (ground (arith, u))
update_probe_token_written uncounted now then_now t t' id hash u = ground (arith, u)
update_probe_token_written ran now then_now t t' id hash u = ground (arith, u)

-- A row of the new token.
renamed-authenticates :
    (now then_now : Time) (t : ProbeTable) (id hash : String) (p : Probe) (other : String)
    → IsWellFormed t
    → Holds t id p
    → is_taken_elsewhere t id hash ≡ false
    → (q : Probe) × (probe_by_token_hash false (renamed now then_now t id hash) hash ≡ found q)
      × (q.probe_id ≡ p.probe_id)
      × (q.enabled ≡ p.enabled)
      × (hash ≢ p.token_hash
          → probe_by_token_hash false (renamed now then_now t id hash) p.token_hash ≡ not_found)
      × (other ≢ hash
          → other ≢ p.token_hash
          → probe_by_token_hash false (renamed now then_now t id hash) other
            ≡ probe_by_token_hash false t other)
unfolding probe_by_token_hash scan_probe
renamed-authenticates now then_now t id hash p other w h free = (
  scan_probe (f h.row),
  ap scan_found (
      find-update_new token_hash_of probe_id_of f id hash t.rows h.row
        (fresh_elsewhere t id hash free (ap is_found h.at)) (λ a. refl) h.at),
  ap (λ (q : Probe). q.probe_id) h.scanned,
  ap (λ (q : Probe). q.enabled) h.scanned,
  λ ne. ap scan_found (
      find-update_gone token_hash_of probe_id_of f id p.token_hash t.rows
        (subst (λ v. All (λ y. y.probe_id ≢ id → y.token_hash ≢ v) t.rows) hash_at
          (others_differ token_hash_of probe_id_of id t.rows h.row w.tokens_distinct h.at
            (find-column probe_id_of id t.rows h.row h.at)))
        (λ a. ne)),
  λ ne old. ap scan_found (
      find-update_other token_hash_of probe_id_of f id other t.rows
        (All-imp (λ y u e q. old (sym q ∙ ap token_hash_of (u (e ∙ sym id_at)) ∙ hash_at)) t.rows
          (found_unique probe_id_of probe_id_of id t.rows h.row w.ids_distinct h.at))
        (λ a q. ne (sym q))),
)
  where
    f : ProbeRow → ProbeRow
    f = with_token (unix now) (unix then_now) hash

    hash_at : h.row.token_hash ≡ p.token_hash
    hash_at = scan_probe-token h.row p h.scanned

    id_at : h.row.probe_id ≡ id
    id_at = find-column probe_id_of id t.rows h.row h.at

-- After a rotation the new token authenticates the probe, enabled as it was, the old one nobody, and
-- every other token whom it did before.
pub update_probe_token-authenticates :
    (driver : Exec) (now then_now : Time) (t t' : ProbeTable) (id hash : String) (p : Probe)
    (other : String)
    → IsWellFormed t
    → get_probe false t id ≡ found p
    → update_probe_token driver now then_now t id hash ≡ (t', written)
    → (q : Probe) × (probe_by_token_hash false t' hash ≡ found q)
      × (q.probe_id ≡ p.probe_id)
      × (q.enabled ≡ p.enabled)
      × (hash ≢ p.token_hash → probe_by_token_hash false t' p.token_hash ≡ not_found)
      × (other ≢ hash
          → other ≢ p.token_hash
          → probe_by_token_hash false t' other ≡ probe_by_token_hash false t other)
update_probe_token-authenticates driver now then_now t t' id hash p other w h u =
    let done = update_probe_token_written driver now then_now t t' id hash u in
    rw (← done.1)
      (renamed-authenticates now then_now t id hash p other w (get_probe-Holds t id p h) done.0)

delete_probe_written :
    (driver : Exec) (t t' : ProbeTable) (id : String)
    → delete_probe driver t id ≡ (t', written)
    → record t { rows = delete probe_id_of id t.rows } ≡ t'
unfolding delete_probe execute
delete_probe_written refused t t' id u = absurd (ground (arith, u))
delete_probe_written uncounted t t' id u = ground (arith, u)
delete_probe_written ran t t' id u = ground (arith, u)

-- After a deletion the token of the probe authenticates nobody, and every other token whom it did
-- before.
pub delete_probe-authenticates :
    (driver : Exec) (t t' : ProbeTable) (id : String) (p : Probe) (other : String)
    → IsWellFormed t
    → get_probe false t id ≡ found p
    → delete_probe driver t id ≡ (t', written)
    → (probe_by_token_hash false t' p.token_hash ≡ not_found)
      × (other ≢ p.token_hash
          → probe_by_token_hash false t' other ≡ probe_by_token_hash false t other)
unfolding probe_by_token_hash
delete_probe-authenticates driver t t' id p other w g u =
    rw (← delete_probe_written driver t t' id u) (
      ap scan_found (
          find-delete_gone token_hash_of probe_id_of id p.token_hash t.rows (
            subst (λ v. All (λ y. y.probe_id ≢ id → y.token_hash ≢ v) t.rows) hash_at
              (others_differ token_hash_of probe_id_of id t.rows h.row w.tokens_distinct h.at
                id_at))),
      λ old. ap scan_found (
          find-delete_other token_hash_of probe_id_of id other t.rows (
            All-imp (λ y u e q. old (sym q ∙ ap token_hash_of (u (e ∙ sym id_at)) ∙ hash_at)) t.rows
              (found_unique probe_id_of probe_id_of id t.rows h.row w.ids_distinct h.at))),
    )
  where
    h : Holds t id p
    h = get_probe-Holds t id p g

    hash_at : h.row.token_hash ≡ p.token_hash
    hash_at = scan_probe-token h.row p h.scanned

    id_at : h.row.probe_id ≡ id
    id_at = find-column probe_id_of id t.rows h.row h.at

create_probe_written :
    (insert_fails read_fails : Bool) (now : Time) (t t' : ProbeTable) (p q : Probe)
    → create_probe insert_fails read_fails now t p ≡ (t', (written, q))
    → (is_taken t (stamp now p) ≡ false) × (insert_row t (stamp now p) ≡ t')
unfolding create_probe
create_probe_written true read_fails now t t' p q u = absurd (ground (arith, u))
create_probe_written false read_fails now t t' p q u =
    elim (Bool-cases (is_taken t (stamp now p))) [
      | inl e ↦ absurd (ground (arith, e, u))
      | inr e ↦ (e, ap (λ (z : ProbeTable × (WriteResult × Probe)). z.0) (rw e at u))
    ]

-- A probe that was created is the one its token authenticates, with the location and the flag that
-- were asked for, and every other token authenticates whom it did before.
pub create_probe-authenticates :
    (insert_fails read_fails : Bool) (now : Time) (t t' : ProbeTable) (p q : Probe) (other : String)
    → create_probe insert_fails read_fails now t p ≡ (t', (written, q))
    → (r : Probe) × (probe_by_token_hash false t' p.token_hash ≡ found r)
      × (r.probe_id ≡ p.probe_id)
      × (r.building_code ≡ p.building_code)
      × (r.campus_code ≡ p.campus_code)
      × (r.enabled ≡ p.enabled)
      × (other ≢ p.token_hash
          → probe_by_token_hash false t' other ≡ probe_by_token_hash false t other)
unfolding probe_by_token_hash scan_probe insert_row new_row stamp
create_probe-authenticates insert_fails read_fails now t t' p q other u =
    let done = create_probe_written insert_fails read_fails now t t' p q u in
    let row = new_row t.next_id (stamp now p) in
    let free : find token_hash_of p.token_hash t.rows ≡ none =
      not_has (find token_hash_of p.token_hash t.rows) (ground (arith, done.0)) in
    rw (← done.1) (
      scan_probe row,
      ap scan_found (find-append_new token_hash_of t.rows row free),
      refl,
      refl,
      refl,
      flag_read p.enabled,
      λ ne. ap scan_found (find-append_other token_hash_of other t.rows row (λ e. ne (sym e))),
    )
  where
    flag_read : (b : Bool) → not (eqb (bool_to_int b) 0) ≡ b
    flag_read true = refl
    flag_read false = refl
