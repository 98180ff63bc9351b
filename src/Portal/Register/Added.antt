-- ===== src/Portal/Register/Added.antt =====
-- The loop that draws an ID adds one row or none.
use cqu_netprobe_gateway.Prelude.{
  ℕ, zero, suc, String, Bool, true, false, Option, none, some, ◌≡◌, ◌≢◌, refl, sym, ap, ◌∙◌, inl,
  inr, arith, Bool-cases, Option-cases, subst,
}
use cqu_netprobe_gateway.Prelude.Time.{Time}
use cqu_netprobe_gateway.Forms.{generate_probe_id}
use cqu_netprobe_gateway.Store.{
  Probe, Lookup, found, not_found, failed, WriteResult, written, missing, duplicate, in_use,
  write_failed,
}
use cqu_netprobe_gateway.Store.Table.{append, find}
use cqu_netprobe_gateway.Store.Probes.{
  ProbeRow, ProbeTable, probe_id_of, token_hash_of, bool_to_int, created_via_or_default, stamp,
  new_row, insert_row, is_taken, read_back, create_probe,
}
use cqu_netprobe_gateway.Store.Probes.Unique.{not_has}
use cqu_netprobe_gateway.RateLimit.{RateLimiter}
use cqu_netprobe_gateway.ClientIp.{NetLibrary}
use cqu_netprobe_gateway.Portal.Register.{Attempt, after_create, create_loop}

-- One row more, of the probe but for its ID, with an ID and a token that no other row has.
pub record Added (p : Probe) (t t' : ProbeTable) (id : String) : Type 0 where
  pub row : ProbeRow
  pub rows : t'.rows ≡ append t.rows row
  pub id_free : find probe_id_of row.probe_id t.rows ≡ none
  pub token_free : find token_hash_of row.token_hash t.rows ≡ none
  pub id_at : row.probe_id ≡ id
  pub token_at : row.token_hash ≡ p.token_hash
  pub campus_at : row.campus_code ≡ p.campus_code
  pub building_at : row.building_code ≡ p.building_code
  pub network_at : row.network_type ≡ p.network_type
  pub enabled_at : row.enabled ≡ bool_to_int p.enabled
  pub via_at : row.created_via ≡ created_via_or_default p.created_via

insert_row-Added :
    (t : ProbeTable) (now : Time) (p : Probe)
    → is_taken t (stamp now p) ≡ false
    → Added p t (insert_row t (stamp now p)) p.probe_id
unfolding insert_row new_row stamp
insert_row-Added t now p free = record {
  row = new_row t.next_id (stamp now p);
  rows = refl;
  id_free = not_has (find probe_id_of p.probe_id t.rows) (ground (arith, free));
  token_free = not_has (find token_hash_of p.token_hash t.rows) (ground (arith, free));
  id_at = refl;
  token_at = refl;
  campus_at = refl;
  building_at = refl;
  network_at = refl;
  enabled_at = refl;
  via_at = refl;
}

-- How `CreateProbe` ends: with nothing done, with a duplicate, or with a row.
pub data CreateCase (t : ProbeTable) (p : Probe) : ProbeTable × (WriteResult × Probe) → Type 0 where
  refused_case : (q : Probe) → CreateCase t p (t, (write_failed, q))
  taken_case : (now : Time) → CreateCase t p (t, (duplicate, stamp now p))
  stored_case :
      (t' : ProbeTable) (w : WriteResult) (q : Probe)
      → w ≢ duplicate
      → q.probe_id ≡ p.probe_id
      → Added p t t' p.probe_id
      → CreateCase t p (t', (w, q))

read_back-case :
    (t t' : ProbeTable) (p q : Probe) (o : Lookup Probe)
    → q.probe_id ≡ p.probe_id
    → Added p t t' p.probe_id
    → CreateCase t p (t', read_back q o)
unfolding read_back
read_back-case t t' p q (found got) same a = stored_case t' written _ (ground arith) same a
read_back-case t t' p q not_found same a = stored_case t' missing q (ground arith) same a
read_back-case t t' p q failed same a = stored_case t' write_failed q (ground arith) same a

stamp-id : (now : Time) (p : Probe) → (stamp now p).probe_id ≡ p.probe_id
unfolding stamp
stamp-id now p = refl

create_probe-case :
    (insert_fails read_fails : Bool) (now : Time) (t : ProbeTable) (p : Probe)
    → CreateCase t p (create_probe insert_fails read_fails now t p)
unfolding create_probe
create_probe-case true read_fails now t p = refused_case (stamp now p)
create_probe-case false read_fails now t p = elim (Bool-cases (is_taken t (stamp now p))) [
  | inl e ↦ rw e (taken_case now)
  | inr e ↦ rw e (
      read_back-case t (insert_row t (stamp now p)) p (stamp now p) _ (stamp-id now p)
        (insert_row-Added t now p e))
]

-- How the loop ends: with no row added and an answer 500, or with one row.
pub data LoopCase (t : ProbeTable) (p : Probe) : ProbeTable × Option Probe → Type 0 where
  gave_up : LoopCase t p (t, none)
  left_row : (t' : ProbeTable) (id : String) → Added p t t' id → LoopCase t p (t', none)
  created : (t' : ProbeTable) (q : Probe) → Added p t t' q.probe_id → LoopCase t p (t', some q)

-- What the loop changes of the probe does not matter for the row.
record Same (q p : Probe) : Type 0 where
  token_at : q.token_hash ≡ p.token_hash
  campus_at : q.campus_code ≡ p.campus_code
  building_at : q.building_code ≡ p.building_code
  network_at : q.network_type ≡ p.network_type
  enabled_at : q.enabled ≡ p.enabled
  via_at : q.created_via ≡ p.created_via

named-Same : (id : String) (p : Probe) → Same (record p { probe_id = id }) p
named-Same id p = record {
  token_at = refl;
  campus_at = refl;
  building_at = refl;
  network_at = refl;
  enabled_at = refl;
  via_at = refl;
}

stamp-Same :
    (now : Time) (id : String) (p : Probe) → Same (stamp now (record p { probe_id = id })) p
unfolding stamp
stamp-Same now id p = record {
  token_at = refl;
  campus_at = refl;
  building_at = refl;
  network_at = refl;
  enabled_at = refl;
  via_at = refl;
}

Added-Same :
    (q p : Probe) (t t' : ProbeTable) (id : String) → Same q p → Added q t t' id → Added p t t' id
Added-Same q p t t' id e a = record {
  row = a.row;
  rows = a.rows;
  id_free = a.id_free;
  token_free = a.token_free;
  id_at = a.id_at;
  token_at = a.token_at ∙ e.token_at;
  campus_at = a.campus_at ∙ e.campus_at;
  building_at = a.building_at ∙ e.building_at;
  network_at = a.network_at ∙ e.network_at;
  enabled_at = a.enabled_at ∙ ap bool_to_int e.enabled_at;
  via_at = a.via_at ∙ ap created_via_or_default e.via_at;
}

LoopCase-Same :
    (q p : Probe) (t : ProbeTable) (x : ProbeTable × Option Probe)
    → Same q p
    → LoopCase t q x
    → LoopCase t p x
LoopCase-Same q p t x e gave_up = gave_up
LoopCase-Same q p t x e (left_row t' id a) = left_row t' id (Added-Same q p t t' id e a)
LoopCase-Same q p t x e (created t' r a) = created t' r (Added-Same q p t t' r.probe_id e a)

module _ (R : RateLimiter) (L : NetLibrary) (url_host : String → Option String)
    (token_hash : String → String) where
  after_create-case :
      (t : ProbeTable) (p : Probe) (id : String) (x : ProbeTable × (WriteResult × Probe))
      (retry : ProbeTable → Probe → ProbeTable × Option Probe)
      → CreateCase t (record p { probe_id = id }) x
      → ((now : Time) → LoopCase t p (retry t (stamp now (record p { probe_id = id }))))
      → LoopCase t p (after_create R L url_host token_hash x retry)
  unfolding after_create
  after_create-case t p id x retry (refused_case q) again = gave_up
  after_create-case t p id x retry (taken_case now) again = again now
  after_create-case t p id x retry (stored_case t' written q ne same a) again =
      created t' q (subst (Added p t t') (sym same) (Added-Same _ p t t' id (named-Same id p) a))
  after_create-case t p id x retry (stored_case t' missing q ne same a) again =
      left_row t' id (Added-Same _ p t t' id (named-Same id p) a)
  after_create-case t p id x retry (stored_case t' in_use q ne same a) again =
      left_row t' id (Added-Same _ p t t' id (named-Same id p) a)
  after_create-case t p id x retry (stored_case t' write_failed q ne same a) again =
      left_row t' id (Added-Same _ p t t' id (named-Same id p) a)
  after_create-case t p id x retry (stored_case t' duplicate q ne same a) again = absurd (ne refl)

  -- Whatever the turns draw and the driver does, the loop adds one row or none.
  pub create_loop-case :
      (left i : ℕ) (attempt : ℕ → Attempt) (campus building : String) (t : ProbeTable) (p : Probe)
      → LoopCase t p (create_loop R L url_host token_hash left i attempt campus building t p)
  unfolding create_loop
  create_loop-case zero i attempt campus building t p = gave_up
  create_loop-case (suc left) i attempt campus building t p =
      elim (Option-cases (generate_probe_id campus building (attempt i).suffix)) [
        | inl e ↦ rw (e, create_loop) gave_up
        | inr (id, e) ↦
            rw (e, create_loop)
              (after_create-case t p id _ _
                (create_probe-case (attempt i).insert_fails (attempt i).read_fails (attempt i).now t
                  (record p { probe_id = id }))
                (λ now. LoopCase-Same _ p t _ (stamp-Same now id p) (
                  create_loop-case left (suc i) attempt campus building t
                    (stamp now (record p { probe_id = id })))))
      ]
