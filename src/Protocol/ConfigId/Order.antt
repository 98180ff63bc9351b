-- ===== src/Protocol/ConfigId/Order.antt =====
-- The identity of a configuration is that of a set of targets, each with a set of types.
use mathlib.Core.List.{Permᴰ}
use cqu_netprobe_gateway.Prelude.{
  ℕ, String, Option, List, [], ◌∷◌, map, ◌≡◌, ◌≢◌, refl, ap, ap₂, ◌∙◌, All,
}
use cqu_netprobe_gateway.Prelude.Sort.{sort_by, sort_by-perm, sort_strings-perm, HasDistinctKeys}
use cqu_netprobe_gateway.Protocol.Config.{MeasurementConfig}
use cqu_netprobe_gateway.Protocol.ConfigId.{
  DispatchTarget, ConfigIdentity, target_id_of, canonical_target, canonical, config_id,
  identity_text,
}

-- The same target, its types listed in another order.
pub record SameTarget (s t : DispatchTarget) : Type 0 where
  pub id_eq : s.target_id ≡ t.target_id
  pub address_eq : s.address ≡ t.address
  pub types_perm : Permᴰ s.probe_types t.probe_types

abbrev pub SameEntries : List DispatchTarget → List DispatchTarget → Type 0
SameEntries [] [] = Unit
SameEntries (s ∷ ss) (t ∷ ts) = SameTarget s t × SameEntries ss ts
SameEntries _ _ = ⊥

-- Two lists of one set of targets.
pub record SameSet (ss ts : List DispatchTarget) : Type 0 where
  pub mid : List DispatchTarget
  pub targets_perm : Permᴰ ss mid
  pub entries : SameEntries mid ts

canonical_target-SameTarget :
    (s t : DispatchTarget) → SameTarget s t → canonical_target s ≡ canonical_target t
unfolding canonical_target
canonical_target-SameTarget s t h = cc (h.id_eq, h.address_eq, sort_strings-perm h.types_perm)

map-SameEntries :
    (ss ts : List DispatchTarget)
    → SameEntries ss ts
    → map canonical_target ss ≡ map canonical_target ts
map-SameEntries [] [] h = refl
map-SameEntries [] (t ∷ ts) h = absurd h
map-SameEntries (s ∷ ss) [] h = absurd h
map-SameEntries (s ∷ ss) (t ∷ ts) h =
    ap₂ ◌∷◌ (canonical_target-SameTarget s t h.0) (map-SameEntries ss ts h.1)

map-perm :
    {ss ts : List DispatchTarget}
    → Permᴰ ss ts
    → Permᴰ (map canonical_target ss) (map canonical_target ts)
map-perm Permᴰ.nil = Permᴰ.nil
map-perm (Permᴰ.cons e p) = Permᴰ.cons (ap canonical_target e) (map-perm p)
map-perm (Permᴰ.swap e e') = Permᴰ.swap (ap canonical_target e) (ap canonical_target e')
map-perm (Permᴰ.trans p q) = Permᴰ.trans (map-perm p) (map-perm q)

All-map_ne :
    (k : String) (ts : List DispatchTarget)
    → All (λ t. k ≢ t.target_id) ts
    → All (λ t. k ≢ t.target_id) (map canonical_target ts)
unfolding canonical_target
All-map_ne k [] h = tt
All-map_ne k (t ∷ ts) h = (h.0, All-map_ne k ts h.1)

map-HasDistinctKeys :
    (ts : List DispatchTarget)
    → HasDistinctKeys target_id_of ts
    → HasDistinctKeys target_id_of (map canonical_target ts)
unfolding canonical_target
map-HasDistinctKeys [] h = tt
map-HasDistinctKeys (t ∷ ts) h = (All-map_ne t.target_id ts h.0, map-HasDistinctKeys ts h.1)

pub canonical-SameSet :
    (ss ts : List DispatchTarget)
    → HasDistinctKeys target_id_of ss
    → SameSet ss ts
    → canonical ss ≡ canonical ts
unfolding canonical
canonical-SameSet ss ts d h =
    sort_by-perm target_id_of (map-perm h.targets_perm) (map-HasDistinctKeys ss d)
    ∙ ap (sort_by target_id_of) (map-SameEntries h.mid ts h.entries)

-- Where the target IDs are distinct, the ID of a configuration does not depend on the order in
-- which the targets and their types are listed.
pub config_id-SameSet :
    (marshal : ConfigIdentity → Option (List ℕ)) (sha1 : List ℕ → List ℕ) (cfg : MeasurementConfig)
    (ss ts : List DispatchTarget)
    → HasDistinctKeys target_id_of ss
    → SameSet ss ts
    → config_id marshal sha1 cfg ss ≡ config_id marshal sha1 cfg ts
unfolding config_id
config_id-SameSet marshal sha1 cfg ss ts d h =
    ap (λ c. identity_text marshal sha1 (marshal (record { config = cfg; targets = c })))
      (canonical-SameSet ss ts d h)
