-- ===== src/Protocol/ConfigId.antt =====
-- internal/protocol/dispatch.go: the identity of a dispatched configuration. SHA-1 and the JSON
-- encoder are parameters: what is proved holds whatever bytes they give.
pub mod Order
pub mod Uuid
pub mod Length
use Prim.Native.Nat.{bit_and, bit_or}
use Prim.Native.Char.{Char}
use Prim.Native.String.{char_at}
use Prim.Native.String
use cqu_netprobe_gateway.Prelude.{
  ℕ, zero, suc, ◌/◌, ◌%◌, String, Bool, ◌||◌, Option, none, some, List, [], ◌∷◌, ◌++◌, map, ◌≡◌,
  refl, eqb, if◌then◌else◌,
}
use cqu_netprobe_gateway.Prelude.Sort.{sort_by}
use cqu_netprobe_gateway.Protocol.Config.{MeasurementConfig}

pub record DispatchTarget : Type 0 where
  pub target_id : String
  pub address : String
  pub probe_types : List String

-- What is hashed.
pub record ConfigIdentity : Type 0 where
  pub config : MeasurementConfig
  pub targets : List DispatchTarget

abbrev pub target_id_of : DispatchTarget → String
target_id_of t = t.target_id

canonical_target : DispatchTarget → DispatchTarget
canonical_target t = record t { probe_types = sort_by (λ s. s) t.probe_types }

-- The targets by ID, each with its types in order.
unfoldable pub canonical : List DispatchTarget → List DispatchTarget
unfolding canonical_target sort_by
canonical targets = sort_by target_id_of (map canonical_target targets)

abbrev config_id_namespace : List ℕ
config_id_namespace =
    0x6f ∷ 0x1d ∷ 0x3d ∷ 0x2e ∷ 0x8a ∷ 0x14 ∷ 0x4b ∷ 0x77 ∷ 0x9c ∷ 0x31 ∷ 0x2f ∷ 0x0b ∷ 0x5e ∷ 0x88
    ∷ 0x41 ∷ 0xd2 ∷ []

-- `copy` into a zeroed array of n bytes.
unfoldable pub copy_bytes : ℕ → List ℕ → List ℕ
copy_bytes zero bs = []
copy_bytes (suc n) [] = 0 ∷ copy_bytes n []
copy_bytes (suc n) (b ∷ bs) = b ∷ copy_bytes n bs

-- Byte 6 carries the version and byte 8 the variant.
stamp : ℕ → ℕ → ℕ
stamp i b =
    if eqb i 6
    then bit_or (bit_and b 0x0f) 0x50
    else if eqb i 8
    then bit_or (bit_and b 0x3f) 0x80
    else b

stamp_from : ℕ → List ℕ → List ℕ
stamp_from i [] = []
stamp_from i (b ∷ bs) = stamp i b ∷ stamp_from (suc i) bs

hex_digit : ℕ → Char
hex_digit n = char_at "0123456789abcdef" n

dash_before : ℕ → Bool
dash_before i = eqb i 4 || eqb i 6 || eqb i 8 || eqb i 10

-- The loop of `formatUUID`, from byte i on.
format_from : ℕ → List ℕ → String
format_from i [] = ""
format_from i (b ∷ bs) =
    let digits =
      String.◌∷◌ (hex_digit (b / 16)) (String.◌∷◌ (hex_digit (b % 16)) (format_from (suc i) bs)) in
    if dash_before i then String.◌∷◌ (char_at "-" 0) digits else digits

unfoldable pub format_uuid : List ℕ → String
unfolding format_from hex_digit dash_before
format_uuid id = format_from 0 id

module _ (marshal : ConfigIdentity → Option (List ℕ)) (sha1 : List ℕ → List ℕ) where
  -- The ID of an encoded identity; a failed encoding gives the empty one.
  pub identity_text : Option (List ℕ) → String
  unfolding copy_bytes stamp_from stamp format_uuid
  identity_text none = ""
  identity_text (some payload) =
      format_uuid (stamp_from 0 (copy_bytes 16 (sha1 (config_id_namespace ++ payload))))

  unfoldable pub config_id : MeasurementConfig → List DispatchTarget → String
  unfolding canonical identity_text
  config_id cfg targets =
      identity_text (marshal (record { config = cfg; targets = canonical targets }))

format_uuid_test : format_uuid (config_id_namespace) ≡ "6f1d3d2e-8a14-4b77-9c31-2f0b5e8841d2"
unfolding format_uuid
format_uuid_test = refl
