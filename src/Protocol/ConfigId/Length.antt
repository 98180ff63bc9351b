-- ===== src/Protocol/ConfigId/Length.antt =====
-- How long an emitted ID is.
use Prim.Native.Nat.{bit_and, bit_or}
use Prim.Native.Char.{len_utf8}
use Prim.Native.String.{char_at, len}
use Prim.Native.String.len
use cqu_netprobe_gateway.Prelude.{
  ℕ, zero, suc, ◌+◌, ◌*◌, ◌/◌, ◌%◌, ◌<◌, String, true, false, Option, none, some, List, [], ◌∷◌,
  ◌≡◌, ◌⊎◌, refl, ap, ◌∙◌, arith, length, inl, inr, ltb, eqb, eqb_iff, if◌then◌else◌, Bool-cases,
  all_below, all_below_sound,
}
use cqu_netprobe_gateway.Protocol.Config.{MeasurementConfig}
use cqu_netprobe_gateway.Protocol.ConfigId.{
  ConfigIdentity, DispatchTarget, hex_digit, dash_before, format_from, format_uuid, copy_bytes,
  stamp, stamp_from, identity_text, config_id,
}
use cqu_netprobe_gateway.Protocol.ConfigId.Uuid.{AreBytes}

hex_len_table : all_below 16 (λ n. eqb (len_utf8 (hex_digit n)) 1) ≡ true
unfolding hex_digit
hex_len_table = refl

hex_len : (n : ℕ) → n < 16 → len_utf8 (hex_digit n) ≡ 1
hex_len n h =
    (eqb_iff _ 1).0 (all_below_sound 16 (λ n. eqb (len_utf8 (hex_digit n)) 1) n hex_len_table h)

stamp_table :
    all_below 256 (λ b.
      if ltb (bit_or (bit_and b 0x0f) 0x50) 256
      then ltb (bit_or (bit_and b 0x3f) 0x80) 256
      else false)
    ≡ true
stamp_table = refl

stamp-lt : (i b : ℕ) → b < 256 → stamp i b < 256
unfolding stamp
stamp-lt i b h = ground (
  arith,
  all_below_sound 256
      (λ b.
        if ltb (bit_or (bit_and b 0x0f) 0x50) 256
        then ltb (bit_or (bit_and b 0x3f) 0x80) 256
        else false)
      b stamp_table h,
)

stamp_from-AreBytes : (i : ℕ) (bs : List ℕ) → AreBytes bs → AreBytes (stamp_from i bs)
unfolding stamp_from
stamp_from-AreBytes i [] h = tt
stamp_from-AreBytes i (b ∷ bs) h = (stamp-lt i b h.0, stamp_from-AreBytes (suc i) bs h.1)

length-stamp_from : (i : ℕ) (bs : List ℕ) → length (stamp_from i bs) ≡ length bs
unfolding stamp_from
length-stamp_from i [] = refl
length-stamp_from i (b ∷ bs) = ap suc (length-stamp_from (suc i) bs)

copy_bytes-AreBytes : (n : ℕ) (bs : List ℕ) → AreBytes bs → AreBytes (copy_bytes n bs)
unfolding copy_bytes
copy_bytes-AreBytes zero bs h = tt
copy_bytes-AreBytes (suc n) [] h = (omega arith, copy_bytes-AreBytes n [] tt)
copy_bytes-AreBytes (suc n) (b ∷ bs) h = (h.0, copy_bytes-AreBytes n bs h.1)

length-copy_bytes : (n : ℕ) (bs : List ℕ) → length (copy_bytes n bs) ≡ n
unfolding copy_bytes
length-copy_bytes zero bs = refl
length-copy_bytes (suc n) [] = ap suc (length-copy_bytes n [])
length-copy_bytes (suc n) (b ∷ bs) = ap suc (length-copy_bytes n bs)

dash_len : len_utf8 (char_at "-" 0) ≡ 1
dash_len = refl

-- The dashes that stand before the n bytes from byte i on.
dashes : ℕ → ℕ → ℕ
dashes i zero = 0
dashes i (suc n) = (if dash_before i then 1 else 0) + dashes (suc i) n

abbrev digits : ℕ → String → String
digits b s = String.◌∷◌ (hex_digit (b / 16)) (String.◌∷◌ (hex_digit (b % 16)) s)

len-digits : (b : ℕ) (s : String) → b < 256 → len (digits b s) ≡ 2 + len s
len-digits b s h = omega (
  arith,
  len.cons (hex_digit (b / 16)) (String.◌∷◌ (hex_digit (b % 16)) s),
  len.cons (hex_digit (b % 16)) s,
  hex_len (b / 16) (omega arith),
  hex_len (b % 16) (omega arith),
)

len-format_from :
    (i : ℕ) (bs : List ℕ)
    → AreBytes bs
    → len (format_from i bs) ≡ 2 * length bs + dashes i (length bs)
unfolding format_from dashes
len-format_from i [] h = refl
len-format_from i (b ∷ bs) h =
    let ih = len-format_from (suc i) bs h.1 in
    let here = len-digits b (format_from (suc i) bs) h.0 in
    elim (Bool-cases (dash_before i)) [
      | inl e ↦
          rw (e, format_from, dashes)
            (omega (
              arith,
              len.cons (char_at "-" 0) (digits b (format_from (suc i) bs)),
              dash_len,
              here,
              ih,
            ))
      | inr e ↦ rw (e, format_from, dashes) (omega (arith, here, ih))
    ]

four_dashes : dashes 0 16 ≡ 4
unfolding dashes dash_before
four_dashes = refl

sixteen : (bs : List ℕ) → length bs ≡ 16 → 2 * length bs + dashes 0 (length bs) ≡ 36
sixteen bs h = rw (h, four_dashes) refl

len-format_uuid :
    (sum : List ℕ) → AreBytes sum → len (format_uuid (stamp_from 0 (copy_bytes 16 sum))) ≡ 36
unfolding format_uuid
len-format_uuid sum h =
    let id = stamp_from 0 (copy_bytes 16 sum) in
    len-format_from 0 id (stamp_from-AreBytes 0 _ (copy_bytes-AreBytes 16 sum h))
    ∙ sixteen id (length-stamp_from 0 (copy_bytes 16 sum) ∙ length-copy_bytes 16 sum)

-- Where SHA-1 gives bytes, the ID of a configuration has 36 bytes or none.
pub config_id-len :
    (marshal : ConfigIdentity → Option (List ℕ)) (sha1 : List ℕ → List ℕ) (cfg : MeasurementConfig)
    (targets : List DispatchTarget)
    → ((payload : List ℕ) → AreBytes (sha1 payload))
    → (config_id marshal sha1 cfg targets ≡ "") ⊎ (len (config_id marshal sha1 cfg targets) ≡ 36)
unfolding config_id
config_id-len marshal sha1 cfg targets bytes = text_len (marshal _)
  where
    text_len :
        (o : Option (List ℕ))
        → (identity_text marshal sha1 o ≡ "") ⊎ (len (identity_text marshal sha1 o) ≡ 36)
    text_len none = inl refl
    text_len (some payload) = inr (len-format_uuid _ (bytes _))
