-- ===== src/Forms.antt =====
-- What the forms of internal/portal/register.go and internal/admin/probes.go share: the pattern of
-- codes, the network types, and the ID of a new probe.
use Prim.Native.Char.{Char, code}
use Prim.Native.String
use Prim.Native.String.{char_at}
use cqu_netprobe_gateway.Prelude.{
  ℕ, zero, suc, ◌/◌, ◌%◌, ltb, String, Bool, true, false, ◌&&◌, ◌||◌, Option, none, some, List,
  ◌==◌, leb, eqb, ◌≡◌, refl, if◌then◌else◌,
}
use cqu_netprobe_gateway.Token.{hex_encode}

-- `len([]rune(s))`.
unfoldable pub rune_count : String → ℕ
rune_count String.[] = 0
rune_count (String.◌∷◌ c s) = suc (rune_count s)

-- The class `[a-z0-9_]`.
abbrev pub is_code_char : Char → Bool
is_code_char c = let n = code c in (leb 97 n && leb n 122) || (leb 48 n && leb n 57) || eqb n 95

unfoldable pub all_code_chars : String → Bool
all_code_chars String.[] = true
all_code_chars (String.◌∷◌ c s) = is_code_char c && all_code_chars s

-- `^[a-z0-9_]{1,16}$`.
unfoldable pub match_code : String → Bool
unfolding all_code_chars rune_count
match_code s = leb 1 (rune_count s) && leb (rune_count s) 16 && all_code_chars s

abbrev pub is_network_type : String → Bool
is_network_type s = s == "wired" || s == "wireless"

abbrev pub max_description : ℕ
max_description = 256

-- `generateProbeID`, on the random bytes; a failed read is `none`.
unfoldable pub generate_probe_id : String → String → Option (List ℕ) → Option String
generate_probe_id campus_code building_code none = none
generate_probe_id campus_code building_code (some bytes) = some (
    String.◌++◌ campus_code
      (String.◌++◌ "-" (String.◌++◌ building_code (String.◌++◌ "-" (hex_encode bytes)))))

abbrev digit : ℕ → Char
digit n = char_at "0123456789" n

-- The decimal digits of a number in front of `rest`, with fuel above the number.
decimal : ℕ → ℕ → String → String
decimal zero n rest = rest
decimal (suc fuel) n rest =
    let more = decimal fuel (n / 10) (String.◌∷◌ (digit (n % 10)) rest) in
    if ltb n 10 then String.◌∷◌ (digit n) rest else more

-- `strconv.Itoa` of a number that is not negative.
unfoldable pub itoa : ℕ → String
unfolding decimal
itoa n = decimal (suc n) n ""

itoa_test : itoa 500 ≡ "500"
unfolding itoa
itoa_test = refl

code_test : (match_code "lib_2" ≡ true) × (match_code "" ≡ false) × (match_code "Lib" ≡ false)
unfolding match_code
code_test = (refl, refl, refl)
