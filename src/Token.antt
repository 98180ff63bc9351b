-- ===== src/Token.antt =====
-- internal/token/token.go: the tokens of probes. crypto/rand, base64 and SHA-256 are parameters.
use Prim.Native.Char.{Char}
use Prim.Native.String
use Prim.Native.String.{char_at}
use cqu_netprobe_gateway.Prelude.{ℕ, ◌/◌, ◌%◌, String, Option, none, some, List, [], ◌∷◌, ◌≡◌, refl}

abbrev pub prefix : String
prefix = "cqu_probe_"

abbrev pub hex_digit : ℕ → Char
hex_digit n = char_at "0123456789abcdef" n

-- `hex.EncodeToString`.
unfoldable pub hex_encode : List ℕ → String
hex_encode [] = ""
hex_encode (b ∷ bytes) =
    String.◌∷◌ (hex_digit (b / 16)) (String.◌∷◌ (hex_digit (b % 16)) (hex_encode bytes))

-- `Generate`, on what `rand.Read` gave for the 32 bytes; an error is `none`.
unfoldable pub generate : (List ℕ → String) → Option (List ℕ) → Option String
generate encode none = none
generate encode (some bytes) = some (String.◌++◌ prefix (encode bytes))

unfoldable pub hash : (String → List ℕ) → String → String
hash sha256 tok = hex_encode (sha256 tok)

hex_test : hex_encode (0 ∷ 171 ∷ 16 ∷ []) ≡ "00ab10"
unfolding hex_encode
hex_test = refl
