-- ===== src/Protocol/Decode/Tests.antt =====
-- A body with one DNS failure, and one with an ICMP measurement that is no object.
use cqu_netprobe_gateway.Prelude.{
  ℕ, zero, suc, String, Bool, true, false, Option, none, some, List, [], ◌∷◌, ◌==◌, not, ◌≡◌, refl,
}
use cqu_netprobe_gateway.Prelude.Int.{pos}
use cqu_netprobe_gateway.Protocol.Errors.{ok}
use cqu_netprobe_gateway.Protocol.Types.{PushRequest}
use cqu_netprobe_gateway.Protocol.Request.Accepts.{AreMaps}
use cqu_netprobe_gateway.Protocol.Decode.{RawRequest, JsonLibrary, decode, decode_runs}
use cqu_netprobe_gateway.Protocol.Decode.Shape.{SameShape, decode-SameShape}

abbrev raw_of : String → String → RawRequest String
raw_of probe_type text = record {
  version = some (pos 1);
  timestamp = some (pos 7);
  probe_version = none;
  config_id = none;
  results = ("portal", (probe_type, text) ∷ []) ∷ [];
}

abbrev request_of : List ℕ → Option (RawRequest String × List ℕ)
request_of [] = none
request_of (zero ∷ rest) = some (raw_of "dns" "{}", rest)
request_of (suc n ∷ rest) = some (raw_of "icmp" "5", rest)

abbrev ends : List ℕ → Bool
ends [] = true
ends (n ∷ ns) = false

-- Every object is empty, and bodies are told apart by one byte.
abbrev pub tiny : JsonLibrary
tiny = record {
  Raw = String;
  decode_request = request_of;
  at_eof = ends;
  is_object = λ s. not (s == "5");
  as_icmp = λ s. none;
  as_dns = λ s. some (record { success = none; duration_ms = none });
  as_http = λ s. none;
}

abbrev pub decoded : PushRequest
decoded = record {
  version = pos 1;
  timestamp = pos 7;
  probe_version = "";
  config_id = "";
  results =
      (
        "portal",
        (
          "dns",
          record {
            icmp = none;
            dns = some (record { success = false; duration_ms = none });
            http = none;
          },
        )
            ∷ [],
      )
      ∷ [];
}

decode_test : decode tiny (0 ∷ []) ≡ ok decoded
unfolding decode_runs
decode_test = refl

decode-SameShape_example :
    SameShape (raw_of "dns" "{}").results decoded.results × AreMaps decoded.results
unfolding decode_runs
decode-SameShape_example =
    decode-SameShape tiny (0 ∷ []) [] (raw_of "dns" "{}") decoded refl ((tt, tt), ((tt, tt), tt))
      refl
