-- ===== src/Api/Middleware.antt =====
-- internal/api/middleware.go: what stands in front of the handlers. The parser of package mime and
-- `IP.IsLoopback` are parameters.
pub mod Access
use Prim.Native.Char.{Char, code}
use Prim.Native.String
use cqu_netprobe_gateway.Prelude.{
  ℕ, String, Bool, true, false, not, ◌||◌, Option, none, some, List, [], ◌∷◌, ◌≡◌, refl, ◌==◌, eqb,
  if◌then◌else◌,
}
use cqu_netprobe_gateway.Prelude.Int.{ℤ, pos, ltb_ℤ}
use cqu_netprobe_gateway.ClientIp.{NetLibrary, from}
use cqu_netprobe_gateway.ClientIp
use cqu_netprobe_gateway.Protocol.Errors.{invalid_request}
use cqu_netprobe_gateway.Api.Errors.{
  Response, status, write_error, max_body_bytes, msg_too_large, msg_bad_request,
}
use cqu_netprobe_gateway.Api.Server.{Server, PushCall, Clock, Reads}
use cqu_netprobe_gateway.Api.Push.{Imports, ServerOf, handle_push}

abbrev pub msg_media_type : String
msg_media_type = "unsupported content type"

abbrev pub too_large : Response
too_large = write_error 413 invalid_request msg_too_large

abbrev pub wrong_media_type : Response
wrong_media_type = write_error 415 invalid_request msg_media_type

abbrev pub forbidden : Response
forbidden = write_error 403 invalid_request msg_bad_request

-- The loop of `CIDRAllowlist`.
unfoldable pub contained_in : (L : NetLibrary) → List L.Network → L.Ip → Bool
contained_in L [] ip = false
contained_in L (n ∷ nets) ip = L.network_contains n ip || contained_in L nets ip

abbrev pub is_json : Option String → Bool
is_json none = false
is_json (some media_type) = media_type == "application/json"

module _ {S : Type 0} where
  -- A length that the client does not declare is -1. What the reader of the limited body gives is
  -- part of the request that the handler gets.
  unfoldable pub body_limit : ℤ → (S → S × Response) → S → S × Response
  body_limit content_length next s =
      if ltb_ℤ (pos max_body_bytes) content_length then (s, too_large) else next s

  -- `mime.ParseMediaType` is given by the media type that it finds.
  unfoldable pub require_json :
      (String → Option String) → String → (S → S × Response) → S → S × Response
  require_json parse_media_type content_type next s =
      if content_type == ""
      then (s, wrong_media_type)
      else if not (is_json (parse_media_type content_type))
      then (s, wrong_media_type)
      else next s

  -- What is done with the address, once it is parsed.
  unfoldable pub admit_ip :
      (L : NetLibrary)
      → (L.Ip → Bool)
      → List L.Network
      → (S → S × Response)
      → S
      → Option L.Ip
      → S × Response
  admit_ip L is_loopback nets next s none = (s, forbidden)
  admit_ip L is_loopback nets next s (some ip) =
      if is_loopback ip then next s else if contained_in L nets ip then next s else (s, forbidden)

  unfoldable pub cidr_allowlist :
      (L : NetLibrary)
      → (L.Ip → Bool)
      → List L.Network
      → List L.Network
      → ClientIp.Request
      → (S → S × Response)
      → S
      → S × Response
  cidr_allowlist L is_loopback nets trusted r next s =
      admit_ip L is_loopback nets next s (L.parse_ip (from L r trusted))

-- What comes behind the first space, unless there is none.
unfoldable pub behind_space : String → Option String
behind_space String.[] = none
behind_space (String.◌∷◌ c s) =
    let rest = behind_space s in if eqb (code c) 32 then some s else rest

unfoldable pub route_label : String → String
route_label pattern =
    if pattern == ""
    then "unmatched"
    else elim (behind_space pattern) [ none ↦ pattern | some path ↦ path ]

-- One increment of `http_requests_total`, by its labels.
pub record RequestCount : Type 0 where
  pub method : String
  pub path : String
  pub status : ℕ

unfoldable pub route_metrics {ℓ} :
    {S : Type ℓ} → String → String → S × Response → S × Response × RequestCount
route_metrics method pattern (s, r) =
    (s, r, record { method = method; path = route_label pattern; status = status r })

-- What the two tests in front of a push read of it.
pub record Headers : Type 0 where
  pub content_length : ℤ
  pub content_type : String

-- The push route of `Routes`, with the counter that is there where `self` is.
unfoldable pub push_route :
    (I : Imports)
    → (String → Option String)
    → Headers
    → Reads
    → Clock
    → PushCall
    → ServerOf I
    → ServerOf I × Response
push_route I parse_media_type h reads clock r s =
    body_limit h.content_length
      (require_json parse_media_type h.content_type (λ u. handle_push I u reads clock r)) s

route_label_test :
    (route_label "POST /api/v1/push" ≡ "/api/v1/push")
    × (route_label "/api/v1/push" ≡ "/api/v1/push")
    × (route_label "" ≡ "unmatched")
unfolding route_label behind_space
route_label_test = (refl, refl, refl)
