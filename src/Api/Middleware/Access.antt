-- ===== src/Api/Middleware/Access.antt =====
-- Who gets behind the middleware.
use Prim.Native.String
use cqu_netprobe_gateway.Prelude.{
  String, Bool, true, false, Option, none, some, List, [], ◌∷◌, ◌≡◌, ◌⊎◌, refl, ap, inl, inr, arith,
  Bool-cases, ◌==◌, eq_iff,
}
use cqu_netprobe_gateway.Prelude.Int.{pos, ltb_ℤ, ◌≤ℤ◌, ◌<ℤ◌}
use cqu_netprobe_gateway.ClientIp.{NetLibrary, from}
use cqu_netprobe_gateway.ClientIp
use cqu_netprobe_gateway.Api.Errors.{Response, max_body_bytes}
use cqu_netprobe_gateway.Api.Server.{PushCall, Clock, Reads}
use cqu_netprobe_gateway.Api.Push.{Imports, ServerOf, handle_push}
use cqu_netprobe_gateway.Api.Middleware.{
  too_large, wrong_media_type, forbidden, contained_in, body_limit, is_json, require_json, admit_ip,
  cidr_allowlist, Headers, push_route,
}

some_inj : {A : Type 0} {a b : A} → ◌≡◌ {A = Option A} (some a) (some b) → a ≡ b
some_inj h = ground (arith, h)

json_type : (o : Option String) → is_json o ≡ true → o ≡ some "application/json"
json_type none h = absurd (ground (arith, h))
json_type (some t) h = ap some ((eq_iff t "application/json").0 h)

other_type : (o : Option String) → is_json o ≡ false → o ≡ some "application/json" → ⊥
other_type none h e = ground (arith, e)
other_type (some t) h e = ground (arith, h, (eq_iff t "application/json").1 (some_inj e))

module _ (L : NetLibrary) where
  -- Some network of the list contains the address.
  pub data Covers (ip : L.Ip) : List L.Network → Type 0 where
    this :
        (n : L.Network) (nets : List L.Network)
        → L.network_contains n ip ≡ true
        → Covers ip (n ∷ nets)
    later : (n : L.Network) (nets : List L.Network) → Covers ip nets → Covers ip (n ∷ nets)

  contained_in_sound :
      (nets : List L.Network) (ip : L.Ip) → contained_in L nets ip ≡ true → Covers ip nets
  unfolding contained_in
  contained_in_sound [] ip h = absurd (ground (arith, h))
  contained_in_sound (n ∷ nets) ip h = elim (Bool-cases (L.network_contains n ip)) [
    | inl e ↦ this n nets e
    | inr e ↦ later n nets (contained_in_sound nets ip (rw e at h))
  ]

  contained_in_complete :
      (ip : L.Ip) (nets : List L.Network) → Covers ip nets → contained_in L nets ip ≡ true
  unfolding contained_in
  contained_in_complete ip all (this n nets e) = rw e refl
  contained_in_complete ip all (later n nets c) = ground (arith, contained_in_complete ip nets c)

  -- The address may read the metrics: it is this machine's own, or lies in a network of the list.
  unfoldable pub MayRead : (L.Ip → Bool) → List L.Network → L.Ip → Type 0
  MayRead is_loopback nets ip = (is_loopback ip ≡ true) ⊎ Covers ip nets

  pub data AccessCase {S : Type 0} (is_loopback : L.Ip → Bool) (nets : List L.Network)
      (next : S → S × Response) (s : S) (found : Option L.Ip) : S × Response → Type 0 where
    admitted :
        (ip : L.Ip)
        → found ≡ some ip
        → MayRead is_loopback nets ip
        → AccessCase is_loopback nets next s found (next s)
    turned_away :
        ((ip : L.Ip) → found ≡ some ip → MayRead is_loopback nets ip → ⊥)
        → AccessCase is_loopback nets next s found (s, forbidden)

  -- The metrics are read only from an address that parses and is this machine's own or lies in a
  -- listed network, so that an empty list lets nothing else in; every other caller gets 403 and
  -- changes nothing.
  pub cidr_allowlist-case :
      {S : Type 0} (is_loopback : L.Ip → Bool) (nets trusted : List L.Network)
      (r : ClientIp.Request) (next : S → S × Response) (s : S)
      → AccessCase is_loopback nets next s
          (L.parse_ip (from L r trusted))
          (cidr_allowlist L is_loopback nets trusted r next s)
  unfolding cidr_allowlist admit_ip MayRead
  cidr_allowlist-case is_loopback nets trusted r next s = by_address (L.parse_ip (from L r trusted))
    where
      outside :
          (ip : L.Ip)
          → is_loopback ip ≡ false
          → contained_in L nets ip ≡ false
          → (a : L.Ip) → ◌≡◌ {A = Option L.Ip} (some ip) (some a)
          → (is_loopback a ≡ true) ⊎ Covers a nets
          → ⊥
      outside ip e c a at (inl q) = ground (arith, e, q, ap is_loopback (some_inj at))
      outside ip e c a at (inr q) =
          ground (arith, c, ap (contained_in L nets) (some_inj at), contained_in_complete a nets q)

      by_address :
          (o : Option L.Ip)
          → AccessCase is_loopback nets next s o (admit_ip L is_loopback nets next s o)
      by_address none = turned_away (λ ip e m. absurd (ground (arith, e)))
      by_address (some ip) = elim (Bool-cases (is_loopback ip)) [
        | inl e ↦ rw e (admitted ip refl (inl e))
        | inr e ↦ elim (Bool-cases (contained_in L nets ip)) [
          | inl c ↦ rw (e, c) (admitted ip refl (inr (contained_in_sound nets ip c)))
          | inr c ↦ rw (e, c) (turned_away (outside ip e c))
        ]
      ]

-- How a push request ends at its route: refused for what its headers say, with nothing changed, or
-- handled as JSON that does not declare more than the limit.
pub data RouteCase (I : Imports) (parse_media_type : String → Option String) (h : Headers)
    (reads : Reads) (clock : Clock) (r : PushCall) (s : ServerOf I)
    : ServerOf I × Response → Type 0 where
  oversized :
      pos max_body_bytes <ℤ h.content_length
      → RouteCase I parse_media_type h reads clock r s (s, too_large)
  not_json :
      (parse_media_type h.content_type ≡ some "application/json" → h.content_type ≡ "")
      → RouteCase I parse_media_type h reads clock r s (s, wrong_media_type)
  handled :
      h.content_length ≤ℤ pos max_body_bytes
      → parse_media_type h.content_type ≡ some "application/json"
      → RouteCase I parse_media_type h reads clock r s (handle_push I s reads clock r)

-- The order of the tests: the declared length, the content type, then the handler, which is the first
-- to look at the credentials; a request that is refused in front of it counts for no limit.
pub push_route-case :
    (I : Imports) (parse_media_type : String → Option String) (h : Headers) (reads : Reads)
    (clock : Clock) (r : PushCall) (s : ServerOf I)
    → RouteCase I parse_media_type h reads clock r s
        (push_route I parse_media_type h reads clock r s)
unfolding push_route body_limit require_json
push_route-case I parse_media_type h reads clock r s =
    elim (Bool-cases (ltb_ℤ (pos max_body_bytes) h.content_length)) [
      | inl e ↦ rw e (oversized (ground (arith, e)))
      | inr e ↦ elim (Bool-cases (h.content_type == "")) [
        | inl c ↦ rw (e, c) (not_json (λ q. (eq_iff h.content_type "").0 c))
        | inr c ↦ elim (Bool-cases (is_json (parse_media_type h.content_type))) [
          | inl j ↦
              rw (e, c, j)
                (handled (ground (arith, e)) (json_type (parse_media_type h.content_type) j))
          | inr j ↦
              rw (e, c, j)
                (not_json (λ q. absurd (other_type (parse_media_type h.content_type) j q)))
        ]
      ]
    ]
