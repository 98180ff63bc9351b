-- ===== src/ClientIp/Spoofing.antt =====
-- What a caller can and cannot do with the header.
use Prim.Native.String
use Prim.Native.String.{char_at}
use cqu_netprobe_gateway.Prelude.{
  String, false, true, not, ◌||◌, some, List, [], ◌∷◌, ◌++◌, ◌≡◌, ◌≢◌, ◌⊎◌, ◌∙◌, refl, ap, inl, inr,
  Bool-cases, Option-cases, arith,
}
use cqu_netprobe_gateway.Prelude.Text.Split.{split_comma, split_comma-append}
use cqu_netprobe_gateway.ClientIp.{
  NetLibrary, Request, host_only, contains, is_parsed, client_entry, or_else, rightmost,
  parseable_entry, leftmost, or_peer, is_empty, from,
}

module _ (L : NetLibrary) where
  -- Where nothing is trusted, or the peer is not, the request is attributed to the peer, whatever
  -- the header says.
  pub from_untrusted :
      (trusted : List L.Network) (r : Request)
      → (trusted ≡ []) ⊎ (contains L trusted (host_only L r.remote_addr) ≡ false)
      → from L r trusted ≡ host_only L r.remote_addr
  unfolding from
  from_untrusted trusted r (inl e) = rw e refl
  from_untrusted trusted r (inr e) = ground (arith, e)

  rightmost-append :
      (trusted : List L.Network) (spoofed real : List String) (addr : String)
      → rightmost L trusted real ≡ some addr
      → rightmost L trusted (spoofed ++ real) ≡ some addr
  unfolding rightmost
  rightmost-append trusted [] real addr h = h
  rightmost-append trusted (e ∷ spoofed) real addr h =
      ap (λ o. or_else o (client_entry L trusted e)) (rightmost-append trusted spoofed real addr h)

  -- Behind a trusted peer, where what the proxies appended holds an address that is not a proxy's,
  -- nothing that the client put before it changes the attribution.
  pub from_spoofed :
      (trusted : List L.Network) (r : Request) (spoofed real addr : String)
      → trusted ≢ []
      → contains L trusted (host_only L r.remote_addr) ≡ true
      → rightmost L trusted (split_comma real) ≡ some addr
      → r.forwarded_for ≡ String.◌++◌ spoofed (String.◌∷◌ (char_at "," 0) real)
      → from L r trusted ≡ addr
  unfolding from
  from_spoofed trusted r spoofed real addr ne peer h e =
      let full : rightmost L trusted (split_comma r.forwarded_for) ≡ some addr =
        rw (e, split_comma-append spoofed real)
          (rightmost-append trusted (split_comma spoofed) (split_comma real) addr h) in
      rw (not_empty trusted ne, peer, full) refl
    where
      not_empty : (ns : List L.Network) → ns ≢ [] → is_empty L ns ≡ false
      not_empty [] q = absurd (q refl)
      not_empty (n ∷ ns) q = refl

  client_entry-IsClient :
      (trusted : List L.Network) (entry addr : String)
      → client_entry L trusted entry ≡ some addr
      → (is_parsed L (L.parse_ip addr) ≡ true) × (contains L trusted addr ≡ false)
  unfolding client_entry
  client_entry-IsClient trusted entry addr h = ground (arith, h)

  -- The address that the walk from the right takes was parsed, and is in no trusted network.
  pub rightmost-IsClient :
      (trusted : List L.Network) (entries : List String) (addr : String)
      → rightmost L trusted entries ≡ some addr
      → (is_parsed L (L.parse_ip addr) ≡ true) × (contains L trusted addr ≡ false)
  unfolding rightmost
  rightmost-IsClient trusted [] addr h = absurd (ground (arith, h))
  rightmost-IsClient trusted (e ∷ es) addr h = elim (Option-cases (rightmost L trusted es)) [
    | inl q ↦ client_entry-IsClient trusted e addr (rw (q, rightmost) at h)
    | inr (a, q) ↦ rightmost-IsClient trusted es addr (q ∙ (rw (q, rightmost) at h))
  ]

  parseable_entry-parsed :
      (entry addr : String)
      → parseable_entry L entry ≡ some addr
      → is_parsed L (L.parse_ip addr) ≡ true
  unfolding parseable_entry
  parseable_entry-parsed entry addr h = ground (arith, h)

  leftmost-parsed :
      (entries : List String) (addr : String)
      → leftmost L entries ≡ some addr
      → is_parsed L (L.parse_ip addr) ≡ true
  unfolding leftmost
  leftmost-parsed [] addr h = absurd (ground (arith, h))
  leftmost-parsed (e ∷ es) addr h = elim (Option-cases (parseable_entry L e)) [
    | inl q ↦ leftmost-parsed es addr (rw (q, leftmost) at h)
    | inr (a, q) ↦ parseable_entry-parsed e addr (q ∙ (rw (q, leftmost) at h))
  ]

  or_peer-parsed :
      (trusted : List L.Network) (entries : List String) (peer : String)
      → (or_peer peer (or_else (rightmost L trusted entries) (leftmost L entries)) ≡ peer)
        ⊎ (is_parsed L (
              L.parse_ip
                (or_peer peer (or_else (rightmost L trusted entries) (leftmost L entries))))
            ≡ true)
  or_peer-parsed trusted entries peer = elim (Option-cases (rightmost L trusted entries)) [
    | inr (a, e) ↦ rw e (inr (rightmost-IsClient trusted entries a e).0)
    | inl e ↦ elim (Option-cases (leftmost L entries)) [
      | inr (b, f) ↦ rw (e, f) (inr (leftmost-parsed entries b f))
      | inl f ↦ rw (e, f) (inl refl)
    ]
  ]

  -- A request is attributed to its peer or to an address of the header that was parsed: a malformed
  -- entry is never returned.
  pub from-parsed :
      (trusted : List L.Network) (r : Request)
      → (from L r trusted ≡ host_only L r.remote_addr)
        ⊎ (is_parsed L (L.parse_ip (from L r trusted)) ≡ true)
  unfolding from
  from-parsed trusted r =
      let peer = host_only L r.remote_addr in
      elim (Bool-cases (is_empty L trusted || not (contains L trusted peer))) [
        | inl direct ↦ rw direct (inl refl)
        | inr proxied ↦ rw proxied (or_peer-parsed trusted (split_comma r.forwarded_for) peer)
      ]
