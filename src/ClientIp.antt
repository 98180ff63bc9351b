-- ===== src/ClientIp.antt =====
-- internal/clientip/clientip.go: the address that a request is attributed to. The parsing and the
-- networks of package net are parameters.
pub mod Spoofing
mod Tests
use cqu_netprobe_gateway.Prelude.{
  String, Bool, false, true, not, ◌||◌, Option, none, some, List, [], ◌∷◌, ◌==◌, if◌then◌else◌,
}
use cqu_netprobe_gateway.Prelude.Text.Split.{split_comma, trim_space, trim_brackets}

pub record NetLibrary : Type 1 where
  pub Ip : Type 0
  pub Network : Type 0
  -- `net.ParseIP`; nil is `none`.
  pub parse_ip : String → Option Ip
  -- `(*net.IPNet).Contains`.
  pub network_contains : Network → Ip → Bool
  -- The host of `net.SplitHostPort`; an error is `none`.
  pub split_host_port : String → Option String

-- What is read of an `*http.Request`: its peer and the X-Forwarded-For header.
pub record Request : Type 0 where
  pub remote_addr : String
  pub forwarded_for : String

abbrev pub or_else : Option String → Option String → Option String
or_else none o = o
or_else (some a) o = some a

abbrev pub or_peer : String → Option String → String
or_peer peer none = peer
or_peer peer (some addr) = addr

module _ (L : NetLibrary) where
  unfoldable pub host_of : String → Option String → String
  host_of addr (some host) = host
  host_of addr none = trim_brackets addr

  unfoldable pub host_only : String → String
  host_only addr = if addr == "" then "" else host_of addr (L.split_host_port addr)

  abbrev any_contains : List L.Network → L.Ip → Bool
  any_contains [] ip = false
  any_contains (n ∷ ns) ip = L.network_contains n ip || any_contains ns ip

  unfoldable pub contains_ip : List L.Network → Option L.Ip → Bool
  contains_ip nets none = false
  contains_ip nets (some ip) = any_contains nets ip

  unfoldable pub contains : List L.Network → String → Bool
  contains nets addr = contains_ip nets (L.parse_ip addr)

  abbrev pub is_parsed : Option L.Ip → Bool
  is_parsed none = false
  is_parsed (some ip) = true

  -- One turn of the walk: the address of an entry, unless the walk skips it.
  unfoldable pub client_entry : List L.Network → String → Option String
  client_entry trusted entry =
      let addr = host_only (trim_space entry) in
      if addr == ""
      then none
      else if not (is_parsed (L.parse_ip addr))
      then none
      else if contains trusted addr
      then none
      else some addr

  -- The loop from the last entry to the first.
  unfoldable pub rightmost : List L.Network → List String → Option String
  rightmost trusted [] = none
  rightmost trusted (entry ∷ entries) =
      or_else (rightmost trusted entries) (client_entry trusted entry)

  unfoldable pub parseable_entry : String → Option String
  parseable_entry entry =
      let addr = host_only (trim_space entry) in
      if not (addr == "") then (if is_parsed (L.parse_ip addr) then some addr else none) else none

  -- The loop of the fallback, from the first entry.
  unfoldable pub leftmost : List String → Option String
  leftmost [] = none
  leftmost (entry ∷ entries) = or_else (parseable_entry entry) (leftmost entries)

  abbrev pub is_empty : List L.Network → Bool
  is_empty [] = true
  is_empty (n ∷ ns) = false

  unfoldable pub from : Request → List L.Network → String
  from r trusted =
      let peer = host_only r.remote_addr in
      let entries = split_comma r.forwarded_for in
      if is_empty trusted || not (contains trusted peer)
      then peer
      else or_peer peer (or_else (rightmost trusted entries) (leftmost entries))
