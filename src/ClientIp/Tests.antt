-- ===== src/ClientIp/Tests.antt =====
-- A proxy at 10.0.0.1, and a client that forges the header.
use cqu_netprobe_gateway.Prelude.{
  String, none, some, List, [], ◌∷◌, ◌==◌, ◌≡◌, refl, arith, if◌then◌else◌,
}
use cqu_netprobe_gateway.Prelude.Text.Split.{split_comma, trim_space, trim_brackets}
use cqu_netprobe_gateway.ClientIp.{
  NetLibrary, Request, host_of, host_only, contains, contains_ip, client_entry, rightmost, from,
}
use cqu_netprobe_gateway.ClientIp.Spoofing.{from_spoofed}

-- Every text but "junk" parses, and a network is one address.
abbrev texts : NetLibrary
texts = record {
  Ip = String;
  Network = String;
  parse_ip = λ s. if s == "junk" then none else some s;
  network_contains = λ n ip. n == ip;
  split_host_port = λ s. none;
}

abbrev proxies : List String
proxies = "10.0.0.1" ∷ []

abbrev forged : Request
forged = record { remote_addr = "10.0.0.1"; forwarded_for = "1.2.3.4,8.8.8.8, 10.0.0.1" }

abbrev direct : Request
direct = record { remote_addr = "8.8.4.4"; forwarded_for = "1.2.3.4" }

from_spoofed_example : from texts forged proxies ≡ "8.8.8.8"
unfolding contains contains_ip host_only host_of trim_brackets trim_space split_comma rightmost
    client_entry
from_spoofed_example =
    from_spoofed texts proxies forged "1.2.3.4" "8.8.8.8, 10.0.0.1" "8.8.8.8" (ground arith) refl
      refl refl
