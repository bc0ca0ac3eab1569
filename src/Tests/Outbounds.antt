-- ===== src/Tests/Outbounds.antt =====
-- Outbounds, addresses and the handler of a stream on concrete inputs.
use server_anytls.Prelude.{
  ◌≡◌, refl, true, false, [], ◌∷◌, Option, none, some, Bytes, codes, conn_failed, message, ok, err,
  equal, if◌then◌else◌, arith,
}
use server_anytls.Number.{pos, parse_digits, parse_magnitude}
use server_anytls.Service.Traffic.{add_uint64}
use server_anytls.Service.Traffic.Conserved.{requests, held}
use server_anytls.Session.State.{Session, Stream, new_stream, get_elem?}
use server_anytls.Session.Closed.{Found}
use server_anytls.Session.Traffic.{traffic}
use server_anytls.Session.Framing.{Carries}
use server_anytls.Session.Recv.Frames.{IsWhole}
use server_anytls.Outbound.{
  ServerConfigOutboundEntry, ExtConfig, Engine, to_lower, build_entry, build_outbound,
}
use server_anytls.Outbound.Direct.{IsValid, Judges}
use server_anytls.Outbound.Valid.{build_entry-Judges}
use server_anytls.Outbound.Built.{Routes, build_outbound-Routes}
use server_anytls.Outbound.Address.{
  parse_addr, split_host_port, split_last_colon, split_bracket, parse_uint16,
}
use server_anytls.Outbound.Address.Join.{join_host_port, parse_addr-join_host_port}
use server_anytls.Outbound.Proxy.{Router, Relay, tcp, proxy_outbound_tcp}
use server_anytls.Outbound.Proxy.Reported.{syn_ack, Refused, proxy_outbound_tcp-Refused}
use server_anytls.Inbound.Handler.{Dialogue, KeepsPlaces, handle_stream, handle_stream-Closes}
use server_anytls.Tests.{demo_env, demo_server, demo_factory-IsSafe}

-- `acl-engine` as far as it is seen: it takes all but one URL.
abbrev demo_engine : Engine
demo_engine = record {
  parse_ip = λ b. if equal b (codes "10.0.0.1") then some 1 else none;
  new_direct = λ _. 1;
  new_direct_bind_to_ips = λ _ _ _. ok 2;
  new_direct_bind_to_device = λ _ _. ok 3;
  new_socks5 = λ _ _ _. 4;
  new_http = λ url _. if equal url (codes "::") then err (conn_failed 1) else ok 5;
  new_router = λ _ _ _. ok 6;
}

abbrev direct_entry : Bytes → Bytes → Bytes → ServerConfigOutboundEntry
direct_entry mode ip4 device = record {
  name = codes "out";
  outbound_type = codes "Direct";
  direct = record { mode = mode; bind_ipv4 = ip4; bind_ipv6 = []; bind_device = device };
  socks5 = record { addr = []; username = []; password = [] };
  http = record { url = []; insecure = false };
}

abbrev good_entry : ServerConfigOutboundEntry
good_entry = direct_entry (codes "64") (codes "10.0.0.1") []

-- Bound to an address and to a device.
abbrev bad_entry : ServerConfigOutboundEntry
bad_entry = direct_entry (codes "auto") (codes "10.0.0.1") (codes "eth0")

build_entry-Judges_example :
    Judges demo_engine (IsValid demo_engine bad_entry) (build_entry demo_engine bad_entry)
build_entry-Judges_example = build_entry-Judges demo_engine bad_entry

abbrev demo_ext : Option ExtConfig
demo_ext = some (record { outbounds = good_entry ∷ []; acl_inline = codes "out(all)" ∷ [] })

build_outbound-Routes_example :
    Routes demo_engine
      (codes "/data")
      demo_ext
      (build_outbound demo_engine (codes "/data") demo_ext)
build_outbound-Routes_example = build_outbound-Routes demo_engine (codes "/data") demo_ext

abbrev loopback : Bytes
loopback = codes "::1"

port_text : parse_magnitude (codes "8080") ≡ some 8080
unfolding parse_magnitude parse_digits
port_text = refl

parse_addr-join_host_port_example :
    parse_addr (join_host_port loopback (codes "8080"))
    ≡ ok (record { host = loopback; port = 8080 })
parse_addr-join_host_port_example =
    parse_addr-join_host_port loopback (codes "8080") 8080 (refl, refl) port_text

kelvin_sign :
    (to_lower (83 ∷ 79 ∷ 67 ∷ 226 ∷ 132 ∷ 170 ∷ 83 ∷ 53 ∷ []) ≡ codes "socks5")
    × (to_lower (codes "HTTP") ≡ codes "http")
unfolding to_lower equal
kelvin_sign = (refl, refl)

addresses :
    (parse_addr (codes "a:80") ≡ ok (record { host = codes "a"; port = 80 }))
    × (parse_addr (codes "a:65536") ≡ err (message (codes "value out of range")))
    × (parse_addr (codes "::1:80") ≡ err (message (codes "too many colons in address")))
    × (parse_addr (codes "[::1]80") ≡ err (message (codes "missing port in address")))
    × (parse_addr (codes "a:+80") ≡ err (message (codes "invalid syntax")))
unfolding parse_addr split_host_port split_last_colon split_bracket parse_uint16 parse_magnitude
    parse_digits
addresses = (refl, refl, refl, refl, refl)

-- Nothing can be dialled.
abbrev demo_router : Router
demo_router = record { dial_tcp = λ _. err (conn_failed 111); dial_udp = λ _. ok 1 }

abbrev demo_relay : Relay
demo_relay = record {
  error_text = λ _. codes "refused";
  join_errors = λ e _. e;
  read_request = λ s r. (s, none);
  copy_conn = λ s r c. (s, none);
  copy_packet_conn = λ s r c. (s, none);
}

abbrev demo_stream : Stream
unfolding new_stream
demo_stream = new_stream 1

-- A server session with one stream, of a client of version 2.
abbrev demo_session : Session
demo_session = record demo_server { heap = demo_stream ∷ []; peer_version = 2 }

demo_session-Carries : Carries [] demo_session
unfolding demo_server traffic
demo_session-Carries = ([], tt, refl, refl)

refused-IsWhole : IsWhole (syn_ack demo_stream (codes "refused"))
unfolding demo_stream
refused-IsWhole = record {
  sid_fits = omega arith;
  length_fits = omega arith;
  bare = λ e. absurd (ground arith);
}

not_dialed : tcp demo_router (codes "a:80") ≡ err (conn_failed 111)
unfolding tcp parse_addr split_host_port split_last_colon split_bracket parse_uint16 parse_magnitude
    parse_digits
not_dialed = refl

proxy_outbound_tcp-Refused_example :
    Refused demo_relay
      (conn_failed 111)
      (syn_ack demo_stream (codes "refused") ∷ [])
      (proxy_outbound_tcp demo_relay demo_env demo_router demo_session 0 (codes "a:80"))
unfolding demo_stream demo_server
proxy_outbound_tcp-Refused_example =
    proxy_outbound_tcp-Refused demo_relay demo_env demo_router demo_session 0 (codes "a:80")
      demo_stream [] (conn_failed 111) not_dialed refl refl refl demo_factory-IsSafe
      demo_session-Carries refused-IsWhole

abbrev demo_dialogue : Dialogue
demo_dialogue = record {
  read_addr_port = λ s r. (s, ok (codes "a:80"));
  router = demo_router;
  relay = demo_relay;
}

demo_dialogue-KeepsPlaces : KeepsPlaces demo_dialogue
demo_dialogue-KeepsPlaces = record {
  addr_port = λ s r f. f;
  request = λ s r f. f;
  conn = λ c s r f. f;
  packet_conn = λ c s r f. f;
}

handle_stream-Closes_example :
    let (tm, t) = handle_stream demo_dialogue demo_env (pos 1) [] demo_session 0 in
    Found true (get_elem? t.heap 0)
    × (held requests (pos 1) tm ≡ add_uint64 (held requests (pos 1) []) 1)
handle_stream-Closes_example =
    handle_stream-Closes demo_dialogue demo_env (pos 1) [] demo_session 0 demo_dialogue-KeepsPlaces
      tt
