-- ===== src/Outbound/Proxy.antt =====
-- internal/app/server/outbound_tcp.go with the adapters of outbound_adapter.go and model.go: a stream
-- is connected to where the router dials, and its peer is told whether that worked. The router and
-- the calls of the sing library are the parameter `Relay`; connections are numbers.
pub mod Reported
use server_anytls.Prelude.{
  ℕ, Bool, true, false, Option, none, some, [], Bytes, Error, Result, ok, err, ◌>>=◌,
}
use server_anytls.Env.{Env}
use server_anytls.Session.State.{Session, WriteResult, wrote, failed, panicked}
use server_anytls.Session.Calls.{handshake_success, handshake_failure}
use server_anytls.Outbound.Address.{Addr, parse_addr}

-- What the router dials, for both networks.
pub record Router : Type 0 where
  pub dial_tcp : Addr → Result ℕ
  pub dial_udp : Addr → Result ℕ

-- `OutboundAdapter.TCP` and `OutboundAdapter.UDP`
unfoldable pub tcp : Router → Bytes → Result ℕ
tcp router addr = parse_addr addr >>= router.dial_tcp

unfoldable pub udp : Router → Bytes → Result ℕ
udp router addr = parse_addr addr >>= router.dial_udp

abbrev pub addr_text : (Addr → Bytes) → Option Addr → Bytes
addr_text to_string none = []
addr_text to_string (some a) = to_string a

-- `udpConnWrapper.ReadFrom` on the answer of the connection below: a count and an address.
unfoldable pub wrapper_read_from : (Addr → Bytes) → Result (ℕ × Option Addr) → Result (ℕ × Bytes)
wrapper_read_from to_string (err e) = err e
wrapper_read_from to_string (ok (n, oa)) = ok (n, addr_text to_string oa)

-- `udpConnWrapper.WriteTo` over the `WriteTo` of the connection below.
unfoldable pub wrapper_write_to : (Bytes → Addr → Result ℕ) → Bytes → Bytes → Result ℕ
wrapper_write_to write_to p addr = parse_addr addr >>= write_to p

-- `udpConnAdapter.ReadFrom`, with `netip.ParseAddrPort` as a parameter.
abbrev pub counted_from : ℕ → Result ℕ → Result (ℕ × ℕ)
counted_from n (err e) = err e
counted_from n (ok addr) = ok (n, addr)

unfoldable pub adapter_read_from : (Bytes → Result ℕ) → Result (ℕ × Bytes) → Result (ℕ × ℕ)
adapter_read_from parse_addr_port (err e) = err e
adapter_read_from parse_addr_port (ok (n, text)) = counted_from n (parse_addr_port text)

-- What the functions return; a panic inside a call goes through to the stream's handler.
pub data Ended : Type 0 where
  returned : Option Error → Ended
  crashed : Ended

-- `error_text` is `Error()`, `join_errors` joins the errors of a dial and of its report. The other
-- fields work on the session and the place of the stream: `read_request` reads the header of UDP over
-- TCP, `copy_conn` and `copy_packet_conn` pass data on until an end.
pub record Relay : Type 0 where
  pub error_text : Error → Bytes
  pub join_errors : Error → Option Error → Error
  pub read_request : Session → ℕ → Session × Option Error
  pub copy_conn : Session → ℕ → ℕ → Session × Option Error
  pub copy_packet_conn : Session → ℕ → ℕ → Session × Option Error

module _ (L : Relay) where
  abbrev pub ended : Session × Option Error → Session × Ended
  ended (s, e) = (s, returned e)

  -- `N.ReportHandshakeFailure` calls `HandshakeFailure` of the stream.
  abbrev pub failure_reported : Error → Session × WriteResult → Session × Ended
  failure_reported e (s, wrote n) = (s, returned (some (L.join_errors e none)))
  failure_reported e (s, failed g) = (s, returned (some (L.join_errors e (some g))))
  failure_reported e (s, panicked) = (s, crashed)

  abbrev pub report_failure : Env → Session → ℕ → Error → Session × Ended
  report_failure env s r e = failure_reported e (handshake_failure env s r (some (L.error_text e)))

  -- `N.ReportConnHandshakeSuccess` calls `HandshakeSuccess` of the stream.
  abbrev pub success_reported :
      (Session → Session × Option Error) → Session × WriteResult → Session × Ended
  success_reported copy (s, wrote n) = ended (copy s)
  success_reported copy (s, failed e) = (s, returned (some e))
  success_reported copy (s, panicked) = (s, crashed)

  abbrev pub dialed :
      Env → Session → ℕ → (ℕ → Session → Session × Option Error) → Result ℕ → Session × Ended
  dialed env s r copy (err e) = report_failure env s r e
  dialed env s r copy (ok c) = success_reported (copy c) (handshake_success env s r)

  unfoldable pub proxy_outbound_tcp : Env → Router → Session → ℕ → Bytes → Session × Ended
  proxy_outbound_tcp env router s r destination =
      dialed env s r (λ c t. L.copy_conn t r c) (tcp router destination)

  abbrev pub request_read : Env → Router → ℕ → Bytes → Session × Option Error → Session × Ended
  request_read env router r destination (s, some e) = report_failure env s r e
  request_read env router r destination (s, none) =
      dialed env s r (λ c t. L.copy_packet_conn t r c) (udp router destination)

  unfoldable pub proxy_outbound_uot : Env → Router → Session → ℕ → Bytes → Session × Ended
  proxy_outbound_uot env router s r destination =
      request_read env router r destination (L.read_request s r)
