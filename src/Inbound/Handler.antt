-- ===== src/Inbound/Handler.antt =====
-- internal/app/server/inbound_tcp.go: what runs for each stream that a client opens. The fields of
-- `Dialogue` work on the session and the place of the stream: `read_addr_port` reads a destination,
-- as its text, with the serializer of the sing library.
use server_anytls.Prelude.{
  ℕ, ◌≡◌, refl, ap, ◌∙◌, Bool, true, false, ◌&&◌, ◌||◌, [], ◌∷◌, Option, none, some, Bytes, codes,
  ◌==◌, Error, Result, ok, err, if◌then◌else◌, if_elim,
}
use server_anytls.Env.{Env}
use server_anytls.Number.{ℤ, equal_ℤ_iff}
use server_anytls.Session.State.{Session, WriteResult, wrote, failed, panicked, get_elem?}
use server_anytls.Session.Streams.{close_stream}
use server_anytls.Session.Closed.{Found}
use server_anytls.Session.Found.{
  FoundIn, handshake_success-FoundIn, handshake_failure-FoundIn, close_stream-FoundIn,
}
use server_anytls.Service.Traffic.{TrafficManager, UserTraffic, add_uint64}
use server_anytls.Service.Traffic.Conserved.{requests, held, held-add_traffic}
use server_anytls.Outbound.Proxy.{
  Router, Ended, returned, Relay, tcp, udp, failure_reported, report_failure, success_reported,
  dialed, proxy_outbound_tcp, request_read, proxy_outbound_uot,
}
use server_anytls.Inbound.{count_stream}

abbrev pub is_prefix : Bytes → Bytes → Bool
is_prefix [] w = true
is_prefix (b ∷ v) [] = false
is_prefix (b ∷ v) (c ∷ w) = b == c && is_prefix v w

-- `strings.Contains(w, v)`
unfoldable pub contains_text : Bytes → Bytes → Bool
contains_text [] v = is_prefix v []
contains_text (c ∷ w) v = is_prefix v (c ∷ w) || contains_text w v

abbrev pub uot_mark : Bytes
uot_mark = codes "udp-over-tcp.arpa"

pub record Dialogue : Type 0 where
  pub read_addr_port : Session → ℕ → Session × Result Bytes
  pub router : Router
  pub relay : Relay

abbrev pub proxied : Dialogue → Env → ℕ → Session × Result Bytes → Session × Ended
proxied D env r (s, err e) = (s, returned (some e))
proxied D env r (s, ok destination) =
    if contains_text destination uot_mark
    then proxy_outbound_uot D.relay env D.router s r destination
    else proxy_outbound_tcp D.relay env D.router s r destination

-- The function that `handleTcpConnection` gives to `NewServerSession`: the deferred `Close` runs
-- behind a return and behind a panic, which is recovered.
unfoldable pub handle_stream :
    Dialogue → Env → ℤ → TrafficManager → Session → ℕ → TrafficManager × Session
handle_stream D env uid tm s r =
    (count_stream uid tm, (close_stream env ((proxied D env r (D.read_addr_port s r)).0) r).0)

-- What the calls of the library leave of a session: the stream is in its place.
abbrev pub KeepsPlace : (Session → ℕ → Session) → Type 0
KeepsPlace f =
    (s : Session) (r : ℕ)
    → Found false (get_elem? s.heap r)
    → Found false (get_elem? (f s r).heap r)

pub record KeepsPlaces (D : Dialogue) : Type 0 where
  pub addr_port : KeepsPlace (λ s r. (D.read_addr_port s r).0)
  pub request : KeepsPlace (λ s r. (D.relay.read_request s r).0)
  pub conn : (c : ℕ) → KeepsPlace (λ s r. (D.relay.copy_conn s r c).0)
  pub packet_conn : (c : ℕ) → KeepsPlace (λ s r. (D.relay.copy_packet_conn s r c).0)

module _ (D : Dialogue) (k : KeepsPlaces D) (env : Env) (r : ℕ) where
  abbrev HasStream : Session → Type 0
  HasStream s = Found false (get_elem? s.heap r)

  failure_reported-HasStream :
      (e : Error) (w : Session × WriteResult)
      → FoundIn false r w
      → HasStream ((failure_reported D.relay e w).0)
  failure_reported-HasStream e (s, wrote n) f = f
  failure_reported-HasStream e (s, failed g) f = f
  failure_reported-HasStream e (s, panicked) f = f

  report_failure-HasStream :
      (s : Session) (e : Error) → HasStream s → HasStream ((report_failure D.relay env s r e).0)
  report_failure-HasStream s e f =
      failure_reported-HasStream e _ (handshake_failure-FoundIn false r env s r _ f)

  success_reported-HasStream :
      (copy : Session → Session × Option Error) (w : Session × WriteResult)
      → ((s : Session) → HasStream s → HasStream ((copy s).0))
      → FoundIn false r w
      → HasStream ((success_reported D.relay copy w).0)
  success_reported-HasStream copy (s, wrote n) h f = h s f
  success_reported-HasStream copy (s, failed e) h f = f
  success_reported-HasStream copy (s, panicked) h f = f

  dialed-HasStream :
      (s : Session) (copy : ℕ → Session → Session × Option Error) (d : Result ℕ)
      → ((c : ℕ) (s : Session) → HasStream s → HasStream ((copy c s).0))
      → HasStream s
      → HasStream ((dialed D.relay env s r copy d).0)
  dialed-HasStream s copy (err e) h f = report_failure-HasStream s e f
  dialed-HasStream s copy (ok c) h f =
      success_reported-HasStream (copy c) _ (h c) (handshake_success-FoundIn false r env s r f)

  request_read-HasStream :
      (destination : Bytes) (q : Session × Option Error)
      → HasStream (q.0)
      → HasStream ((request_read D.relay env D.router r destination q).0)
  request_read-HasStream destination (s, some e) f = report_failure-HasStream s e f
  request_read-HasStream destination (s, none) f =
      dialed-HasStream s (λ c t. D.relay.copy_packet_conn t r c) (udp D.router destination)
        (λ c t. k.packet_conn c t r) f

  proxied-HasStream :
      (q : Session × Result Bytes) → HasStream (q.0) → HasStream ((proxied D env r q).0)
  unfolding proxy_outbound_uot proxy_outbound_tcp
  proxied-HasStream (s, err e) f = f
  proxied-HasStream (s, ok destination) f =
      if_elim (λ (e : Session × Ended). HasStream (e.0)) (contains_text destination uot_mark)
        (λ _. request_read-HasStream destination (D.relay.read_request s r) (k.request s r f))
        (λ _.
          dialed-HasStream s (λ c t. D.relay.copy_conn t r c) (tcp D.router destination)
            (λ c t. k.conn c t r) f)

-- When the handler of a stream has returned, the stream is closed, whatever the destination, the
-- dial, the reports and the copying came to, and one request more is counted for the user. The
-- calls of the sing library leave the stream in its session.
pub handle_stream-Closes :
    (D : Dialogue) (env : Env) (uid : ℤ) (tm : TrafficManager) (s : Session) (r : ℕ)
    → KeepsPlaces D
    → Found false (get_elem? s.heap r)
    → let (tm', t) = handle_stream D env uid tm s r in
      Found true (get_elem? t.heap r)
      × (held requests uid tm' ≡ add_uint64 (held requests uid tm) 1)
unfolding handle_stream count_stream
handle_stream-Closes D env uid tm s r k f =
    let one : UserTraffic = record { uid = uid; upload = 0; download = 0; count = 1 } in
    (
      close_stream-FoundIn env ((proxied D env r (D.read_addr_port s r)).0) r
          (proxied-HasStream D k env r (D.read_addr_port s r) (k.addr_port s r f)),
      held-add_traffic requests uid tm one
          ∙ ap
              (λ (b : Bool).
                if b then add_uint64 (held requests uid tm) 1 else held requests uid tm)
              ((equal_ℤ_iff uid uid).1 refl),
    )
