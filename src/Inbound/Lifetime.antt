-- ===== src/Inbound/Lifetime.antt =====
-- internal/app/server/inbound_tcp.go: a connection from its first bytes to the end of its session.
-- The receive loop runs with the hook that takes the registration back; `others` is what other
-- goroutines do to the users and their traffic before that.
use server_anytls.Prelude.{
  ℕ, ◌≡◌, refl, sym, ap, ◌∙◌, Bool, true, false, not, ◌&&◌, List, [], ◌∷◌, ◌++◌, Option, none, some,
  Bytes, ◌==◌, inl, inr, subst, arith,
}
use server_anytls.Env.{Env}
use server_anytls.Number.{ℤ, equal_ℤ}
use server_anytls.Padding.{PaddingFactory}
use server_anytls.Session.State.{
  Session, Conn, Effect, session_hook, stream_hook, handler_started, closer_started,
  syn_done_called, syn_watch_started, new_session, new_server_session,
}
use server_anytls.Session.Recv.{Receiver, Recv, goes_on, stops, stalls, panics, recv_loop}
use server_anytls.Session.Recv.Rounds.{HasEnded, recv_loop-HasEnded}
use server_anytls.Session.Hooked.{IsHooked, hook_runs}
use server_anytls.Session.Hooked.Commands.{session_of}
use server_anytls.Session.Hooked.Loop.{HasRun, recv_loop-HasRun}
use server_anytls.Service.Users.{unregister_connection}
use server_anytls.Service.Users.Evicted.{conns, contains, contains-remove}
use server_anytls.Inbound.{
  Server, Handshake, no_password, rejected, no_padding_len, no_padding, accepted, handshake, admit,
}
use server_anytls.Service.Users.{auth_and_get_user_id}

-- `NewServerSession`, then `SetDieHook`.
unfoldable pub hooked_session : Conn → Option PaddingFactory → Session
unfolding new_server_session new_session
hooked_session conn padding = record (new_server_session conn true padding) { die_hook = true }

-- What the hook does, for each time that it ran.
abbrev pub run_hooks : Server → ℤ → ℕ → List Effect → Server
run_hooks s uid c [] = s
run_hooks s uid c (session_hook ∷ es) =
    run_hooks (record s { users = unregister_connection s.users uid c }) uid c es
run_hooks s uid c (stream_hook r ∷ es) = run_hooks s uid c es
run_hooks s uid c (handler_started r ∷ es) = run_hooks s uid c es
run_hooks s uid c (closer_started r ∷ es) = run_hooks s uid c es
run_hooks s uid c (syn_done_called ∷ es) = run_hooks s uid c es
run_hooks s uid c (syn_watch_started ∷ es) = run_hooks s uid c es

abbrev pub hooks_of : Server → ℤ → ℕ → Recv → Server × Option Recv
hooks_of s uid c r = (run_hooks s uid c (session_of r).effects, some r)

-- `sess.Run()` on the bytes behind the header and on `more`, for a connection that is admitted.
abbrev pub run_session :
    Env
    → (Server → Server)
    → Server
    → ℕ
    → Conn
    → Option PaddingFactory
    → Bytes
    → Handshake
    → Server × Option Recv
run_session env others s c conn padding more (accepted uid counted rest) =
    hooks_of (others s) uid c (
      recv_loop env (record { session = hooked_session conn padding; received_settings = false })
        (rest ++ more))
run_session env others s c conn padding more no_password = (s, none)
run_session env others s c conn padding more rejected = (s, none)
run_session env others s c conn padding more no_padding_len = (s, none)
run_session env others s c conn padding more no_padding = (s, none)

-- `handleTcpConnection`, where the first read gives `b`.
unfoldable pub serve_connection :
    (ℕ → Bytes → Option (Bytes × Bytes))
    → Env
    → (Server → Server)
    → Server
    → ℕ
    → Conn
    → Option PaddingFactory
    → Bytes
    → Bytes
    → Server × Option Recv
serve_connection read_bytes env others s c conn padding b more =
    let h = handshake read_bytes (auth_and_get_user_id s.users.user_manager) b in
    run_session env others (admit s c h) c conn padding more h

-- What is registered in `t`: all that is in `u`, but for the connection `c` of `uid` if it is over.
abbrev pub IsLeft : Bool → Server → ℤ → ℕ → Server → Type 0
IsLeft over u uid c t =
    (other : ℤ) (d : ℕ)
    → contains d (conns t.users.connection_manager other) ≡ (
        not (over && (equal_ℤ uid other && c == d))
        && contains d (conns u.users.connection_manager other))

run_hooks_none :
    (s : Server) (uid : ℤ) (c : ℕ) (es : List Effect) → hook_runs es ≡ 0 → run_hooks s uid c es ≡ s
run_hooks_none s uid c [] h = refl
run_hooks_none s uid c (session_hook ∷ es) h = absurd (omega (arith, h))
run_hooks_none s uid c (stream_hook r ∷ es) h = run_hooks_none s uid c es h
run_hooks_none s uid c (handler_started r ∷ es) h = run_hooks_none s uid c es h
run_hooks_none s uid c (closer_started r ∷ es) h = run_hooks_none s uid c es h
run_hooks_none s uid c (syn_done_called ∷ es) h = run_hooks_none s uid c es h
run_hooks_none s uid c (syn_watch_started ∷ es) h = run_hooks_none s uid c es h

run_hooks_once :
    (s : Server) (uid : ℤ) (c : ℕ) (es : List Effect)
    → hook_runs es ≡ 1
    → run_hooks s uid c es ≡ record s { users = unregister_connection s.users uid c }
run_hooks_once s uid c [] h = absurd (omega (arith, h))
run_hooks_once s uid c (session_hook ∷ es) h =
    run_hooks_none (record s { users = unregister_connection s.users uid c }) uid c es
      (omega (arith, h))
run_hooks_once s uid c (stream_hook r ∷ es) h = run_hooks_once s uid c es h
run_hooks_once s uid c (handler_started r ∷ es) h = run_hooks_once s uid c es h
run_hooks_once s uid c (closer_started r ∷ es) h = run_hooks_once s uid c es h
run_hooks_once s uid c (syn_done_called ∷ es) h = run_hooks_once s uid c es h
run_hooks_once s uid c (syn_watch_started ∷ es) h = run_hooks_once s uid c es h

module _ (s : Server) (uid : ℤ) (c : ℕ) where
  run_hooks-IsLeft_once :
      (es : List Effect) → hook_runs es ≡ 1 → IsLeft true s uid c (run_hooks s uid c es)
  run_hooks-IsLeft_once es h other d =
      ap (λ (t : Server). contains d (conns t.users.connection_manager other))
        (run_hooks_once s uid c es h)
      ∙ contains-remove s.users.connection_manager uid other c d

  run_hooks-IsLeft_none :
      (es : List Effect) → hook_runs es ≡ 0 → IsLeft false s uid c (run_hooks s uid c es)
  run_hooks-IsLeft_none es h other d =
      ap (λ (t : Server). contains d (conns t.users.connection_manager other))
        (run_hooks_none s uid c es h)

  run_hooks-IsLeft :
      (v : Session) → IsHooked v → IsLeft v.dead s uid c (run_hooks s uid c v.effects)
  run_hooks-IsLeft v (inl h) =
      subst (λ b. IsLeft b s uid c (run_hooks s uid c v.effects)) (sym h.0)
        (run_hooks-IsLeft_none v.effects h.2)
  run_hooks-IsLeft v (inr h) =
      subst (λ b. IsLeft b s uid c (run_hooks s uid c v.effects)) (sym h.0)
        (run_hooks-IsLeft_once v.effects h.2)

  -- A loop that has returned has closed its session and the registration is gone; one that waits
  -- has the registration as long as its session is open.
  abbrev pub IsServed : Server × Option Recv → Type 0
  IsServed (t, some (stops v e)) = (v.session.dead ≡ true) × IsLeft true s uid c t
  IsServed (t, some (stalls v r left rest)) = IsLeft v.session.dead s uid c t
  IsServed (t, some (goes_on v rest)) = ⊥
  IsServed (t, some (panics v)) = ⊥
  IsServed (t, none) = ⊥

  hooks_of-IsServed : (r : Recv) → HasEnded r → HasRun r → IsServed (hooks_of s uid c r)
  hooks_of-IsServed (stops v e) h k = (k.0, run_hooks-IsLeft_once v.session.effects k.1)
  hooks_of-IsServed (stalls v r left rest) h k = run_hooks-IsLeft v.session k
  hooks_of-IsServed (goes_on v rest) h k = h
  hooks_of-IsServed (panics v) h k = h

hooked_session-IsHooked :
    (conn : Conn) (padding : Option PaddingFactory) → IsHooked (hooked_session conn padding)
unfolding hooked_session new_server_session new_session
hooked_session-IsHooked conn padding = inl (refl, refl, refl)

-- Without an authenticated header, the server is left as it was and no session runs.
abbrev pub Serves : (Server → Server) → Server → ℕ → Server × Option Recv → Handshake → Type 0
Serves others s c r (accepted uid counted rest) =
    IsServed (others (admit s c (accepted uid counted rest))) uid c r
Serves others s c r no_password = r ≡ (s, none)
Serves others s c r rejected = r ≡ (s, none)
Serves others s c r no_padding_len = r ≡ (s, none)
Serves others s c r no_padding = r ≡ (s, none)

run_session-Serves :
    (env : Env) (others : Server → Server) (s : Server) (c : ℕ) (conn : Conn)
    (padding : Option PaddingFactory) (more : Bytes) (h : Handshake)
    → Serves others s c (run_session env others (admit s c h) c conn padding more h) h
run_session-Serves env others s c conn padding more (accepted uid counted rest) =
    let v : Receiver = record {
      session = hooked_session conn padding;
      received_settings = false;
    } in
    hooks_of-IsServed (others (admit s c (accepted uid counted rest))) uid c
      (recv_loop env v (rest ++ more)) (recv_loop-HasEnded env v (rest ++ more))
      (recv_loop-HasRun env v (rest ++ more) (hooked_session-IsHooked conn padding))
run_session-Serves env others s c conn padding more no_password = refl
run_session-Serves env others s c conn padding more rejected = refl
run_session-Serves env others s c conn padding more no_padding_len = refl
run_session-Serves env others s c conn padding more no_padding = refl

-- Whatever a client sends and whatever other goroutines do to the users meanwhile: a connection
-- whose header is not accepted changes nothing. For one that is accepted, when the receive loop
-- returns the session is closed and exactly the registration of this connection for this user is
-- taken back, every other one staying as it was; a loop that waits for a pipe has the registration
-- left to its user until the session is closed.
pub serve_connection-Serves :
    (read_bytes : ℕ → Bytes → Option (Bytes × Bytes)) (env : Env) (others : Server → Server)
    (s : Server) (c : ℕ) (conn : Conn) (padding : Option PaddingFactory) (b more : Bytes)
    → Serves others s c
        (serve_connection read_bytes env others s c conn padding b more)
        (handshake read_bytes (auth_and_get_user_id s.users.user_manager) b)
unfolding serve_connection
serve_connection-Serves read_bytes env others s c conn padding b more =
    run_session-Serves env others s c conn padding more
      (handshake read_bytes (auth_and_get_user_id s.users.user_manager) b)
