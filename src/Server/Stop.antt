-- ===== src/Server/Stop.antt =====
-- server.go: `Close`, and the loops that accept connections.
use server_anytls.Prelude.{
  ℕ, true, ◌&&◌, not, List, [], ◌∷◌, Option, none, some, codes, Error, wrapped, is_net_closed,
  Result, ok, err, equal, if◌then◌else◌,
}
use server_anytls.Service.Users.{UsersService}
use server_anytls.Server.{
  Outside, unregister_called, listener_closed, users_closed, Server, World, log, with_server,
}
use server_anytls.Server.Register.{clear}

-- The answer to `Unregister`: after a success the state file goes too.
abbrev pub unregistered : World → Option Error → World
unregistered w (some e) = w
unregistered w none = clear w

abbrev pub give_back : Outside → World → World
give_back O w =
    if not (equal w.server.register_id []) && w.server.api_client
    then unregistered (log w (unregister_called w.server.register_id))
        (O.unregister w.server.register_id)
    else w

abbrev pub close_failed : Server → Option Error → Server
close_failed s none = s
close_failed s (some e) =
    if is_net_closed e
    then s
    else record s { close_err = some (wrapped (codes "failed to close listener: ") e) }

-- The loop over the listeners.
unfoldable pub close_listeners : Outside → World → List ℕ → World
close_listeners O w [] = w
close_listeners O w (ln ∷ lns) =
    close_listeners O
      (with_server (log w (listener_closed ln)) (close_failed w.server (O.close_listener ln))) lns

-- `UsersService.Close` cancels its context and returns no error.
abbrev pub close_users : World → Option UsersService → World
close_users w none = w
close_users w (some u) = log w users_closed

abbrev pub cancel : World → World
cancel w = with_server w (record (w.server) { cancelled = true })

abbrev pub close_once : Outside → World → World
close_once O w =
    let v = cancel (give_back O w) in
    let u = close_listeners O v v.server.listeners in close_users u u.server.user_service

-- `Close`, with what it returns.
unfoldable pub close : Outside → World → World × Option Error
close O w =
    if w.server.closed
    then (w, w.server.close_err)
    else (let t = close_once O (with_server w (record (w.server) { closed = true })) in
        (t, t.server.close_err))

-- The connections that one accept loop hands on, from the answers of `Accept` in order: an error
-- other than of a closed listener is logged.
unfoldable pub accept_loop : List (Result ℕ) → List ℕ
accept_loop [] = []
accept_loop (ok conn ∷ answers) = conn ∷ accept_loop answers
accept_loop (err e ∷ answers) =
    let rest = accept_loop answers in if is_net_closed e then [] else rest
