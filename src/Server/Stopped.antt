-- ===== src/Server/Stopped.antt =====
-- What `Close` does, and that it does it once.
use server_anytls.Prelude.{
  ℕ, ◌≡◌, refl, sym, ap, ◌∙◌, Bool, true, false, ◌&&◌, not, List, [], ◌∷◌, ◌++◌, map, append-nil,
  append_assoc, Option, none, some, Bytes, codes, Error, wrapped, is_net_closed, equal,
  if◌then◌else◌, if_elim, inl, inr, Bool-cases,
}
use mathlib.Core.Bool.{false≢true}
use server_anytls.StateFile.{Disk, clear_state}
use server_anytls.Service.Users.{UsersService}
use server_anytls.Server.{
  Outside, Call, unregister_called, listener_closed, users_closed, Server, World, log, with_server,
}
use server_anytls.Server.Stop.{
  unregistered, give_back, close_failed, close_listeners, close_users, cancel, close_once, close,
}

-- The node was registered and there is a client to say so.
abbrev pub owes : Server → Bool
owes s = not (equal s.register_id []) && s.api_client

abbrev pub give_back_calls : Server → List Call
give_back_calls s = if owes s then unregister_called s.register_id ∷ [] else []

abbrev pub users_calls : Option UsersService → List Call
users_calls none = []
users_calls (some u) = users_closed ∷ []

-- The calls of a `Close`: the id is given back first, then every listener is closed.
abbrev pub closing_calls : Server → List Call
closing_calls s =
    give_back_calls s ++ (map listener_closed s.listeners ++ users_calls s.user_service)

abbrev pub clear_unless : Disk → Bytes → Option Error → Disk
clear_unless d data_dir none = (clear_state d data_dir).0
clear_unless d data_dir (some e) = d

-- The state file goes if the panel has taken the id back.
abbrev pub disk_after : Outside → World → Disk
disk_after O w =
    if owes w.server
    then clear_unless w.disk w.server.data_dir (O.unregister w.server.register_id)
    else w.disk

abbrev pub error_after : Option Error → Option Error → Option Error
error_after old none = old
error_after old (some e) =
    if is_net_closed e then old else some (wrapped (codes "failed to close listener: ") e)

-- The error of the last listener that could not be closed and was not closed already.
abbrev pub last_error : Outside → Option Error → List ℕ → Option Error
last_error O old [] = old
last_error O old (ln ∷ lns) = last_error O (error_after old (O.close_listener ln)) lns

keep_or_set :
    (s : Server) (v : Option Error) (b : Bool)
    → (if b then s else record s { close_err = v })
      ≡ record s { close_err = if b then s.close_err else v }
keep_or_set s v true = refl
keep_or_set s v false = refl

close_failed_same :
    (s : Server) (o : Option Error)
    → close_failed s o ≡ record s { close_err = error_after s.close_err o }
close_failed_same s none = refl
close_failed_same s (some e) = keep_or_set s _ (is_net_closed e)

-- The world behind the loop over the listeners.
abbrev listeners_closed : Outside → World → List ℕ → World
listeners_closed O w lns = record w {
  server = record (w.server) { close_err = last_error O w.server.close_err lns };
  calls = w.calls ++ map listener_closed lns;
}

close_listeners_same :
    (O : Outside) (lns : List ℕ) (w : World) → close_listeners O w lns ≡ listeners_closed O w lns
unfolding close_listeners
close_listeners_same O [] w =
    ap (λ (cs : List Call). record w { calls = cs }) (sym (append-nil w.calls))
close_listeners_same O (ln ∷ lns) w =
    let v = log w (listener_closed ln) in
    close_listeners_same O lns (with_server v (close_failed w.server (O.close_listener ln)))
    ∙ ap (λ (s : Server). listeners_closed O (with_server v s) lns)
        (close_failed_same w.server (O.close_listener ln))
    ∙ ap (λ (cs : List Call). record (listeners_closed O w (ln ∷ lns)) { calls = cs })
        (append_assoc w.calls (listener_closed ln ∷ []) (map listener_closed lns))

unregistered_same :
    (w : World) (c : Call) (o : Option Error)
    → unregistered (log w c) o
      ≡ record w { disk = clear_unless w.disk w.server.data_dir o; calls = w.calls ++ (c ∷ []) }
unregistered_same w c none = refl
unregistered_same w c (some e) = refl

-- The world behind the first step.
abbrev given_back : Outside → World → World
given_back O w = record w { disk = disk_after O w; calls = w.calls ++ give_back_calls w.server }

give_back_if :
    (O : Outside) (w : World) (b : Bool)
    → (if b
        then unregistered
            (log w (unregister_called w.server.register_id))
            (O.unregister w.server.register_id)
        else w)
      ≡ record w {
        disk =
            if b
            then clear_unless w.disk w.server.data_dir (O.unregister w.server.register_id)
            else w.disk;
        calls = w.calls ++ (if b then unregister_called w.server.register_id ∷ [] else []);
      }
give_back_if O w true =
    unregistered_same w (unregister_called w.server.register_id) (O.unregister w.server.register_id)
give_back_if O w false = ap (λ (cs : List Call). record w { calls = cs }) (sym (append-nil w.calls))

give_back_same : (O : Outside) (w : World) → give_back O w ≡ given_back O w
give_back_same O w = give_back_if O w (owes w.server)

close_users_calls :
    (w : World) (o : Option UsersService)
    → close_users w o ≡ record w { calls = w.calls ++ users_calls o }
close_users_calls w none =
    ap (λ (cs : List Call). record w { calls = cs }) (sym (append-nil w.calls))
close_users_calls w (some u) = refl

-- The world behind the first `Close`.
abbrev pub stopped : Outside → World → World
stopped O w = record w {
  server = record (w.server) {
    closed = true;
    cancelled = true;
    close_err = last_error O w.server.close_err w.server.listeners;
  };
  disk = disk_after O w;
  calls = w.calls ++ closing_calls w.server;
}

close_once_same :
    (O : Outside) (w : World)
    → close_once O (with_server w (record (w.server) { closed = true })) ≡ stopped O w
close_once_same O w =
    let v = with_server w (record (w.server) { closed = true }) in
    let given = cancel (given_back O v) in
    let gone = listeners_closed O given w.server.listeners in
    ap
      (λ (x : World).
        let u = close_listeners O (cancel x) ((cancel x).server.listeners) in
        close_users u u.server.user_service)
      (give_back_same O v)
    ∙ ap (λ (u : World). close_users u u.server.user_service)
        (close_listeners_same O w.server.listeners given)
    ∙ close_users_calls gone w.server.user_service
    ∙ ap (λ (cs : List Call). record (stopped O w) { calls = cs })
        (append_assoc (w.calls ++ give_back_calls w.server) (map listener_closed w.server.listeners)
            (users_calls w.server.user_service)
          ∙ append_assoc w.calls (give_back_calls w.server) _)

pub close-stopped :
    (O : Outside) (w : World)
    → w.server.closed ≡ false
    → close O w ≡ (stopped O w, last_error O w.server.close_err w.server.listeners)
unfolding close
close-stopped O w fresh =
    let t = close_once O (with_server w (record (w.server) { closed = true })) in
    if_elim
      (λ (r : World × Option Error).
        r ≡ (stopped O w, last_error O w.server.close_err w.server.listeners))
      w.server.closed (λ e. absurd (false≢true (sym fresh ∙ e)))
      (λ _. ap (λ (x : World). (x, x.server.close_err)) (close_once_same O w))

pub close_closed :
    (O : Outside) (w : World) → w.server.closed ≡ true → close O w ≡ (w, w.server.close_err)
unfolding close
close_closed O w gone =
    if_elim (λ (r : World × Option Error). r ≡ (w, w.server.close_err)) w.server.closed (λ _. refl)
      (λ e. absurd (false≢true (sym e ∙ gone)))

-- A `Close` behind a `Close` does nothing and returns what that one returned.
pub close_twice : (O : Outside) (w : World) → close O ((close O w).0) ≡ close O w
close_twice O w = elim (Bool-cases w.server.closed) [
  | inl e ↦ ap (λ (r : World × Option Error). close O (r.0)) (close_closed O w e)
  | inr e ↦
      ap (λ (r : World × Option Error). close O (r.0)) (close-stopped O w e)
      ∙ close_closed O (stopped O w) refl
      ∙ sym (close-stopped O w e)
]
