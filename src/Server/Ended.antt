-- ===== src/Server/Ended.antt =====
-- `Close` behind a `Start`, wherever that ended: the node does not stay registered.
use server_anytls.Prelude.{◌≡◌, true, ◌∷◌, ◌++◌, map}
use server_anytls.Server.{Outside, unregister_called, listener_closed, Server, World}
use server_anytls.Server.Register.{Outcome, going, failed}
use server_anytls.Server.Stopped.{users_calls, clear_unless}

-- `Close` has the client that it needs, once the node is registered.
abbrev CanClose : World → Outcome → Type 0
CanClose w (going t) = (t.server.api_client ≡ true) × (t.server.closed ≡ w.server.closed)
CanClose w (failed t e) = Unit {0}

-- Where `Start` is when it returns or waits.
abbrev pub world_of : Outcome → World
world_of (going t) = t
world_of (failed t e) = t

-- The state that `Close` leaves when the node was registered as in `v`.
abbrev pub GivesBack : Outside → World → World → World → Type 0
GivesBack O v t u =
    (u.calls
      ≡ t.calls
        ++ (unregister_called v.server.register_id
            ∷ (map listener_closed t.server.listeners ++ users_calls t.server.user_service)))
    × (u.disk ≡ clear_unless v.disk v.server.data_dir (O.unregister v.server.register_id))
