-- ===== src/Tests/Services.antt =====
-- The users, their traffic and the handshake on concrete inputs.
use server_anytls.Prelude.{
  ℕ, ◌%◌, ◌^◌, ◌≡◌, refl, true, List, [], ◌∷◌, Option, none, some, Bytes, codes, ok, closed_pipe,
  arith, if◌then◌else◌, replicate, equal, subst,
}
use server_anytls.Prelude.Maps.{HasUniqueKeys, lookup, insert}
use server_anytls.Number.{ℤ, pos, int_eq, equal_ℤ}
use server_anytls.Service.Traffic.{TrafficManager, UserTraffic}
use server_anytls.Service.Traffic.Conserved.{uploads}
use server_anytls.Service.Traffic.History.{
  Event, counted, drained, settled, new_ledger, run, recorded, earned, run_accounts,
}
use server_anytls.Service.Users.{
  auth_and_get_user_id, User, UsersService, new_users_service, fetch_users_task, init,
  compare_user_list, by_uuid, missing_from, add_users,
}
use server_anytls.Service.Users.Synced.{IsSynced, fetch_users_task-IsSynced, init-IsSynced}
use server_anytls.Service.Users.Evicted.{has_id, conns, contains, contains-fetch_users_task}
use server_anytls.Inbound.{Server, handshake, encode_to_string, handle_tcp_connection}
use server_anytls.Inbound.Accounts.{Admits, handle_tcp_connection-Admits}
use server_anytls.Inbound.Lifetime.{Serves, serve_connection, serve_connection-Serves}
use server_anytls.Session.Traffic.{traffic}
use server_anytls.Tests.{demo_env, demo_conn, demo_factory, demo_items}
use server_anytls.Inbound.Admission.{TakesFront, front, hello}

abbrev traffic_of : ℤ → ℕ → ℕ → UserTraffic
traffic_of uid up down = record { uid = uid; upload = up; download = down; count = 1 }

-- Two users count, a report fails, more is counted, and a report is taken.
abbrev demo_events : List Event
demo_events =
    counted (traffic_of (pos 1) 10 20)
    ∷ counted (traffic_of (pos 2) 5 0)
    ∷ drained
    ∷ counted (traffic_of (pos 1) 7 0)
    ∷ settled (some closed_pipe)
    ∷ drained
    ∷ settled none
    ∷ counted (traffic_of (pos 1) 1 1)
    ∷ []

run_accounts_example :
    recorded uploads (pos 1) (run new_ledger demo_events) % 2 ^ 64
    ≡ earned uploads (pos 1) demo_events % 2 ^ 64
run_accounts_example = run_accounts uploads (pos 1) demo_events

abbrev demo_traffic : TrafficManager
demo_traffic =
    (pos 1, record { up = 10; down = 20; count = 1 })
    ∷ (pos 2, record { up = 0; down = 0; count = 0 })
    ∷ []

demo_traffic-HasUniqueKeys : HasUniqueKeys demo_traffic
unfolding lookup equal_ℤ
demo_traffic-HasUniqueKeys = (refl, (refl, tt))

abbrev hash : Bytes → Bytes
hash b = b'#' ∷ b

hash-IsCollisionFree : (a b : Bytes) → hash a ≡ hash b → a ≡ b
hash-IsCollisionFree a b e = cc

abbrev alice : User
alice = record { id = pos 1; uuid = codes "alice" }

abbrev bob : User
bob = record { id = pos 2; uuid = codes "bob" }

-- Alice and Bob are known, and each has a connection.
abbrev demo_service : UsersService
demo_service = record {
  user_manager = (hash (codes "alice"), alice) ∷ (hash (codes "bob"), bob) ∷ [];
  connection_manager = (pos 1, (70, tt) ∷ []) ∷ (pos 2, (71, tt) ∷ []) ∷ [];
  user_list = some (alice ∷ bob ∷ []);
  closed = [];
}

demo_service-init :
    (init hash new_users_service (ok (alice ∷ bob ∷ []))).0
    ≡ record demo_service { connection_manager = [] }
unfolding init add_users insert equal
demo_service-init = refl

demo_service-IsSynced : IsSynced hash demo_service
demo_service-IsSynced = subst (IsSynced hash) demo_service-init init-IsSynced_lem
  where
    init-IsSynced_lem : IsSynced hash ((init hash new_users_service (ok (alice ∷ bob ∷ []))).0)
    init-IsSynced_lem = init-IsSynced hash (alice ∷ bob ∷ []) hash-IsCollisionFree

fetch_users_task-IsSynced_example :
    IsSynced hash (fetch_users_task hash demo_service (ok (bob ∷ [])))
fetch_users_task-IsSynced_example =
    fetch_users_task-IsSynced hash demo_service (ok (bob ∷ [])) hash-IsCollisionFree
      demo_service-IsSynced

alice_is_deleted :
    has_id (pos 1) ((compare_user_list demo_service.user_list (some (bob ∷ []))).0) ≡ true
unfolding compare_user_list by_uuid missing_from insert lookup equal equal_ℤ
alice_is_deleted = refl

alice_is_connected : contains 70 (conns demo_service.connection_manager (pos 1)) ≡ true
unfolding lookup equal_ℤ
alice_is_connected = refl

contains-fetch_users_task_example :
    contains 70 ((fetch_users_task hash demo_service (ok (bob ∷ []))).closed) ≡ true
contains-fetch_users_task_example =
    contains-fetch_users_task hash demo_service (bob ∷ []) (pos 1) 70 alice_is_deleted
      alice_is_connected

-- Bob is the only user left.
abbrev bob_service : UsersService
bob_service = record demo_service { user_list = some (bob ∷ []) }

abbrev demo_auth : Bytes → Option ℤ
demo_auth hex = if equal hex (replicate 64 b'a') then some (pos 1) else none

abbrev password : Bytes
password = replicate 32 170

front-TakesFront : TakesFront front
front-TakesFront n b = refl

-- A server that knows alice by that password.
abbrev alice_server : Server
alice_server = record {
  users = record new_users_service { user_manager = (replicate 64 b'a', alice) ∷ [] };
  traffic = demo_traffic;
}

handle_tcp_connection-Admits_example :
    Admits alice_server 9 37
      (handle_tcp_connection front alice_server 9 (hello password (codes "pad") (codes "rest")))
      (auth_and_get_user_id alice_server.users.user_manager (encode_to_string password))
handle_tcp_connection-Admits_example =
    handle_tcp_connection-Admits front alice_server 9 password (codes "pad") (codes "rest")
      front-TakesFront refl (omega arith)

serve_connection-Serves_example :
    Serves
      (λ t. t)
      alice_server
      9
      (serve_connection front demo_env
        (λ t. t)
        alice_server
        9
        demo_conn
        (some demo_factory)
        (hello password (codes "pad") (codes "rest"))
        (traffic demo_items))
      (handshake front
        (auth_and_get_user_id alice_server.users.user_manager)
        (hello password (codes "pad") (codes "rest")))
serve_connection-Serves_example =
    serve_connection-Serves front demo_env (λ t. t) alice_server 9 demo_conn (some demo_factory)
      (hello password (codes "pad") (codes "rest")) (traffic demo_items)
