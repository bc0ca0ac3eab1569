-- ===== src/Tests/Servers.antt =====
-- The server and its state file on concrete inputs.
use server_anytls.Prelude.{
  ◌≡◌, refl, sym, ap, true, [], ◌∷◌, none, some, Bytes, codes, net_closed, conn_failed, Result, ok,
  err, equal, bytes_eq,
}
use mathlib.Core.Bool.{false≢true}
use server_anytls.Prelude.Maps.{lookup, insert}
use server_anytls.Number.{pos, equal_ℤ}
use server_anytls.StringMap.{split, join}
use server_anytls.Path.{clean, join_path, dir, ext, add_elements, through_last_slash}
use server_anytls.StateFile.{
  Disk, written, Codec, State, get_state_file_path, load_state, save_state, rename,
}
use server_anytls.StateFile.Atomic.{Saves, save_state-Saves}
use server_anytls.Outbound.{Engine, build_outbound, build_entries}
use server_anytls.Server.{
  AnyTlsConfig, anytls, Outside, tcp4, tcp6, World, new_server, load_cert, validate_config,
  listen_dual_stack,
}
use server_anytls.Server.Register.{going, start_registered}
use server_anytls.Server.Start.{
  start, start_serving, load_tls, load_acl, make_users, check_config, allow_insecure_tls, route,
  listen_all, take_padding, start_users,
}
use server_anytls.Server.Stop.{close, accept_loop}
use server_anytls.Server.Registered.{Registers, saved, IsUsable, start_registered-Registers}
use server_anytls.Server.Restarted.{Resumes, start_registered-Resumes}
use server_anytls.Server.Ended.{world_of}
use server_anytls.Server.Running.{IsRunning, start-IsRunning}
use server_anytls.Service.Users.{init, add_users}
use server_anytls.Watcher.{
  Watcher, new_deadline_watcher, done, done_called, sees_close, Steps, stay, then_step, IsWatching,
  Steps-IsWatching,
}
use server_anytls.Tests.{demo_env}

abbrev demo_state : State
demo_state = record { register_id = codes "id-1"; node_id = pos 7; hostname = codes "host" }

-- An encoding of the states of this node and host.
abbrev demo_codec : Codec
demo_codec = record {
  marshal = λ st. ok st.register_id;
  unmarshal = λ b. ok (record { register_id = b; node_id = pos 7; hostname = codes "host" });
}

abbrev id_of : Result Bytes → Bytes
id_of (ok b) = b
id_of (err e) = []

demo_trip :
    (b : Bytes) → demo_codec.marshal demo_state ≡ ok b → demo_codec.unmarshal b ≡ ok demo_state
demo_trip b e =
    ap (λ (x : Bytes). ok (record { register_id = x; node_id = pos 7; hostname = codes "host" }))
      (sym (ap id_of e))

-- An empty disk on which everything works.
abbrev demo_disk : Disk
demo_disk = record {
  files = [];
  mkdir_all = λ _. none;
  read_fault = λ _. none;
  write_fate = λ _. written;
  rename_fault = λ _. none;
  remove_fault = λ _. none;
}

-- One on which the temporary file cannot be renamed.
abbrev stuck_disk : Disk
stuck_disk = record demo_disk { rename_fault = λ _. some (conn_failed 5) }

save_state-Saves_example :
    Saves demo_codec stuck_disk
      (codes "/data")
      demo_state
      (codes "/other")
      (save_state demo_codec stuck_disk (codes "/data") demo_state)
unfolding get_state_file_path join_path clean split join add_elements equal
save_state-Saves_example =
    save_state-Saves demo_codec stuck_disk (codes "/data") demo_state (codes "/other") refl refl
      refl demo_trip

abbrev demo_engine : Engine
demo_engine = record {
  parse_ip = λ _. none;
  new_direct = λ _. 1;
  new_direct_bind_to_ips = λ _ _ _. ok 2;
  new_direct_bind_to_device = λ _ _. ok 3;
  new_socks5 = λ _ _ _. 4;
  new_http = λ _ _. ok 5;
  new_router = λ _ _ _. ok 6;
}

abbrev demo_config : AnyTlsConfig
demo_config = record { server_port = pos 443; padding_rules = []; allow_insecure = pos 0 }

-- A panel that knows `id-1` and gives `id-2`; IPv6 is off.
abbrev demo_outside : Outside
demo_outside = record {
  env = demo_env;
  codec = demo_codec;
  engine = demo_engine;
  hash = λ b. b;
  hostname = ok (codes "host");
  config = λ _. ok (anytls demo_config);
  verify = λ id. ok (equal id (codes "id-1"));
  register = λ _ _ _. ok (codes "id-2");
  unregister = λ _. none;
  users = λ _. ok [];
  heartbeat = λ _. none;
  load_x509_key_pair = λ _ _. ok 1;
  executable = ok (codes "/usr/bin/node");
  read_in_config = λ _. none;
  unmarshal_ext = λ _. ok (record { outbounds = []; acl_inline = [] });
  listen = λ network _. elim network [ tcp4 ↦ ok 4 | tcp6 ↦ err (conn_failed 97) ];
  close_listener = λ _. none;
}

abbrev demo_world : World
demo_world = record {
  server = new_server (pos 7) (record { cert_file = []; key_file = [] }) [] (codes "/data");
  disk = demo_disk;
  factory = none;
  calls = [];
}

-- The last run registered as `id-1`.
abbrev saved_world : World
saved_world = record demo_world {
  disk = (save_state demo_codec demo_disk (codes "/data") demo_state).0;
}

start_registered-Registers_example :
    Registers demo_outside saved_world
      (saved demo_outside saved_world)
      (start_registered demo_outside saved_world)
start_registered-Registers_example = start_registered-Registers demo_outside saved_world

id-IsUsable : IsUsable demo_outside (pos 7) demo_state
unfolding equal equal_ℤ
id-IsUsable = (λ e. false≢true (ap (λ b. equal b []) e), refl, refl)

save_succeeds :
    save_state demo_codec demo_disk (codes "/data") demo_state ≡ (saved_world.disk, none)
unfolding save_state rename get_state_file_path join_path clean split join add_elements equal insert
    lookup
save_succeeds = refl

start_registered-Resumes_example :
    Resumes saved_world demo_state (start_registered demo_outside saved_world)
start_registered-Resumes_example =
    start_registered-Resumes demo_outside demo_disk saved_world demo_state (codes "host")
      demo_config save_succeeds refl demo_trip id-IsUsable refl refl

-- The node, registered anew.
abbrev registered_world : World
registered_world = world_of (start_registered demo_outside demo_world)

-- The same server while it runs.
abbrev running_world : World
running_world = world_of (start demo_outside demo_world)

runs : start demo_outside demo_world ≡ going running_world
unfolding start start_registered start_serving load_state save_state rename get_state_file_path
    join_path clean split join add_elements equal insert lookup equal_ℤ load_tls load_acl make_users
    check_config allow_insecure_tls route listen_all take_padding start_users load_cert
    validate_config listen_dual_stack build_outbound build_entries init add_users
runs = refl

start-IsRunning_example : IsRunning demo_outside running_world
start-IsRunning_example = start-IsRunning demo_outside demo_world running_world runs

-- An error of `Accept` does not end the loop, a closed listener does.
accepts : accept_loop (ok 1 ∷ err (conn_failed 24) ∷ ok 2 ∷ err net_closed ∷ ok 3 ∷ []) ≡ 1 ∷ 2 ∷ []
unfolding accept_loop
accepts = refl

paths :
    (join_path (codes "/var//lib/./x/") (codes "state.json") ≡ codes "/var/lib/x/state.json")
    × (join_path (codes "a/../..") (codes "b") ≡ codes "../b")
    × (dir (codes "/usr/bin/node") ≡ codes "/usr/bin")
    × (ext (codes "/etc/a.d/conf.yaml") ≡ codes ".yaml")
    × (ext (codes "/etc/a.d/conf") ≡ [])
    × (clean [] ≡ codes ".")
    × (clean (codes "/..") ≡ codes "/")
unfolding join_path dir ext clean split join add_elements through_last_slash equal
paths = (refl, refl, refl, refl, refl, refl, refl)

-- The signal comes when the node is registered.
abbrev raced_world : World
raced_world = world_of (start_serving demo_outside ((close demo_outside registered_world).0))

-- The function is called, the goroutine ends, and the function is called again.
abbrev watched : Watcher
watched = record new_deadline_watcher {
  close_ch = true;
  once = true;
  ended = true;
  timer_stopped = true;
}

abbrev closing : Watcher
closing = record new_deadline_watcher { close_ch = true; once = true }

watch-Steps : Steps new_deadline_watcher watched
unfolding done
watch-Steps =
    then_step (then_step (then_step stay (done_called {v = closing} refl)) (sees_close refl refl))
      (done_called refl)

Steps-IsWatching_example : IsWatching watched
Steps-IsWatching_example = Steps-IsWatching watched watch-Steps
