-- ===== src/Server/Start.antt =====
-- server.go, the second half of `Start`, up to the loops that accept connections. `UsersService.Start`
-- of internal/pkg/service/users.go is its last step.
use server_anytls.Prelude.{
  ℕ, Bool, true, ◌||◌, List, [], ◌∷◌, Option, none, some, Bytes, codes, Error, message, wrapped,
  Result, ok, err, equal, if◌then◌else◌,
}
use server_anytls.Number.{ℤ, pos, equal_ℤ}
use server_anytls.Path.{is_abs, join_path, dir, ext}
use server_anytls.Padding.{update_padding_scheme}
use server_anytls.Service.Users.{UsersService, new_users_service, init}
use server_anytls.Outbound.{ExtConfig, build_outbound}
use server_anytls.Server.{
  AnyTlsConfig, NodeConfig, anytls, TlsConfig, Outside, users_called, heartbeat_called, World, log,
  with_server, validate_config, load_cert, listen_dual_stack,
}
use server_anytls.Server.Register.{Outcome, going, failed, ◌>>>◌, start_registered}

abbrev pub cert_loaded : World → Result TlsConfig → Outcome
cert_loaded w (err e) = failed w (wrapped (codes "failed to load TLS config: ") e)
cert_loaded w (ok tls) = going (with_server w (record (w.server) { tls_config = some tls }))

unfoldable pub load_tls : Outside → World → Outcome
load_tls O w = cert_loaded w (load_cert O w.server.cert_config)

-- Relative to the executable, if that is known.
abbrev pub beside : Bytes → Result Bytes → Bytes
beside path (err e) = path
beside path (ok exec_path) = join_path (dir exec_path) path

abbrev pub absolute : Outside → Bytes → Bytes
absolute O path = if is_abs path then path else beside path O.executable

abbrev pub is_yaml : Bytes → Bool
is_yaml path = equal (ext path) (codes ".yaml") || equal (ext path) (codes ".yml")

abbrev pub acl_unmarshalled : World → Result ExtConfig → Outcome
acl_unmarshalled w (err e) = failed w (wrapped (codes "failed to unmarshal ACL config: ") e)
acl_unmarshalled w (ok c) = going (with_server w (record (w.server) { ext_config = some c }))

abbrev pub acl_read : Outside → World → Bytes → Option Error → Outcome
acl_read O w path (some e) = failed w (wrapped (codes "failed to read ACL config: ") e)
acl_read O w path none = acl_unmarshalled w (O.unmarshal_ext path)

abbrev pub load_acl_from : Outside → World → Bytes → Outcome
load_acl_from O w path =
    if is_yaml path
    then acl_read O w path (O.read_in_config path)
    else failed w (message (codes "ACL config file must be in YAML format (.yaml or .yml)"))

unfoldable pub load_acl : Outside → World → Outcome
load_acl O w =
    if equal w.server.acl_conf_path []
    then going w
    else load_acl_from O w (absolute O w.server.acl_conf_path)

-- `NewUsersService`
unfoldable pub make_users : World → Outcome
make_users w = going (with_server w (record (w.server) { user_service = some new_users_service }))

abbrev pub checked : World → Option Error → Outcome
checked w none = going w
checked w (some e) = failed w (wrapped (codes "invalid configuration: ") e)

abbrev pub node_config : Option AnyTlsConfig → Option NodeConfig
node_config none = none
node_config (some c) = some (anytls c)

unfoldable pub check_config : World → Outcome
check_config w =
    checked w (
      validate_config (node_config w.server.anytls_config) w.server.user_service
        w.server.tls_config)

abbrev pub skip_verify : Option AnyTlsConfig → Option TlsConfig → Option TlsConfig
skip_verify (some c) (some tls) =
    some
      (if equal_ℤ c.allow_insecure (pos 1) then record tls { insecure_skip_verify = true } else tls)
skip_verify _ tls = tls

unfoldable pub allow_insecure_tls : World → Outcome
allow_insecure_tls w = going (
    with_server w
      (record (w.server) { tls_config = skip_verify w.server.anytls_config w.server.tls_config }))

abbrev pub routed : World → Result ℕ → Outcome
routed w (err e) = failed w (wrapped (codes "failed to build outbound: ") e)
routed w (ok r) = going (with_server w (record (w.server) { outbound = some r }))

unfoldable pub route : Outside → World → Outcome
route O w = routed w (build_outbound O.engine w.server.data_dir w.server.ext_config)

abbrev pub listening : World → Result (List ℕ) → Outcome
listening w (err e) = failed w (wrapped (codes "failed to listen: ") e)
listening w (ok lns) = going (with_server w (record (w.server) { listeners = lns }))

-- Behind the check of the configuration `anyTLSConfig` is not nil.
abbrev pub port_of : Option AnyTlsConfig → ℤ
port_of none = pos 0
port_of (some c) = c.server_port

abbrev pub rules_of : Option AnyTlsConfig → Bytes
rules_of none = []
rules_of (some c) = c.padding_rules

unfoldable pub listen_all : Outside → World → Outcome
listen_all O w = listening w (listen_dual_stack O (port_of w.server.anytls_config))

-- The panel's padding scheme replaces the default one, if it is there and parses.
unfoldable pub take_padding : Outside → World → Outcome
take_padding O w =
    let rules = rules_of w.server.anytls_config in
    if equal rules []
    then going w
    else going (record w { factory = (update_padding_scheme O.env w.factory rules).0 })

-- `init` of the user service: it asks the panel under the register id of the configuration.
abbrev pub init_users : Outside → World → Bytes → UsersService → World × UsersService × Option Error
init_users O w [] u = (w, u, some (message (codes "register id is not set")))
init_users O w (c ∷ id) u =
    let (u', e) = init O.hash u (O.users (c ∷ id)) in (log w (users_called (c ∷ id)), u', e)

-- `UsersService.Start`: the three routines start, and one heartbeat is sent, its error logged.
abbrev pub users_ready : World × UsersService × Option Error → Outcome
users_ready (w, u, some e) =
    failed (with_server w (record (w.server) { user_service = some u }))
      (wrapped (codes "failed to start user service: ") e)
users_ready (w, u, none) = going (
    log (with_server w (record (w.server) { user_service = some u }))
      (heartbeat_called w.server.registered_as))

abbrev pub start_users_of : Outside → World → Option UsersService → Outcome
start_users_of O w none = going w
start_users_of O w (some u) = users_ready (init_users O w w.server.registered_as u)

unfoldable pub start_users : Outside → World → Outcome
start_users O w = start_users_of O w w.server.user_service

-- The second half of `Start`.
unfoldable pub start_serving : Outside → World → Outcome
start_serving O w =
    load_tls O w
    >>> load_acl O
    >>> make_users
    >>> check_config
    >>> allow_insecure_tls
    >>> route O
    >>> listen_all O
    >>> take_padding O
    >>> start_users O

-- `Start` up to where it waits for its accept loops.
unfoldable pub start : Outside → World → Outcome
start O w = start_registered O w >>> start_serving O
