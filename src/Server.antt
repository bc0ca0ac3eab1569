-- ===== src/Server.antt =====
-- internal/app/server/server.go: the server as a whole. `World` is the server with what it changes
-- outside itself, `Outside` what the panel, the libraries and the system answer. Values that are
-- printed into error texts are left out of the texts.
pub mod Register
pub mod Start
pub mod Stop
pub mod Registered
pub mod Restarted
pub mod Stopped
pub mod Kept
pub mod Ended
pub mod Running
pub mod Raced
use server_anytls.Prelude.{
  ℕ, ◌^◌, Bool, true, false, ◌&&◌, ◌||◌, not, List, [], ◌∷◌, ◌++◌, Option, none, some, Bytes, codes,
  Error, message, wrapped, Result, ok, err, if◌then◌else◌,
}
use server_anytls.Env.{Env}
use server_anytls.Number.{ℤ, pos, leb_ℤ}
use server_anytls.Padding.{PaddingFactory}
use server_anytls.Service.Users.{User, UsersService}
use server_anytls.StateFile.{Disk, Codec, or_default}
use server_anytls.Outbound.{ExtConfig, Engine}

-- The fields of `api.AnyTLSConfig` that the code reads.
pub record AnyTlsConfig : Type 0 where
  pub server_port : ℤ
  pub padding_rules : Bytes
  pub allow_insecure : ℤ

-- `api.NodeConfig`: this type or another one.
pub data NodeConfig : Type 0 where
  anytls : AnyTlsConfig → NodeConfig
  other_type : NodeConfig

-- `CertConfig` of model.go, and what it loads: a certificate is a number.
pub record CertConfig : Type 0 where
  pub cert_file : Bytes
  pub key_file : Bytes

pub record TlsConfig : Type 0 where
  pub certificate : ℕ
  pub insecure_skip_verify : Bool

pub data Network : Type 0 where
  tcp4 tcp6 : Network

-- `unmarshal_ext` is `viper.Unmarshal` of the file that `read_in_config` has read, which makes an
-- `ExtConfig`. `listen` is `net.Listen` on all addresses of the network and a port.
pub record Outside : Type 0 where
  pub env : Env
  pub codec : Codec
  pub engine : Engine
  pub hash : Bytes → Bytes
  pub hostname : Result Bytes
  pub config : ℤ → Result NodeConfig
  pub verify : Bytes → Result Bool
  pub register : ℤ → Bytes → ℤ → Result Bytes
  pub unregister : Bytes → Option Error
  pub users : Bytes → Result (List User)
  pub heartbeat : Bytes → Option Error
  pub load_x509_key_pair : Bytes → Bytes → Result ℕ
  pub executable : Result Bytes
  pub read_in_config : Bytes → Option Error
  pub unmarshal_ext : Bytes → Result ExtConfig
  pub listen : Network → ℤ → Result ℕ
  pub close_listener : ℕ → Option Error

-- The calls that others see, in order: the panel is asked, a listener is closed, the routines of
-- the user service end.
pub data Call : Type 0 where
  verify_called : Bytes → Call
  register_called : Bytes → ℤ → Call
  unregister_called : Bytes → Call
  users_called heartbeat_called : Bytes → Call
  listener_closed : ℕ → Call
  users_closed : Call

-- A nil pointer is `none`; `registered_as` is the id of `serviceConfig`, `closed` the used
-- `closeOnce`.
pub record Server : Type 0 where
  pub tls_config : Option TlsConfig
  pub anytls_config : Option AnyTlsConfig
  pub listeners : List ℕ
  pub user_service : Option UsersService
  pub api_client : Bool
  pub register_id : Bytes
  pub node_id : ℤ
  pub registered_as : Bytes
  pub cert_config : CertConfig
  pub acl_conf_path : Bytes
  pub ext_config : Option ExtConfig
  pub outbound : Option ℕ
  pub data_dir : Bytes
  pub cancelled : Bool
  pub closed : Bool
  pub close_err : Option Error

-- `factory` is `padding.DefaultPaddingFactory`.
pub record World : Type 0 where
  pub server : Server
  pub disk : Disk
  pub factory : Option PaddingFactory
  pub calls : List Call

abbrev pub log : World → Call → World
log w c = record w { calls = w.calls ++ (c ∷ []) }

abbrev pub with_server : World → Server → World
with_server w s = record w { server = s }

-- `New`, which always succeeds.
abbrev pub new_server : ℤ → CertConfig → Bytes → Bytes → Server
new_server node_id cert_config acl_conf_path data_dir = record {
  tls_config = none;
  anytls_config = none;
  listeners = [];
  user_service = none;
  api_client = false;
  register_id = [];
  node_id = node_id;
  registered_as = [];
  cert_config = cert_config;
  acl_conf_path = acl_conf_path;
  ext_config = none;
  outbound = none;
  data_dir = or_default data_dir;
  cancelled = false;
  closed = false;
  close_err = none;
}

-- The port is one that TCP has.
abbrev pub is_port : ℤ → Bool
is_port p = not (leb_ℤ p (pos 0) || not (leb_ℤ p (pos 65535)))

abbrev pub validate_type : NodeConfig → Option Error
validate_type other_type = some (message (codes "unexpected node config type"))
validate_type (anytls c) =
    if is_port c.server_port then none else some (message (codes "invalid server port"))

unfoldable pub validate_config :
    Option NodeConfig → Option UsersService → Option TlsConfig → Option Error
validate_config none users tls = some (message (codes "nodeConfig is nil"))
validate_config (some c) none tls = some (message (codes "userService is nil"))
validate_config (some c) (some u) none = some (message (codes "tlsConfig is nil"))
validate_config (some c) (some u) (some t) = validate_type c

abbrev loaded_cert : Result ℕ → Result TlsConfig
loaded_cert (err e) = err e
loaded_cert (ok cert) = ok (record { certificate = cert; insecure_skip_verify = false })

-- `CertConfig.Load`
unfoldable pub load_cert : Outside → CertConfig → Result TlsConfig
load_cert O c = loaded_cert (O.load_x509_key_pair c.cert_file c.key_file)

abbrev pub cons_ok : Result ℕ → List ℕ → List ℕ
cons_ok (err e) rest = rest
cons_ok (ok ln) rest = ln ∷ rest

abbrev pub some_listener : List ℕ → Result (List ℕ)
some_listener [] = err (message (codes "failed to listen on any address for port"))
some_listener (ln ∷ rest) = ok (ln ∷ rest)

-- `listenDualStack`: one network is enough.
unfoldable pub listen_dual_stack : Outside → ℤ → Result (List ℕ)
listen_dual_stack O port =
    some_listener (cons_ok (O.listen tcp4 port) (cons_ok (O.listen tcp6 port) []))
