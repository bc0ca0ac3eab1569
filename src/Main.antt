-- ===== src/Main.antt =====
-- cmd/server/main.go: the flags, and what the program does around `Start`. The command line library
-- is below this: a flag's value is its text on the command line, else that of the first variable
-- that is set, else its default, as the library documents.
pub mod Flags
use server_anytls.Prelude.{
  ℕ, Bool, true, false, List, [], ◌∷◌, ◌++◌, Option, none, some, Bytes, codes, Error, message,
  wrapped, Result, ok, err, equal, if◌then◌else◌,
}
use server_anytls.Path.{join_path}
use server_anytls.StateFile.{Disk, or_default, remove, default_data_dir}
use server_anytls.Server.{Outside, World}
use server_anytls.Server.Register.{Outcome, going, failed}
use server_anytls.Server.Start.{start}
use server_anytls.Server.Stop.{close}

pub record Flag : Type 0 where
  pub name : Bytes
  pub env_vars : List Bytes
  pub default_value : Option Bytes

abbrev pub env : Bytes → Bytes → List Bytes
env a b = (codes "X_PANDA_ANYTLS_" ++ a) ∷ b ∷ []

-- With no default a flag is required, or false.
abbrev pub flag : Bytes → List Bytes → Option Bytes → Flag
flag name env_vars default_value = record {
  name = name;
  env_vars = env_vars;
  default_value = default_value;
}

abbrev pub api_flag : Flag
api_flag = flag (codes "api") (env (codes "API") (codes "API")) none

abbrev pub token_flag : Flag
token_flag = flag (codes "token") (env (codes "TOKEN") (codes "TOKEN")) none

abbrev pub acl_conf_file_flag : Flag
acl_conf_file_flag =
    flag (codes "acl_conf_file") (env (codes "ACL_CONF_FILE") (codes "ACL_CONF_FILE")) (some [])

abbrev pub cert_file_flag : Flag
cert_file_flag =
    flag (codes "cert_file") (env (codes "CERT_FILE") (codes "CERT_FILE"))
      (some (codes "/root/.cert/server.crt"))

abbrev pub key_file_flag : Flag
key_file_flag =
    flag (codes "key_file") (env (codes "KEY_FILE") (codes "KEY_FILE"))
      (some (codes "/root/.cert/server.key"))

abbrev pub node_flag : Flag
node_flag = flag (codes "node") (env (codes "NODE") (codes "NODE")) none

abbrev pub fetch_users_interval_flag : Flag
fetch_users_interval_flag =
    flag (codes "fetch_users_interval, fui")
      (env (codes "FETCH_USER_INTERVAL") (codes "FETCH_USER_INTERVAL")) (some (codes "60s"))

abbrev pub report_traffics_interval_flag : Flag
report_traffics_interval_flag =
    flag (codes "report_traffics_interval, fui")
      (env (codes "FETCH_USER_INTERVAL") (codes "REPORT_TRAFFICS_INTERVAL")) (some (codes "80s"))

abbrev pub heartbeat_interval_flag : Flag
heartbeat_interval_flag =
    flag (codes "heartbeat_interval, hi")
      (env (codes "HEARTBEAT_INTERVAL") (codes "HEARTBEAT_INTERVAL")) (some (codes "180s"))

abbrev pub log_mode_flag : Flag
log_mode_flag =
    flag (codes "log_mode") (env (codes "LOG_LEVEL") (codes "LOG_LEVEL")) (some (codes "error"))

abbrev pub data_dir_flag : Flag
data_dir_flag =
    flag (codes "data_dir") (env (codes "DATA_DIR") (codes "DATA_DIR")) (some default_data_dir)

abbrev pub api_ip_version_flag : Flag
api_ip_version_flag =
    flag (codes "api_ip_version") (env (codes "API_IP_VERSION") (codes "API_IP_VERSION"))
      (some (codes "v4"))

abbrev pub refresh_geodata_flag : Flag
refresh_geodata_flag =
    flag (codes "refresh_geodata") (env (codes "REFRESH_GEODATA") (codes "REFRESH_GEODATA")) none

abbrev pub given_or : Option Bytes → Option Bytes → Option Bytes
given_or none other = other
given_or (some text) other = some text

-- The first variable that is set.
abbrev pub first_set : (Bytes → Option Bytes) → List Bytes → Option Bytes → Option Bytes
first_set getenv [] default_value = default_value
first_set getenv (v ∷ vs) default_value = given_or (getenv v) (first_set getenv vs default_value)

-- The value of a flag: `given` is what the command line says.
unfoldable pub flag_value : (Bytes → Option Bytes) → Option Bytes → Flag → Option Bytes
flag_value getenv given f = given_or given (first_set getenv f.env_vars f.default_value)

pub data Level : Type 0 where
  debug_level info_level error_level : Level

-- `Before`: the level of the log.
unfoldable pub log_level : Bytes → Result Level
log_level mode =
    if equal mode (codes "debug")
    then ok debug_level
    else if equal mode (codes "info")
    then ok info_level
    else if equal mode (codes "error")
    then ok error_level
    else err (message (codes "unsupported log level"))

-- The names of the geo files and how they are loaded, by acl-engine.
pub record GeoLoader : Type 0 where
  pub geo_ip_filename : Bytes
  pub geo_site_filename : Bytes
  pub load_geo_ip : Disk → Disk × Option Error
  pub load_geo_site : Disk → Disk × Option Error

abbrev pub site_loaded : Disk × Option Error → Disk × Option Error
site_loaded (d, none) = (d, none)
site_loaded (d, some e) = (d, some (wrapped (codes "failed to refresh geosite: ") e))

abbrev pub ip_loaded : GeoLoader → Disk × Option Error → Disk × Option Error
ip_loaded G (d, some e) = (d, some (wrapped (codes "failed to refresh geoip: ") e))
ip_loaded G (d, none) = site_loaded (G.load_geo_site d)

abbrev pub refreshed : GeoLoader → Disk → Bytes → Option Error → Disk × Option Error
refreshed G d dir (some e) = (d, some (wrapped (codes "failed to create data directory: ") e))
refreshed G d dir none =
    let without_ip = (remove d (join_path dir G.geo_ip_filename)).0 in
    let without_both = (remove without_ip (join_path dir G.geo_site_filename)).0 in
    ip_loaded G (G.load_geo_ip without_both)

-- `forceRefreshGeoData`: the old files go, then both are loaded anew.
unfoldable pub force_refresh_geo_data : GeoLoader → Disk → Bytes → Disk × Option Error
force_refresh_geo_data G d data_dir =
    refreshed G d (or_default data_dir) (d.mkdir_all (or_default data_dir))

-- `Start`, up to its end: `serves` is what happens to the server while it accepts connections. The
-- deferred `shutdown` closes the server on every way out, also on a panic.
abbrev pub shut_down : Outside → World → World
shut_down O w = (close O w).0

abbrev pub run_started : Outside → (World → World) → Outcome → World × Option Error
run_started O serves (going w) = (shut_down O (serves w), none)
run_started O serves (failed w e) = (shut_down O w, some e)

abbrev pub run_refreshed :
    Outside → (World → World) → World → Disk × Option Error → World × Option Error
run_refreshed O serves w (d, some e) =
    (record w { disk = d }, some (wrapped (codes "failed to refresh geodata: ") e))
run_refreshed O serves w (d, none) = run_started O serves (start O (record w { disk = d }))

-- `Action`, for a server that `New` has made.
unfoldable pub action : Outside → GeoLoader → (World → World) → Bool → World → World × Option Error
action O G serves refresh_geo_data w =
    if refresh_geo_data
    then run_refreshed O serves w (force_refresh_geo_data G w.disk w.server.data_dir)
    else run_started O serves (start O w)
