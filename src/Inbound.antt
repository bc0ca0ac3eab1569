-- ===== src/Inbound.antt =====
-- internal/app/server/inbound_tcp.go: the handshake of an accepted connection and what it counts.
-- The buffer of the `sing` library is the parameter `read_bytes`: `ReadBytes` returns the bytes it
-- takes and the buffer behind them, or an error. TLS is below this.
pub mod Admission
pub mod Accounts
pub mod Handler
pub mod Lifetime
use server_anytls.Prelude.{
  ℕ, ◌+◌, ◌%◌, ◌/◌, ◌^◌, ◌*◌, ◌-◌, Bool, true, false, List, [], ◌∷◌, ◌++◌, Option, none, some,
  Bytes, ltb, if◌then◌else◌,
}
use server_anytls.Number.{ℤ}
use server_anytls.Wire.{byte_at}
use server_anytls.Service.Traffic.{TrafficManager, load_or_store, add_traffic}
use server_anytls.Service.Users.{UsersService, auth_and_get_user_id, register_connection}

abbrev pub password_len : ℕ
password_len = 32

abbrev pub padding_len_field_sz : ℕ
padding_len_field_sz = 2

abbrev hex_digit : ℕ → ℕ
hex_digit n = if ltb n 10 then b'0' + n else b'a' + n - 10

-- `hex.EncodeToString`
unfoldable pub encode_to_string : Bytes → Bytes
encode_to_string [] = []
encode_to_string (b ∷ bs) = hex_digit (b / 16) ∷ hex_digit (b % 16) ∷ encode_to_string bs

-- Where the handshake ends; on the first four the connection is closed.
pub data Handshake : Type 0 where
  no_password rejected no_padding_len no_padding : Handshake
  accepted : (uid : ℤ) (counted : ℕ) (rest : Bytes) → Handshake

-- `binary.BigEndian.Uint16`
abbrev pub uint16_of : Bytes → ℕ
uint16_of b = byte_at b 0 * 256 + byte_at b 1

-- The sum of the source is one of `uint16`.
abbrev pub header_bytes : ℕ → ℕ
header_bytes padding_len = (password_len + padding_len_field_sz + padding_len) % 2 ^ 16

module _ (read_bytes : ℕ → Bytes → Option (Bytes × Bytes)) where
  abbrev pub after_padding : ℤ → ℕ → Option (Bytes × Bytes) → Handshake
  after_padding uid padding_len none = no_padding
  after_padding uid padding_len (some (padding, rest)) =
      accepted uid (header_bytes padding_len) rest

  abbrev pub read_padding : ℤ → ℕ → Bytes → Handshake
  read_padding uid padding_len b =
      if ltb 0 padding_len
      then after_padding uid padding_len (read_bytes padding_len b)
      else accepted uid (header_bytes padding_len) b

  abbrev pub after_padding_len : ℤ → Option (Bytes × Bytes) → Handshake
  after_padding_len uid none = no_padding_len
  after_padding_len uid (some (field, rest)) = read_padding uid (uint16_of field) rest

  abbrev pub after_auth : Bytes → Option ℤ → Handshake
  after_auth b none = rejected
  after_auth b (some uid) = after_padding_len uid (read_bytes padding_len_field_sz b)

  abbrev pub after_password : (Bytes → Option ℤ) → Option (Bytes × Bytes) → Handshake
  after_password auth none = no_password
  after_password auth (some (password, rest)) = after_auth rest (auth (encode_to_string password))

  -- `handleTcpConnection` up to the authenticated session, on what the first read gave.
  unfoldable pub handshake : (Bytes → Option ℤ) → Bytes → Handshake
  handshake auth b = after_password auth (read_bytes password_len b)

-- What connections share.
pub record Server : Type 0 where
  pub users : UsersService
  pub traffic : TrafficManager

-- The rest of `handleTcpConnection`: the header is counted and the session `conn` registered.
abbrev pub admit : Server → ℕ → Handshake → Server
admit s conn (accepted uid counted rest) = record {
  users = register_connection s.users uid conn;
  traffic =
      add_traffic ((load_or_store uid s.traffic).0)
        (record { uid = uid; upload = counted; download = 0; count = 0 });
}
admit s conn _ = s

unfoldable pub handle_tcp_connection :
    (ℕ → Bytes → Option (Bytes × Bytes)) → Server → ℕ → Bytes → Server
handle_tcp_connection read_bytes s conn b =
    admit s conn (handshake read_bytes (auth_and_get_user_id s.users.user_manager) b)

-- `CountedConn.Read` of `n` bytes, `CountedConn.Write` of `n` bytes, and a new stream.
unfoldable pub count_read : ℤ → ℕ → TrafficManager → TrafficManager
count_read uid n tm =
    if ltb 0 n
    then add_traffic tm (record { uid = uid; upload = n; download = 0; count = 0 })
    else tm

unfoldable pub count_written : ℤ → ℕ → TrafficManager → TrafficManager
count_written uid n tm =
    if ltb 0 n
    then add_traffic tm (record { uid = uid; upload = 0; download = n; count = 0 })
    else tm

unfoldable pub count_stream : ℤ → TrafficManager → TrafficManager
count_stream uid tm = add_traffic tm (record { uid = uid; upload = 0; download = 0; count = 1 })
