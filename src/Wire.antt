-- ===== src/Wire.antt =====
-- internal/pkg/proxy/session/frame.go: commands, headers, frames, with the big-endian fields of
-- `encoding/binary` that they use.
pub mod Header
use server_anytls.Prelude.{
  ℕ, zero, suc, ◌+◌, ◌*◌, ◌/◌, ◌%◌, ◌^◌, ◌<◌, ◌≤◌, ◌≡◌, refl, List, [], ◌∷◌, ◌++◌, Bool, true,
  false, ◌||◌, Bytes, length, ◌==◌, arith,
}

abbrev pub cmd_waste : ℕ
cmd_waste = 0

abbrev pub cmd_syn : ℕ
cmd_syn = 1

abbrev pub cmd_psh : ℕ
cmd_psh = 2

abbrev pub cmd_fin : ℕ
cmd_fin = 3

abbrev pub cmd_settings : ℕ
cmd_settings = 4

abbrev pub cmd_alert : ℕ
cmd_alert = 5

abbrev pub cmd_update_padding_scheme : ℕ
cmd_update_padding_scheme = 6

abbrev pub cmd_syn_ack : ℕ
cmd_syn_ack = 7

abbrev pub cmd_heart_request : ℕ
cmd_heart_request = 8

abbrev pub cmd_heart_response : ℕ
cmd_heart_response = 9

abbrev pub cmd_server_settings : ℕ
cmd_server_settings = 10

abbrev pub header_over_head_size : ℕ
header_over_head_size = 1 + 4 + 2

-- `binary.BigEndian.PutUint16`, of a value that the conversion to `uint16` has cut to 16 bits.
abbrev pub put_uint16 : ℕ → Bytes
put_uint16 v = (v / 256 % 256) ∷ (v % 256) ∷ []

abbrev pub put_uint32 : ℕ → Bytes
put_uint32 v = (v / 2 ^ 24 % 256) ∷ (v / 2 ^ 16 % 256) ∷ (v / 256 % 256) ∷ (v % 256) ∷ []

pub record Frame : Type 0 where
  pub cmd : ℕ
  pub sid : ℕ
  pub payload : Bytes  -- `data`

abbrev pub new_frame : ℕ → ℕ → Frame
new_frame cmd sid = record { cmd = cmd; sid = sid; payload = [] }

-- A byte of an array; every index that the program uses is in range.
abbrev pub byte_at : Bytes → ℕ → ℕ
byte_at [] i = 0
byte_at (b ∷ bs) zero = b
byte_at (b ∷ bs) (suc i) = byte_at bs i

-- `rawHeader`, seven bytes.
abbrev pub RawHeader : Type 0
RawHeader = Bytes

unfoldable pub header_cmd : RawHeader → ℕ
header_cmd h = byte_at h 0

unfoldable pub header_stream_id : RawHeader → ℕ
header_stream_id h = byte_at h 1 * 2 ^ 24 + byte_at h 2 * 2 ^ 16 + byte_at h 3 * 256 + byte_at h 4

unfoldable pub header_length : RawHeader → ℕ
header_length h = byte_at h 5 * 256 + byte_at h 6

-- The seven bytes that stand before a payload.
unfoldable pub header : ℕ → ℕ → ℕ → Bytes
header cmd sid len = cmd ∷ (put_uint32 sid ++ put_uint16 len)

-- A frame as `writeControlFrame` lays it out in its buffer.
unfoldable pub frame_bytes : Frame → Bytes
unfolding header
frame_bytes f = header f.cmd f.sid (length f.payload) ++ f.payload
