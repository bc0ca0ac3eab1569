-- ===== src/Wire/Header.antt =====
-- The fields of a header read back.
use server_anytls.Prelude.{ℕ, ◌<◌, ◌^◌, ◌≡◌, refl, length, arith}
use server_anytls.Wire.{header, header_cmd, header_stream_id, header_length, header_over_head_size}

pub length-header : (cmd sid len : ℕ) → length (header cmd sid len) ≡ header_over_head_size
unfolding header
length-header cmd sid len = refl

pub header_cmd-header : (cmd sid len : ℕ) → header_cmd (header cmd sid len) ≡ cmd
unfolding header header_cmd
header_cmd-header cmd sid len = refl

pub header_stream_id-header :
    (cmd sid len : ℕ) → sid < 2 ^ 32 → header_stream_id (header cmd sid len) ≡ sid
unfolding header header_stream_id
header_stream_id-header cmd sid len h = omega arith

pub header_length-header :
    (cmd sid len : ℕ) → len < 2 ^ 16 → header_length (header cmd sid len) ≡ len
unfolding header header_length
header_length-header cmd sid len h = omega arith
