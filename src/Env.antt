-- ===== src/Env.antt =====
-- What the program takes from outside itself: a hash, random numbers, the order in which Go walks
-- a map, and one environment variable. Every theorem holds for every choice of them.
use server_anytls.Prelude.{ℕ, Bool, Bytes}
use server_anytls.Prelude.Maps.{Map}

pub record Env : Type 0 where
  -- `fmt.Sprintf("%x", md5.Sum(b))`
  pub md5_hex : Bytes → Bytes
  -- `range` over a `map[string]string`: its entries in the order of this run
  pub range_over : Map Bytes Bytes → Map Bytes Bytes
  -- what the generator draws for a packet, by the packet's number and the position in its ranges
  pub draw : ℕ → ℕ → ℕ
  -- `CLIENT_DEBUG_PADDING_SCHEME`
  pub client_debug_padding_scheme : Bool
