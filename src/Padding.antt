-- ===== src/Padding.antt =====
-- internal/pkg/proxy/padding/padding.go: padding schemes and the record sizes drawn from them.
pub mod Bounds
use server_anytls.Prelude.{
  ℕ, ◌+◌, ◌-◌, ◌%◌, ◌≤◌, min, max, Bool, true, false, ◌||◌, List, [], ◌∷◌, ◌++◌, Option, none, some,
  Bytes, nat_eq, bytes_eq, equal, ◌==◌, if◌then◌else◌,
}
use server_anytls.Prelude.Maps.{Map, lookup, insert}
use server_anytls.Env.{Env}
use server_anytls.Number.{ℤ, pos, negsuc, pos_part, leb_ℤ, min_ℤ, max_ℤ, to_uint32, parse_int}
use server_anytls.StringMap.{StringMap, split, string_map_from_bytes}

abbrev pub max_padding_size : ℕ
max_padding_size = 65535

-- The bounds of a range are positive, so they are numbers here; a check mark has both at 0.
pub record PaddingRange : Type 0 where
  pub is_check : Bool
  pub min : ℕ
  pub max : ℕ

pub record PaddingFactory : Type 0 where
  pub parsed_ranges : Map ℕ (List PaddingRange)
  pub raw_scheme : Bytes
  pub stop : ℕ  -- uint32
  pub md5 : Bytes

-- The key `stop` of a scheme; the text for a missing key is empty.
abbrev pub text_or_empty : Bytes → StringMap → Bytes
text_or_empty k m = elim (lookup k m) [ none ↦ [] | some v ↦ v ]

abbrev pub key_stop : Bytes
key_stop = b's' ∷ b't' ∷ b'o' ∷ b'p' ∷ []

abbrev pub check_text : Bytes
check_text = b'c' ∷ []

-- The two numbers of `lo-hi`, put in order, refused if one is not positive, and cut to the largest
-- padding.
unfoldable pub bounded_range : ℤ → ℤ → Option PaddingRange
bounded_range a b =
    let lo = min_ℤ a b in
    let hi = max_ℤ a b in
    if leb_ℤ lo (pos 0) || leb_ℤ hi (pos 0)
    then none
    else some (record {
      is_check = false;
      min = min (pos_part lo) max_padding_size;
      max = min (pos_part hi) max_padding_size;
    })

abbrev pub range_of : Option ℤ → Option ℤ → Option PaddingRange
range_of (some a) (some b) = bounded_range a b
range_of _ _ = none

unfoldable pub parse_bounds : List Bytes → Option PaddingRange
parse_bounds [] = none
parse_bounds (a ∷ []) = none
parse_bounds (a ∷ b ∷ []) = range_of (parse_int a) (parse_int b)
parse_bounds (a ∷ b ∷ c ∷ rest) = none

-- One item of a packet's list; `none` is a `continue` that appends nothing.
unfoldable pub parse_range : Bytes → Option PaddingRange
parse_range s =
    if equal s check_text
    then some (record { is_check = true; min = 0; max = 0 })
    else parse_bounds (split b'-' s)

abbrev pub prepend : Option PaddingRange → List PaddingRange → List PaddingRange
prepend none rs = rs
prepend (some r) rs = r ∷ rs

unfoldable pub parse_ranges : List Bytes → List PaddingRange
parse_ranges [] = []
parse_ranges (s ∷ ss) = prepend (parse_range s) (parse_ranges ss)

-- One round of the loop over the entries; a key that is no number is skipped.
abbrev pub add_packet :
    Map ℕ (List PaddingRange) → Option ℤ → List PaddingRange → Map ℕ (List PaddingRange)
add_packet m none rs = m
add_packet m (some pkt) rs = insert (to_uint32 pkt) rs m

unfoldable pub add_packets : Map ℕ (List PaddingRange) → StringMap → Map ℕ (List PaddingRange)
add_packets m [] = m
add_packets m ((key, val) ∷ rest) =
    add_packets (add_packet m (parse_int key) (parse_ranges (split b',' val))) rest

abbrev pub factory_at : Env → Bytes → StringMap → Option ℤ → Option PaddingFactory
factory_at env raw scheme none = none
factory_at env raw scheme (some stop) = some (record {
  parsed_ranges = add_packets [] (env.range_over scheme);
  raw_scheme = raw;
  stop = to_uint32 stop;
  md5 = env.md5_hex raw;
})

unfoldable pub factory_of : Env → Bytes → StringMap → Option PaddingFactory
factory_of env raw [] = none
factory_of env raw (e ∷ scheme) =
    factory_at env raw (e ∷ scheme) (parse_int (text_or_empty key_stop (e ∷ scheme)))

-- `NewPaddingFactory`; `none` is the nil pointer.
unfoldable pub new_padding_factory : Env → Bytes → Option PaddingFactory
new_padding_factory env raw = factory_of env raw (string_map_from_bytes raw)

abbrev pub store : Option PaddingFactory → Option PaddingFactory → Option PaddingFactory × Bool
store current none = (current, false)
store current (some p) = (some p, true)

-- `UpdatePaddingScheme` on the shared pointer `DefaultPaddingFactory`.
unfoldable pub update_padding_scheme :
    Env → Option PaddingFactory → Bytes → Option PaddingFactory × Bool
update_padding_scheme env current raw = store current (new_padding_factory env raw)

-- A record size; `CheckMark` is -1 in the program.
pub data Size : Type 0 where
  check_mark : Size
  size : ℕ → Size

-- `rand.Int64N(n)` for a positive `n`, from an arbitrary draw.
abbrev pub int64n : ℕ → ℕ → ℕ
int64n raw n = raw % n

unfoldable pub range_size : ℕ → PaddingRange → Size
range_size raw r =
    if r.is_check
    then check_mark
    else if r.min == r.max
    then size r.min
    else size (int64n raw (r.max - r.min) + r.min)

unfoldable pub append_sizes : (ℕ → ℕ) → ℕ → List PaddingRange → List Size → List Size
append_sizes draw i [] buf = buf
append_sizes draw i (r ∷ rs) buf =
    append_sizes draw (i + 1) rs (buf ++ (range_size (draw i) r ∷ []))

abbrev pub append_found : (ℕ → ℕ) → Option (List PaddingRange) → List Size → List Size
append_found draw none buf = buf
append_found draw (some ranges) buf = append_sizes draw 0 ranges buf

-- `AppendRecordPayloadSizes`
unfoldable pub append_record_payload_sizes : Env → PaddingFactory → ℕ → List Size → List Size
append_record_payload_sizes env p pkt buf =
    append_found (env.draw pkt) (lookup pkt p.parsed_ranges) buf

-- `GenerateRecordPayloadSizes`
unfoldable pub generate_record_payload_sizes : Env → PaddingFactory → ℕ → List Size
generate_record_payload_sizes env p pkt = append_record_payload_sizes env p pkt []
