-- ===== src/Padding/Bounds.antt =====
-- The sizes that a scheme can yield.
use server_anytls.Prelude.{
  ℕ, ◌+◌, ◌≤◌, ◌≡◌, false, List, [], ◌∷◌, Option, none, some, Bytes, arith, All, All-append, nat_eq,
  bytes_eq, Bool-cases, inl, inr, equal, ◌==◌, sym, subst,
}
use mathlib.Core.Bool.{false≢true}
use mathlib.Core.Option.{some-injective}
use server_anytls.Prelude.Maps.{Map, lookup, insert}
use server_anytls.Env.{Env}
use server_anytls.Number.{ℤ, parse_int, to_uint32}
use server_anytls.StringMap.{StringMap, split, string_map_from_bytes}
use server_anytls.Padding.{
  prepend, range_of, add_packet, factory_at, append_found, check_text,
  generate_record_payload_sizes, PaddingRange, PaddingFactory, Size, check_mark, size,
  max_padding_size, bounded_range, parse_bounds, parse_range, parse_ranges, add_packets, factory_of,
  new_padding_factory, range_size, append_sizes, append_record_payload_sizes,
}

-- What the writer needs of a size: at least one byte, and a length that fits 16 bits.
abbrev pub IsSafeSize : Size → Type 0
IsSafeSize check_mark = Unit {0}
IsSafeSize (size n) = (1 ≤ n) × (n ≤ max_padding_size)

abbrev pub IsSafeRange : PaddingRange → Type 0
IsSafeRange r = r.is_check ≡ false → (1 ≤ r.min) × (r.min ≤ r.max) × (r.max ≤ max_padding_size)

abbrev IsSafeOption : Option PaddingRange → Type 0
IsSafeOption none = Unit {0}
IsSafeOption (some r) = IsSafeRange r

-- Every packet's ranges.
abbrev pub IsSafeTable : Map ℕ (List PaddingRange) → Type 0
IsSafeTable = All (λ (p : ℕ × List PaddingRange). All IsSafeRange p.1)

abbrev pub IsSafe : PaddingFactory → Type 0
IsSafe p = IsSafeTable p.parsed_ranges

bounded_range-IsSafe : (a b : ℤ) → IsSafeOption (bounded_range a b)
unfolding bounded_range
bounded_range-IsSafe a b = ground arith

range_of-IsSafe : (a b : Option ℤ) → IsSafeOption (range_of a b)
range_of-IsSafe none b = tt
range_of-IsSafe (some a) none = tt
range_of-IsSafe (some a) (some b) = bounded_range-IsSafe a b

parse_bounds-IsSafe : (parts : List Bytes) → IsSafeOption (parse_bounds parts)
unfolding parse_bounds
parse_bounds-IsSafe [] = tt
parse_bounds-IsSafe (a ∷ []) = tt
parse_bounds-IsSafe (a ∷ b ∷ []) = range_of-IsSafe (parse_int a) (parse_int b)
parse_bounds-IsSafe (a ∷ b ∷ c ∷ rest) = tt

parse_range-IsSafe : (s : Bytes) → IsSafeOption (parse_range s)
unfolding parse_range
parse_range-IsSafe s = elim (Bool-cases (equal s check_text)) [
  | inl e ↦ rw e (λ h. absurd (false≢true (sym h)))
  | inr e ↦ rw e (parse_bounds-IsSafe (split b'-' s))
]

prepend-IsSafe :
    (o : Option PaddingRange) (rs : List PaddingRange)
    → IsSafeOption o
    → All IsSafeRange rs
    → All IsSafeRange (prepend o rs)
prepend-IsSafe none rs h t = t
prepend-IsSafe (some r) rs h t = (h, t)

parse_ranges-IsSafe : (ss : List Bytes) → All IsSafeRange (parse_ranges ss)
unfolding parse_ranges
parse_ranges-IsSafe [] = tt
parse_ranges-IsSafe (s ∷ ss) =
    prepend-IsSafe (parse_range s) (parse_ranges ss) (parse_range-IsSafe s) (parse_ranges-IsSafe ss)

insert-IsSafeTable :
    (k : ℕ) (rs : List PaddingRange) (m : Map ℕ (List PaddingRange))
    → All IsSafeRange rs
    → IsSafeTable m
    → IsSafeTable (insert k rs m)
unfolding insert
insert-IsSafeTable k rs [] h t = (h, tt)
insert-IsSafeTable k rs ((j, qs) ∷ m) h t = elim (Bool-cases (j == k)) [
  | inl e ↦ rw e (h, t.1)
  | inr e ↦ rw e (t.0, insert-IsSafeTable k rs m h t.1)
]

abbrev IsSafeFound : Option (List PaddingRange) → Type 0
IsSafeFound none = Unit {0}
IsSafeFound (some rs) = All IsSafeRange rs

lookup-IsSafeTable :
    (k : ℕ) (m : Map ℕ (List PaddingRange)) → IsSafeTable m → IsSafeFound (lookup k m)
unfolding lookup
lookup-IsSafeTable k [] t = tt
lookup-IsSafeTable k ((j, qs) ∷ m) t = elim (Bool-cases (j == k)) [
  | inl e ↦ rw e t.0
  | inr e ↦ rw e (lookup-IsSafeTable k m t.1)
]

add_packet-IsSafeTable :
    (m : Map ℕ (List PaddingRange)) (key : Option ℤ) (rs : List PaddingRange)
    → All IsSafeRange rs
    → IsSafeTable m
    → IsSafeTable (add_packet m key rs)
add_packet-IsSafeTable m none rs h t = t
add_packet-IsSafeTable m (some pkt) rs h t = insert-IsSafeTable (to_uint32 pkt) rs m h t

add_packets-IsSafeTable :
    (m : Map ℕ (List PaddingRange)) (s : StringMap) → IsSafeTable m → IsSafeTable (add_packets m s)
unfolding add_packets
add_packets-IsSafeTable m [] t = t
add_packets-IsSafeTable m ((key, val) ∷ s) t =
    add_packets-IsSafeTable (add_packet m (parse_int key) (parse_ranges (split b',' val))) s
      (add_packet-IsSafeTable m (parse_int key) _ (parse_ranges-IsSafe (split b',' val)) t)

factory_at-IsSafe :
    (env : Env) (raw : Bytes) (s : StringMap) (stop : Option ℤ) (p : PaddingFactory)
    → factory_at env raw s stop ≡ some p
    → IsSafe p
factory_at-IsSafe env raw s none p e = cc
factory_at-IsSafe env raw s (some n) p e =
    subst IsSafe (some-injective _ _ e) (add_packets-IsSafeTable [] (env.range_over s) tt)

-- Whatever bytes a scheme holds, the factory made from it has only safe ranges: positive, in
-- order, and within `maxPaddingSize`.
pub new_padding_factory-IsSafe :
    (env : Env) (raw : Bytes) (p : PaddingFactory) → new_padding_factory env raw ≡ some p → IsSafe p
unfolding new_padding_factory factory_of
new_padding_factory-IsSafe env raw p e = made (string_map_from_bytes raw) e
  where
    made : (s : StringMap) → factory_of env raw s ≡ some p → IsSafe p
    made [] h = cc
    made (x ∷ s) h = factory_at-IsSafe env raw (x ∷ s) _ p h

range_size-IsSafe : (raw : ℕ) (r : PaddingRange) → IsSafeRange r → IsSafeSize (range_size raw r)
unfolding range_size
range_size-IsSafe raw r h = elim (Bool-cases r.is_check) [
  | inl e ↦ rw e tt
  | inr e ↦ let b = h e in rw e (ground (arith, b))
]

append_sizes-IsSafe :
    (draw : ℕ → ℕ) (i : ℕ) (rs : List PaddingRange) (buf : List Size)
    → All IsSafeRange rs
    → All IsSafeSize buf
    → All IsSafeSize (append_sizes draw i rs buf)
unfolding append_sizes
append_sizes-IsSafe draw i [] buf h b = b
append_sizes-IsSafe draw i (r ∷ rs) buf h b =
    append_sizes-IsSafe draw (i + 1) rs _ h.1
      (All-append IsSafeSize buf _ b (range_size-IsSafe (draw i) r h.0, tt))

append_found-IsSafe :
    (draw : ℕ → ℕ) (o : Option (List PaddingRange)) (buf : List Size)
    → IsSafeFound o
    → All IsSafeSize buf
    → All IsSafeSize (append_found draw o buf)
append_found-IsSafe draw none buf h b = b
append_found-IsSafe draw (some rs) buf h b = append_sizes-IsSafe draw 0 rs buf h b

-- Every size that a factory with safe ranges yields is a check mark or lies between 1 and
-- `maxPaddingSize`, for every packet and every draw of the generator.
pub generate_record_payload_sizes-IsSafe :
    (env : Env) (p : PaddingFactory) (pkt : ℕ)
    → IsSafe p
    → All IsSafeSize (generate_record_payload_sizes env p pkt)
unfolding generate_record_payload_sizes append_record_payload_sizes
generate_record_payload_sizes-IsSafe env p pkt h =
    append_found-IsSafe (env.draw pkt) (lookup pkt p.parsed_ranges) []
      (lookup-IsSafeTable pkt p.parsed_ranges h) tt

abbrev pub IsSafePointer : Option PaddingFactory → Type 0
IsSafePointer none = Unit {0}
IsSafePointer (some p) = IsSafe p

pub append_record_payload_sizes-IsSafe :
    (env : Env) (p : PaddingFactory) (pkt : ℕ)
    → IsSafe p
    → All IsSafeSize (append_record_payload_sizes env p pkt [])
append_record_payload_sizes-IsSafe env p pkt h =
    unfold generate_record_payload_sizes in generate_record_payload_sizes-IsSafe env p pkt h
