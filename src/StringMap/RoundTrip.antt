-- ===== src/StringMap/RoundTrip.antt =====
-- Printing a string map and reading it back.
use server_anytls.Prelude.{
  ℕ, List, [], ◌∷◌, ◌++◌, map, some, Bytes, ◌==◌, ◌≡◌, refl, ap, ◌∙◌, Bool, false, ◌||◌, arith, All,
  append_assoc, append-nil, bytes_eq,
}
use server_anytls.Prelude.Maps.{lookup, insert, HasUniqueKeys, insert_new, IsApart, insert-IsApart}
use server_anytls.Env.{Env}
use server_anytls.StringMap.{
  StringMap, split, split_two, join, line, to_bytes, add_line, add_lines, string_map_from_bytes,
}

unfoldable pub contains_byte : ℕ → Bytes → Bool
contains_byte b [] = false
contains_byte b (c ∷ cs) = c == b || contains_byte b cs

split_free : (sep : ℕ) (w : Bytes) → contains_byte sep w ≡ false → split sep w ≡ w ∷ []
unfolding split contains_byte
split_free sep [] h = refl
split_free sep (c ∷ w) h = ground (arith, split_free sep w)

split-append :
    (sep : ℕ) (w rest : Bytes)
    → contains_byte sep w ≡ false
    → split sep (w ++ (sep ∷ rest)) ≡ w ∷ split sep rest
unfolding split contains_byte
split-append sep [] rest h = ground arith
split-append sep (c ∷ w) rest h = ground (arith, split-append sep w rest)

-- Splitting undoes joining, if no part holds the separator.
pub split-join :
    (sep : ℕ) (w : Bytes) (ws : List Bytes)
    → All (λ v. contains_byte sep v ≡ false) (w ∷ ws)
    → split sep (join sep (w ∷ ws)) ≡ w ∷ ws
unfolding join
split-join sep w [] h = split_free sep w h.0
split-join sep w (v ∷ ws) h =
    split-append sep w (join sep (v ∷ ws)) h.0 ∙ ap (◌∷◌ w) (split-join sep v ws h.1)

split_two-append :
    (sep : ℕ) (k v : Bytes)
    → contains_byte sep k ≡ false
    → split_two sep (k ++ (sep ∷ v)) ≡ some (k, v)
unfolding split_two contains_byte
split_two-append sep [] v h = ground arith
split_two-append sep (c ∷ k) v h = ground (arith, split_two-append sep k v)

-- Keys hold neither `=` nor a line break, and values hold no line break.
abbrev pub IsPrintable : StringMap → Type 0
IsPrintable m =
    All
      (λ (p : Bytes × Bytes).
        (contains_byte b'=' p.0 ≡ false)
        × (contains_byte b'\n' p.0 ≡ false)
        × (contains_byte b'\n' p.1 ≡ false))
      m

add_line-line :
    (m : StringMap) (k v : Bytes)
    → contains_byte b'=' k ≡ false
    → add_line m (line (k, v)) ≡ insert k v m
unfolding add_line
add_line-line m k v h = rw (split_two-append b'=' k v h, add_line)

add_lines-append :
    (acc m : StringMap)
    → IsPrintable m
    → HasUniqueKeys m
    → IsApart m acc
    → add_lines acc (map line m) ≡ acc ++ m
unfolding add_lines
add_lines-append acc [] p u a = rw append-nil
add_lines-append acc ((k, v) ∷ m) p u a =
    ap (λ n. add_lines n (map line m)) (add_line-line acc k v p.0.0)
    ∙ add_lines-append (insert k v acc) m p.1 u.1 (insert-IsApart k v m acc u.0 a.1)
    ∙ rw (insert_new k v acc a.0) (append_assoc acc ((k, v) ∷ []) m)

contains_byte-append :
    (b : ℕ) (xs ys : Bytes)
    → contains_byte b (xs ++ ys) ≡ (contains_byte b xs || contains_byte b ys)
unfolding contains_byte
contains_byte-append b [] ys = refl
contains_byte-append b (c ∷ xs) ys = ground (arith, contains_byte-append b xs ys)

line_free :
    (k v : Bytes)
    → contains_byte b'\n' k ≡ false
    → contains_byte b'\n' v ≡ false
    → contains_byte b'\n' (line (k, v)) ≡ false
line_free k v hk hv = rw (contains_byte-append b'\n' k (b'=' ∷ v), hk) (unfold contains_byte in hv)

lines_free : (m : StringMap) → IsPrintable m → All (λ l. contains_byte b'\n' l ≡ false) (map line m)
lines_free [] p = tt
lines_free ((k, v) ∷ m) p = (line_free k v p.0.1 p.0.2, lines_free m p.1)

IsApart-nil : (m : StringMap) → IsApart m []
unfolding lookup
IsApart-nil [] = tt
IsApart-nil (p ∷ m) = (refl, IsApart-nil m)

string_map_from_bytes-join :
    (m : StringMap)
    → IsPrintable m
    → HasUniqueKeys m
    → string_map_from_bytes (join b'\n' (map line m)) ≡ m
unfolding string_map_from_bytes
string_map_from_bytes-join [] p u = unfold join split split_two add_lines in refl
string_map_from_bytes-join (e ∷ m) p u =
    rw (split-join b'\n' (line e) (map line m) (lines_free (e ∷ m) p))
      (add_lines-append [] (e ∷ m) p u (IsApart-nil (e ∷ m)))

-- What `ToBytes` prints, in whatever order Go walks the map, `StringMapFromBytes` reads back as
-- the same entries, if no key holds `=` or a line break and no value a line break.
pub string_map_from_bytes-to_bytes :
    (env : Env) (m : StringMap)
    → IsPrintable (env.range_over m)
    → HasUniqueKeys (env.range_over m)
    → string_map_from_bytes (to_bytes env m) ≡ env.range_over m
unfolding to_bytes
string_map_from_bytes-to_bytes env m p u = string_map_from_bytes-join (env.range_over m) p u
