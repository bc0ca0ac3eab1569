-- ===== src/StringMap.antt =====
-- internal/pkg/util/string_map.go, with what it uses of Go's `strings`. Texts are byte strings.
pub mod RoundTrip
use server_anytls.Prelude.{
  ℕ, List, [], ◌∷◌, ◌++◌, map, Option, none, some, Bytes, ◌==◌, if◌then◌else◌, bytes_eq,
}
use server_anytls.Prelude.Maps.{Map, insert}
use server_anytls.Env.{Env}

abbrev pub StringMap : Type 0
StringMap = Map Bytes Bytes

abbrev cons_first : ℕ → List Bytes → List Bytes
cons_first c [] = (c ∷ []) ∷ []
cons_first c (w ∷ ws) = (c ∷ w) ∷ ws

-- `strings.Split(s, sep)` for a separator of one byte.
unfoldable pub split : ℕ → Bytes → List Bytes
split sep [] = [] ∷ []
split sep (c ∷ cs) = let rest = split sep cs in if c == sep then [] ∷ rest else cons_first c rest

-- `strings.SplitN(s, sep, 2)`: the two parts, or `none` for a result of length one.
unfoldable pub split_two : ℕ → Bytes → Option (Bytes × Bytes)
split_two sep [] = none
split_two sep (c ∷ cs) =
    let rest = split_two sep cs in
    if c == sep then some ([], cs) else elim rest [ none ↦ none | some (k, v) ↦ some (c ∷ k, v) ]

-- `strings.Join(lines, sep)`
unfoldable pub join : ℕ → List Bytes → Bytes
join sep [] = []
join sep (w ∷ []) = w
join sep (w ∷ v ∷ ws) = w ++ (sep ∷ join sep (v ∷ ws))

abbrev pub line : Bytes × Bytes → Bytes
line (k, v) = k ++ (b'=' ∷ v)

unfoldable pub to_bytes : Env → StringMap → Bytes
unfolding join
to_bytes env s = join b'\n' (map line (env.range_over s))

unfoldable pub add_line : StringMap → Bytes → StringMap
unfolding split_two insert
add_line m l = elim (split_two b'=' l) [ none ↦ m | some (k, v) ↦ insert k v m ]

unfoldable pub add_lines : StringMap → List Bytes → StringMap
unfolding add_line
add_lines m [] = m
add_lines m (l ∷ ls) = add_lines (add_line m l) ls

unfoldable pub string_map_from_bytes : Bytes → StringMap
unfolding split add_lines
string_map_from_bytes b = add_lines [] (split b'\n' b)
