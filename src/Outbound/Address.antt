-- ===== src/Outbound/Address.antt =====
-- internal/app/server/outbound_adapter.go: addresses, and the adapter around the router.
-- `net.SplitHostPort` and `strconv.ParseUint(s, 10, 16)` are written out.
pub mod Join
use server_anytls.Prelude.{
  ℕ, Bool, true, false, List, [], ◌∷◌, ◌++◌, Option, none, some, Bytes, codes, ltb, ◌^◌, ◌==◌,
  Error, message, Result, ok, err, ◌>>=◌, if◌then◌else◌,
}
use server_anytls.Path.{contains}
use server_anytls.Number.{parse_magnitude}

abbrev host_cons : ℕ → Option (Bytes × Bytes) → Option (Bytes × Bytes)
host_cons c none = none
host_cons c (some (host, port)) = some (c ∷ host, port)

-- The parts before and behind the last colon.
unfoldable pub split_last_colon : Bytes → Option (Bytes × Bytes)
split_last_colon [] = none
split_last_colon (c ∷ cs) =
    if contains b':' cs
    then host_cons c (split_last_colon cs)
    else if c == b':'
    then some ([], cs)
    else none

-- The parts before and behind the first `]`.
unfoldable pub split_bracket : Bytes → Option (Bytes × Bytes)
split_bracket [] = none
split_bracket (c ∷ cs) =
    let rest = host_cons c (split_bracket cs) in if c == b']' then some ([], cs) else rest

abbrev pub addr_error : Bytes → Result (Bytes × Bytes)
addr_error text = err (message text)

abbrev missing_port : Result (Bytes × Bytes)
missing_port = addr_error (codes "missing port in address")

abbrev too_many_colons : Result (Bytes × Bytes)
too_many_colons = addr_error (codes "too many colons in address")

-- No bracket where none may stand: `opened` holds what is searched for `[`, `closed` for `]`.
abbrev pub no_brackets : Bytes → Bytes → Bytes × Bytes → Result (Bytes × Bytes)
no_brackets opened closed parts =
    if contains b'[' opened
    then addr_error (codes "unexpected '[' in address")
    else if contains b']' closed
    then addr_error (codes "unexpected ']' in address")
    else ok parts

-- Behind `[host]`: a colon and a port with no further colon.
abbrev pub behind_bracket : Bytes → Bytes → Result (Bytes × Bytes)
behind_bracket host [] = missing_port
behind_bracket host (c ∷ port) =
    if c == b':'
    then if contains b':' port
      then too_many_colons
      else no_brackets (host ++ (b']' ∷ c ∷ port)) (c ∷ port) (host, port)
    else missing_port

abbrev pub bracketed : Option (Bytes × Bytes) → Result (Bytes × Bytes)
bracketed none = addr_error (codes "missing ']' in address")
bracketed (some (host, rest)) = behind_bracket host rest

abbrev pub plain : Bytes → Option (Bytes × Bytes) → Result (Bytes × Bytes)
plain s none = missing_port
plain s (some (host, port)) =
    if contains b':' host then too_many_colons else no_brackets s s (host, port)

-- With a colon somewhere.
abbrev pub split_at_colon : Bytes → Result (Bytes × Bytes)
split_at_colon [] = missing_port
split_at_colon (c ∷ cs) =
    if c == b'[' then bracketed (split_bracket cs) else plain (c ∷ cs) (split_last_colon (c ∷ cs))

-- `net.SplitHostPort`
unfoldable pub split_host_port : Bytes → Result (Bytes × Bytes)
unfolding split_last_colon split_bracket
split_host_port s = if contains b':' s then split_at_colon s else missing_port

abbrev pub sixteen_bits : Option ℕ → Result ℕ
sixteen_bits none = err (message (codes "invalid syntax"))
sixteen_bits (some n) = if ltb n (2 ^ 16) then ok n else err (message (codes "value out of range"))

-- `strconv.ParseUint(s, 10, 16)`
unfoldable pub parse_uint16 : Bytes → Result ℕ
parse_uint16 s = sixteen_bits (parse_magnitude s)

-- `outbound.Addr`
pub record Addr : Type 0 where
  pub host : Bytes
  pub port : ℕ

abbrev pub with_port : Bytes × Bytes → Result Addr
with_port (host, port) = parse_uint16 port >>= (λ n. ok (record { host = host; port = n }))

unfoldable pub parse_addr : Bytes → Result Addr
parse_addr addr = split_host_port addr >>= with_port
