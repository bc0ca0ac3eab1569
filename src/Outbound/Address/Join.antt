-- ===== src/Outbound/Address/Join.antt =====
-- `parseAddr` of what `net.JoinHostPort` writes, as the text of a destination is.
use server_anytls.Prelude.{
  ℕ, ◌^◌, ◌+◌, ◌*◌, ◌-◌, ltb, sym, codes, ◌≡◌, refl, ap, ◌∙◌, Bool, true, false, ◌||◌, [], ◌∷◌,
  ◌++◌, Option, some, Bytes, arith, ◌>>=◌, Result, if◌then◌else◌, if_elim, err, message, ok,
}
use mathlib.Core.Bool.{false≢true}
use server_anytls.Number.{is_digit, parse_digits, parse_magnitude}
use server_anytls.Path.{contains}
use server_anytls.Outbound.Address.{
  split_last_colon, split_bracket, no_brackets, behind_bracket, bracketed, plain, split_at_colon,
  split_host_port, with_port, parse_addr, Addr, sixteen_bits, parse_uint16,
}

contains-append : (b : ℕ) (v w : Bytes) → contains b (v ++ w) ≡ (contains b v || contains b w)
contains-append b [] w = ground arith
contains-append b (c ∷ v) w = ground (arith, contains-append b v w)

-- `net.JoinHostPort`
abbrev pub join_host_port : Bytes → Bytes → Bytes
join_host_port host port =
    if contains b':' host then b'[' ∷ (host ++ (b']' ∷ b':' ∷ port)) else host ++ (b':' ∷ port)

-- A text with none of the three marks.
abbrev pub NoBrackets : Bytes → Type 0
NoBrackets s = (contains b'[' s ≡ false) × (contains b']' s ≡ false)

split_last_colon-append :
    (host port : Bytes)
    → contains b':' port ≡ false
    → split_last_colon (host ++ (b':' ∷ port)) ≡ some (host, port)
unfolding split_last_colon
split_last_colon-append [] port h = ground arith
split_last_colon-append (c ∷ host) port h =
    ground (arith, split_last_colon-append host port h, contains-append b':' host (b':' ∷ port))

split_bracket-append :
    (host rest : Bytes)
    → contains b']' host ≡ false
    → split_bracket (host ++ (b']' ∷ rest)) ≡ some (host, rest)
unfolding split_bracket
split_bracket-append [] rest h = ground arith
split_bracket-append (c ∷ host) rest h = ground (arith, split_bracket-append host rest)

no_brackets_passes :
    (opened closed : Bytes) (parts : Bytes × Bytes)
    → contains b'[' opened ≡ false
    → contains b']' closed ≡ false
    → no_brackets opened closed parts ≡ ok parts
no_brackets_passes opened closed parts h g = ground arith

behind_bracket-join :
    (host port : Bytes)
    → NoBrackets host
    → NoBrackets port
    → contains b':' port ≡ false
    → behind_bracket host (b':' ∷ port) ≡ ok (host, port)
behind_bracket-join host port h g c =
    if_elim (λ r. r ≡ ok (host, port)) (contains b':' port) (λ e. absurd (false≢true (sym c ∙ e)))
      (λ _.
        no_brackets_passes (host ++ (b']' ∷ b':' ∷ port)) (b':' ∷ port) (host, port)
          (contains-append b'[' host (b']' ∷ b':' ∷ port) ∙ ground arith) (ground arith))

plain-join :
    (host port : Bytes)
    → NoBrackets host
    → NoBrackets port
    → contains b':' host ≡ false
    → contains b':' port ≡ false
    → plain (host ++ (b':' ∷ port)) (split_last_colon (host ++ (b':' ∷ port))) ≡ ok (host, port)
plain-join host port h g a c =
    ap (plain (host ++ (b':' ∷ port))) (split_last_colon-append host port c)
    ∙ if_elim (λ r. r ≡ ok (host, port)) (contains b':' host) (λ e. absurd (false≢true (sym a ∙ e)))
        (λ _.
          no_brackets_passes (host ++ (b':' ∷ port)) (host ++ (b':' ∷ port)) (host, port)
            (contains-append b'[' host (b':' ∷ port) ∙ ground arith)
            (contains-append b']' host (b':' ∷ port) ∙ ground arith))

split_at_colon-plain :
    (host port : Bytes)
    → NoBrackets host
    → split_at_colon (host ++ (b':' ∷ port))
      ≡ plain (host ++ (b':' ∷ port)) (split_last_colon (host ++ (b':' ∷ port)))
split_at_colon-plain [] port h = ground arith
split_at_colon-plain (c ∷ host) port h = ground arith

split_at_colon-join :
    (host port : Bytes)
    → NoBrackets host
    → NoBrackets port
    → contains b':' port ≡ false
    → split_at_colon (join_host_port host port) ≡ ok (host, port)
split_at_colon-join host port h g c =
    if_elim (λ s. split_at_colon s ≡ ok (host, port)) (contains b':' host)
      (λ _.
        ap bracketed (split_bracket-append host (b':' ∷ port) h.1)
        ∙ behind_bracket-join host port h g c)
      (λ a. split_at_colon-plain host port h ∙ plain-join host port h g a c)

contains-join : (host port : Bytes) → contains b':' (join_host_port host port) ≡ true
contains-join host port =
    if_elim (λ s. contains b':' s ≡ true) (contains b':' host)
      (λ _. contains-append b':' host (b']' ∷ b':' ∷ port) ∙ ground arith)
      (λ _. contains-append b':' host (b':' ∷ port) ∙ ground arith)

split_host_port-join :
    (host port : Bytes)
    → NoBrackets host
    → NoBrackets port
    → contains b':' port ≡ false
    → split_host_port (join_host_port host port) ≡ ok (host, port)
unfolding split_host_port
split_host_port-join host port h g c =
    if_elim (λ r. r ≡ ok (host, port)) (contains b':' (join_host_port host port))
      (λ _. split_at_colon-join host port h g c)
      (λ e. absurd (false≢true (sym e ∙ contains-join host port)))

bind-if :
    (b : Bool) (r s : Result ℕ) (k : ℕ → Result Addr)
    → ((if b then r else s) >>= k) ≡ (if b then r >>= k else s >>= k)
bind-if true r s k = refl
bind-if false r s k = refl

-- A text of digits has no other byte.
parse_digits-contains :
    (b acc : ℕ) (s : Bytes) (n : ℕ)
    → is_digit b ≡ false
    → parse_digits acc s ≡ some n
    → contains b s ≡ false
unfolding parse_digits
parse_digits-contains b acc [] n d e = refl
parse_digits-contains b acc (c ∷ cs) n d e =
    ground (arith, parse_digits-contains b (acc * 10 + (c - b'0')) cs n)

parse_magnitude-contains :
    (b : ℕ) (s : Bytes) (n : ℕ)
    → is_digit b ≡ false
    → parse_magnitude s ≡ some n
    → contains b s ≡ false
unfolding parse_magnitude
parse_magnitude-contains b [] n d e = refl
parse_magnitude-contains b (c ∷ cs) n d e = parse_digits-contains b 0 (c ∷ cs) n d e

-- `parseAddr` takes apart what `net.JoinHostPort` joins, for every host without square brackets,
-- IPv6 addresses included, and every port text of digits: the host comes back whole, the number
-- comes back below 2^16, and a larger one is an error.
pub parse_addr-join_host_port :
    (host port : Bytes) (n : ℕ)
    → NoBrackets host
    → parse_magnitude port ≡ some n
    → parse_addr (join_host_port host port) ≡ (
        if ltb n (2 ^ 16)
        then ok (record { host = host; port = n })
        else err (message (codes "value out of range")))
unfolding parse_addr parse_uint16
parse_addr-join_host_port host port n h e =
    let free = λ (b : ℕ) (d : is_digit b ≡ false). parse_magnitude-contains b port n d e in
    let k : ℕ → Result Addr = λ m. ok (record { host = host; port = m }) in
    ap (λ (r : Result (Bytes × Bytes)). r >>= with_port)
      (split_host_port-join host port h (free b'[' refl, free b']' refl) (free b':' refl))
    ∙ ap (λ (o : Option ℕ). sixteen_bits o >>= k) e
    ∙ bind-if (ltb n (2 ^ 16)) (ok n) (err (message (codes "value out of range"))) k
