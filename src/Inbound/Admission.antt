-- ===== src/Inbound/Admission.antt =====
-- Who gets in, and what is counted for the header.
use server_anytls.Prelude.{
  ℕ, ◌+◌, ◌^◌, ◌<◌, ◌≡◌, refl, sym, ap, ◌∙◌, [], ◌∷◌, ◌++◌, Option, none, some, Bytes, length, take,
  drop, ltb, leb, if◌then◌else◌, if_elim, arith, length-append, take-append, drop-append,
}
use server_anytls.Number.{ℤ}
use server_anytls.Wire.{put_uint16}
use server_anytls.Inbound.{
  password_len, padding_len_field_sz, encode_to_string, Handshake, no_password, rejected,
  no_padding_len, no_padding, accepted, uint16_of, header_bytes, after_padding, read_padding,
  after_padding_len, after_auth, after_password, handshake,
}

-- What the code relies on in `ReadBytes`: it takes the front, or fails if the buffer is too short.
abbrev pub TakesFront : (ℕ → Bytes → Option (Bytes × Bytes)) → Type 0
TakesFront read_bytes =
    (n : ℕ) (b : Bytes)
    → read_bytes n b ≡ (if leb n (length b) then some (take n b, drop n b) else none)

abbrev pub front : ℕ → Bytes → Option (Bytes × Bytes)
front n b = if leb n (length b) then some (take n b, drop n b) else none

front-append : (b x : Bytes) → front (length b) (b ++ x) ≡ some (b, x)
front-append b x =
    if_elim (λ o. o ≡ some (b, x)) (leb (length b) (length (b ++ x)))
      (λ _.
        ap (λ t. some (t, drop (length b) (b ++ x))) (take-append b x)
        ∙ ap (λ u. some (b, u)) (drop-append b x))
      (λ e. absurd (ground (arith, length-append b x)))

-- What a client says first.
abbrev pub hello : Bytes → Bytes → Bytes → Bytes
hello password padding rest = password ++ (put_uint16 (length padding) ++ (padding ++ rest))

-- The answer to a password.
abbrev pub answer : ℕ → Bytes → Option ℤ → Handshake
answer padding_len rest none = rejected
answer padding_len rest (some uid) = accepted uid (header_bytes padding_len) rest

uint16_of-put_uint16 : (n : ℕ) → n < 2 ^ 16 → uint16_of (put_uint16 n) ≡ n
uint16_of-put_uint16 n h = omega arith

module _ (read_bytes : ℕ → Bytes → Option (Bytes × Bytes)) (reads : TakesFront read_bytes) where
  read_padding-append :
      (uid : ℤ) (padding rest : Bytes)
      → read_padding read_bytes uid (length padding) (padding ++ rest)
        ≡ accepted uid (header_bytes (length padding)) rest
  read_padding-append uid [] rest = refl
  read_padding-append uid (p ∷ padding) rest =
      if_elim (λ h. h ≡ accepted uid (header_bytes (length (p ∷ padding))) rest)
        (ltb 0 (length (p ∷ padding)))
        (λ _.
          ap (after_padding read_bytes uid (length (p ∷ padding)))
            (reads (length (p ∷ padding)) _ ∙ front-append (p ∷ padding) rest))
        (λ e. absurd (ground arith))

  after_auth-append :
      (o : Option ℤ) (padding rest : Bytes)
      → length padding < 2 ^ 16
      → after_auth read_bytes (put_uint16 (length padding) ++ (padding ++ rest)) o
        ≡ answer (length padding) rest o
  after_auth-append none padding rest h = refl
  after_auth-append (some uid) padding rest h =
      ap (after_padding_len read_bytes uid) (
        reads padding_len_field_sz _ ∙ front-append (put_uint16 (length padding)) (padding ++ rest))
      ∙ ap (λ n. read_padding read_bytes uid n (padding ++ rest))
          (uint16_of-put_uint16 (length padding) h)
      ∙ read_padding-append uid padding rest

-- A first read that holds the password of 32 bytes, the padding and its length gets the answer of
-- the password: rejected if no user has it, and else admitted as its user, with the bytes behind
-- the padding left for the session.
pub handshake-hello :
    (read_bytes : ℕ → Bytes → Option (Bytes × Bytes)) (auth : Bytes → Option ℤ)
    (password padding rest : Bytes)
    → TakesFront read_bytes
    → length password ≡ password_len
    → length padding < 2 ^ 16
    → handshake read_bytes auth (hello password padding rest)
      ≡ answer (length padding) rest (auth (encode_to_string password))
unfolding handshake
handshake-hello read_bytes auth password padding rest reads l h =
    ap (λ n. after_password read_bytes auth (read_bytes n (hello password padding rest))) (sym l)
    ∙ ap (after_password read_bytes auth) (reads (length password) _ ∙ front-append password _)
    ∙ after_auth-append read_bytes reads (auth (encode_to_string password)) padding rest h

-- What each outcome says of the bytes `b` of the first read.
abbrev pub IsJust : (Bytes → Option ℤ) → Bytes → Handshake → Type 0
IsJust auth b no_password = length b < password_len
IsJust auth b rejected = auth (encode_to_string (take password_len b)) ≡ none
IsJust auth b no_padding_len = length b < password_len + padding_len_field_sz
IsJust auth b no_padding = Unit {0}
IsJust auth b (accepted uid counted rest) =
    (auth (encode_to_string (take password_len b)) ≡ some uid)
    × (length b < 2 ^ 16 → counted + length rest ≡ length b)
