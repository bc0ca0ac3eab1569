-- ===== src/Number.antt =====
-- Go's integers of 64 bits, as they stand in the texts that the program reads: `strconv.Atoi` and
-- `strconv.ParseInt(s, 10, 64)`, and the conversion to `uint32`.
use server_anytls.Prelude.{
  ℕ, suc, ◌+◌, ◌-◌, ◌*◌, ◌%◌, ◌^◌, Bool, true, false, ◌&&◌, [], ◌∷◌, Option, none, some, Bytes, leb,
  ltb, Eq, ◌≡◌, ◌↔◌, arith, ◌==◌, if◌then◌else◌,
}

-- `negsuc n` is -(n + 1).
pub data ℤ : Type 0 where
  pos : ℕ → ℤ
  negsuc : ℕ → ℤ

abbrev pub pos_part : ℤ → ℕ
pos_part (pos n) = n
pos_part (negsuc n) = 0

abbrev pub neg_part : ℤ → ℕ
neg_part (pos n) = 0
neg_part (negsuc n) = suc n

abbrev pub leb_ℤ : ℤ → ℤ → Bool
leb_ℤ a b = leb (pos_part a + neg_part b) (pos_part b + neg_part a)

abbrev pub min_ℤ : ℤ → ℤ → ℤ
min_ℤ a b = if leb_ℤ a b then a else b

abbrev pub max_ℤ : ℤ → ℤ → ℤ
max_ℤ a b = if leb_ℤ a b then b else a

-- `uint32(v)`
unfoldable pub to_uint32 : ℤ → ℕ
to_uint32 (pos n) = n % 2 ^ 32
to_uint32 (negsuc n) = 2 ^ 32 - 1 - n % 2 ^ 32

abbrev pub is_digit : ℕ → Bool
is_digit c = leb b'0' c && leb c b'9'

unfoldable pub parse_digits : ℕ → Bytes → Option ℕ
parse_digits acc [] = some acc
parse_digits acc (c ∷ cs) =
    let rest = parse_digits (acc * 10 + (c - b'0')) cs in if is_digit c then rest else none

-- At least one digit.
unfoldable pub parse_magnitude : Bytes → Option ℕ
unfolding parse_digits
parse_magnitude [] = none
parse_magnitude (c ∷ cs) = parse_digits 0 (c ∷ cs)

negate : ℕ → ℤ
negate n = if n == 0 then pos 0 else negsuc (n - 1)

unfoldable pub parse_positive : Bytes → Option ℤ
unfolding parse_magnitude
parse_positive s = elim (parse_magnitude s) [
  | none ↦ none
  | some n ↦ if ltb n (2 ^ 63) then some (pos n) else none
]

unfoldable pub parse_negative : Bytes → Option ℤ
unfolding parse_magnitude negate
parse_negative s = elim (parse_magnitude s) [
  | none ↦ none
  | some n ↦ if leb n (2 ^ 63) then some (negate n) else none
]

-- `strconv.Atoi(s)`, and `strconv.ParseInt(s, 10, 64)`: `none` for a syntax or a range error.
unfoldable pub parse_int : Bytes → Option ℤ
unfolding parse_positive parse_negative
parse_int [] = none
parse_int (c ∷ cs) =
    if c == b'-'
    then parse_negative cs
    else if c == b'+'
    then parse_positive cs
    else parse_positive (c ∷ cs)

-- `==` on integers.
unfoldable pub equal_ℤ : ℤ → ℤ → Bool
equal_ℤ (pos m) (pos n) = m == n
equal_ℤ (negsuc m) (negsuc n) = m == n
equal_ℤ _ _ = false

pub equal_ℤ_iff : (a b : ℤ) → (equal_ℤ a b ≡ true) ↔ (a ≡ b)
unfolding equal_ℤ
equal_ℤ_iff (pos m) (pos n) = ground arith
equal_ℤ_iff (pos m) (negsuc n) = ground arith
equal_ℤ_iff (negsuc m) (pos n) = ground arith
equal_ℤ_iff (negsuc m) (negsuc n) = ground arith

instance abbrev pub int_eq : Eq ℤ
int_eq = record { beq = equal_ℤ; beq_iff = equal_ℤ_iff }
