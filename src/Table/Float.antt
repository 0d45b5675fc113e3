-- ===== src/Table/Float.antt =====
-- The `f64` of the language, as its 64 bits: the comparison, and the casts that src/table_runtime.rs
-- uses.
use tricti.Base.{
  ℕ, zero, suc, ◌+◌, ◌-◌, ◌*◌, ◌/◌, ◌%◌, ◌^◌, Bool, ◌&&◌, ◌||◌, Option, none, some, if◌then◌else◌,
  ltb, leb, nat_beq, ◌≡◌, refl,
}

unfoldable pub is_negative : ℕ → Bool
is_negative bits = leb (2 ^ 63) bits

-- The exponent and the fraction together: their order is the order of the absolute values.
unfoldable pub magnitude : ℕ → ℕ
magnitude bits = bits % 2 ^ 63

unfoldable pub is_nan : ℕ → Bool
unfolding magnitude
is_nan bits = ltb (2047 * 2 ^ 52) (magnitude bits)

-- Both zeros stand at 2 ^ 63.
unfoldable pub rank : ℕ → ℕ
unfolding magnitude is_negative
rank bits = if is_negative bits then 2 ^ 63 - magnitude bits else 2 ^ 63 + magnitude bits

-- `a.partial_cmp(&b)` is `Greater` or `Equal`; `None` where one of the two is not a number.
unfoldable pub partial_ge : ℕ → ℕ → Option Bool
unfolding is_nan rank
partial_ge a b = if is_nan a || is_nan b then none else some (leb (rank b) (rank a))

-- `a.partial_cmp(&b)` is `Equal`.
unfoldable pub partial_eq : ℕ → ℕ → Option Bool
unfolding is_nan rank
partial_eq a b = if is_nan a || is_nan b then none else some (nat_beq (rank a) (rank b))

-- The number of binary digits; 64 turns are enough for a u64.
unfoldable pub bit_length : (fuel : ℕ) → ℕ → ℕ
bit_length zero v = 0
bit_length (suc fuel) v = let rest = bit_length fuel (v / 2) in if nat_beq v 0 then 0 else rest + 1

-- v / 2 ^ shift, rounded to the nearest, and to the even one of two that are as near.
unfoldable pub round_half_even : ℕ → (shift : ℕ) → ℕ
round_half_even v shift =
    let quotient = v / 2 ^ shift in
    let twice = v % 2 ^ shift * 2 in
    if ltb (2 ^ shift) twice || nat_beq twice (2 ^ shift) && nat_beq (quotient % 2) 1
    then quotient + 1
    else quotient

-- `v as f64` for a u64: 53 digits of it, under the exponent. A fraction that rounds up to 2 ^ 53
-- carries into the exponent.
unfoldable pub from_u64 : ℕ → ℕ
unfolding bit_length round_half_even
from_u64 v =
    let digits = bit_length 64 v in
    if nat_beq v 0
    then 0
    else (digits + 1021) * 2 ^ 52
      + (if leb digits 53 then v * 2 ^ (53 - digits) else round_half_even v (digits - 53))

-- `v as f64` for an i32, which is its 32 bits.
unfoldable pub from_i32 : ℕ → ℕ
unfolding from_u64
from_i32 bits = if ltb bits (2 ^ 31) then from_u64 bits else 2 ^ 63 + from_u64 (2 ^ 32 - bits)

-- The absolute value of `f as i32` before the bounds are applied: rounded towards zero.
unfoldable pub truncated : ℕ → ℕ
unfolding magnitude
truncated bits =
    let exponent = magnitude bits / 2 ^ 52 in
    if ltb exponent 1023
    then 0
    else if ltb 1053 exponent
    then 2 ^ 31
    else (magnitude bits % 2 ^ 52 + 2 ^ 52) / 2 ^ (1075 - exponent)

-- `f as i32`: 0 for not a number, and the nearest bound for what is out of range.
unfoldable pub to_i32 : ℕ → ℕ
unfolding is_nan truncated is_negative
to_i32 bits =
    if is_nan bits
    then 0
    else if is_negative bits
    then (2 ^ 32 - truncated bits) % 2 ^ 32
    else if ltb (truncated bits) (2 ^ 31)
    then truncated bits
    else 2 ^ 31 - 1

one : from_u64 1 ≡ 0x3ff0_0000_0000_0000
unfolding from_u64
one = refl
