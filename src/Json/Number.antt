-- ===== src/Json/Number.antt =====
-- JSON numbers: a `u64`, a negative `i64`, or a finite `f64` as its 64-bit pattern.
use caminus.Prelude.{
  ℕ, ◌-◌, ◌/◌, ◌%◌, ◌^◌, ◌≡◌, refl, Bool, true, false, ◌&&◌, ◌||◌, nat_eq, ltb, leb, if◌then◌else◌,
}

-- `neg_int n` is the number -(n + 1).
pub data Number : Type 0 where
  pos_int : ℕ → Number
  neg_int : ℕ → Number
  float : ℕ → Number

-- The two zeros.
is_zero : ℕ → Bool
is_zero bits = nat_eq (bits % 2 ^ 63) 0

-- Whether `x.fract() == 0.0` for the finite number with this bit pattern. With biased exponent `e`
-- and fraction `m` it is (2^52 + m) * 2^(e - 1075), so the bits behind the point are the low
-- 1075 - e bits of `m`.
float_integral : ℕ → Bool
float_integral bits =
    let e = bits / 2 ^ 52 % 2 ^ 11 in
    let m = bits % 2 ^ 52 in
    if is_zero bits
    then true
    else if ltb e 1023
    then false
    else if leb 1075 e
    then true
    else nat_eq (m % 2 ^ (1075 - e)) 0

-- `val.as_f64().unwrap().fract() == 0.0`: an integer is rounded to an integer.
unfoldable pub is_integral : Number → Bool
unfolding float_integral is_zero
is_integral (pos_int n) = true
is_integral (neg_int n) = true
is_integral (float bits) = float_integral bits

-- `==` on numbers of one kind; the zeros are equal.
unfoldable pub number_eq : Number → Number → Bool
unfolding is_zero
number_eq (pos_int a) (pos_int b) = nat_eq a b
number_eq (neg_int a) (neg_int b) = nat_eq a b
number_eq (float a) (float b) = nat_eq a b || (is_zero a && is_zero b)
number_eq _ _ = false

-- 1.5 and 3.0
half_not_integral : is_integral (float 0x3ff8_0000_0000_0000) ≡ false
unfolding is_integral
half_not_integral = refl

three_integral : is_integral (float 0x4008_0000_0000_0000) ≡ true
unfolding is_integral
three_integral = refl
