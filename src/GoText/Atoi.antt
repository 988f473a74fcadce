-- ===== src/GoText/Atoi.antt =====
-- strconv.Atoi, which reads an integer of 64 bits: a sign and decimal digits.
use bbgrid.Prelude.{
  ℕ, zero, suc, ◌+◌, ◌/◌, ◌%◌, ◌^◌, ◌<◌, ◌≡◌, refl, ◌∙◌, Bool, true, false, ◌&&◌, not, Option, none,
  some, Text, [], ◌∷◌, ℤ, pos, ◌-ℤ◌, arith, ltb, nat_eq, if◌then◌else◌, All, ◌==◌, text_key,
}
use bbgrid.GoText.{
  decimal_loop, decimal, format_int, read_digits, IsDigit, decimal-IsDigit,
  read_digits-decimal_loop,
}

abbrev all_digits : Text → Bool
all_digits [] = true
all_digits (c ∷ s) = (not (ltb c b'0') && ltb c 58) && all_digits s

-- The digits, at least one.
unfoldable unsigned : Text → Option ℕ
unfolding read_digits
unsigned [] = none
unsigned (c ∷ s) = if all_digits (c ∷ s) then some (read_digits 0 (c ∷ s)) else none

unfoldable positive : Option ℕ → Option ℤ
positive none = none
positive (some n) = if ltb n (2 ^ 63) then some (pos n) else none

negative : Option ℕ → Option ℤ
negative none = none
negative (some n) = if ltb (2 ^ 63) n then none else some (pos 0 -ℤ pos n)

unfoldable pub atoi : Text → Option ℤ
unfolding unsigned positive negative
atoi [] = none
atoi (c ∷ s) =
    if nat_eq c b'-'
    then negative (unsigned s)
    else if nat_eq c b'+'
    then positive (unsigned s)
    else positive (unsigned (c ∷ s))

digits-all : (s : Text) → All IsDigit s → all_digits s ≡ true
digits-all [] d = refl
digits-all (c ∷ s) d = ground (arith, digits-all s d.1)

abbrev is_empty : Text → Bool
is_empty [] = true
is_empty (c ∷ s) = false

decimal_loop-nonempty :
    (f n : ℕ) (out : Text) → is_empty out ≡ false → is_empty (decimal_loop f n out) ≡ false
unfolding decimal_loop
decimal_loop-nonempty zero n out h = h
decimal_loop-nonempty (suc f) n out h =
    ground (arith, decimal_loop-nonempty f (n / 10) ((b'0' + n % 10) ∷ out) refl)

decimal-nonempty : (n : ℕ) → is_empty (decimal n) ≡ false
unfolding decimal decimal_loop
decimal-nonempty n = ground (arith, decimal_loop-nonempty n (n / 10) ((b'0' + n % 10) ∷ []) refl)

atoi-digits :
    (s : Text) → All IsDigit s → is_empty s ≡ false → atoi s ≡ positive (some (read_digits 0 s))
unfolding atoi unsigned
atoi-digits [] d h = ground arith
atoi-digits (c ∷ s) d h =
    let minus : nat_eq c b'-' ≡ false = ground arith in
    let plus : nat_eq c b'+' ≡ false = ground arith in rw (minus, plus, digits-all (c ∷ s) d) refl

-- A natural number of at most 63 bits is read back from its decimal form.
pub atoi-format_int : (n : ℕ) → n < 2 ^ 63 → atoi (format_int (pos n)) ≡ some (pos n)
unfolding format_int positive decimal read_digits
atoi-format_int n h =
    let value : read_digits 0 (decimal n) ≡ n =
      read_digits-decimal_loop (suc n) n [] (omega arith) in
    let small : ltb n (2 ^ 63) ≡ true = ground arith in
    atoi-digits (decimal n) (decimal-IsDigit n) (decimal-nonempty n) ∙ rw (value, small) refl

differs : (s : Text) → is_empty s ≡ false → s == [] ≡ false
differs [] h = ground arith
differs (c ∷ s) h = refl

pub format_int-nonempty : (n : ℕ) → format_int (pos n) == [] ≡ false
unfolding format_int
format_int-nonempty n = differs (decimal n) (decimal-nonempty n)
