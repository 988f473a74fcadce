-- ===== src/GoText.antt =====
-- Go strings as byte lists: literals, the decimal form that `%d` prints, and splitting at a byte.
pub mod Atoi
use Prim.Native.Char.{code}
use bbgrid.Prelude.{
  ℕ, zero, suc, ◌+◌, ◌*◌, ◌-◌, ◌/◌, ◌%◌, ◌<◌, ◌≤◌, ◌≡◌, ◌≢◌, refl, ap, sym, ◌∙◌, String, Text, [],
  ◌∷◌, ◌++◌, ℤ, pos, negsuc, arith, ltb, if◌then◌else◌, All, ◌⊎◌, inr, subst,
}

-- The bytes of an ASCII literal.
abbrev pub codes : String → Text
codes String.[] = []
codes (String.◌∷◌ c s) = code c ∷ codes s

-- The decimal digits of a number; `zero` fuel is never reached from `decimal`.
unfoldable decimal_loop : ℕ → ℕ → Text → Text
decimal_loop zero n out = out
decimal_loop (suc f) n out =
    let rest = decimal_loop f (n / 10) ((b'0' + n % 10) ∷ out) in
    if ltb n 10 then (b'0' + n) ∷ out else rest

-- `%d` of a number that is not negative
unfoldable pub decimal : ℕ → Text
unfolding decimal_loop
decimal n = decimal_loop (suc n) n []

-- `%d`
unfoldable pub format_int : ℤ → Text
unfolding decimal
format_int (pos n) = decimal n
format_int (negsuc n) = b'-' ∷ decimal (suc n)

-- What a reader makes of the digits, after `acc`.
unfoldable read_digits : ℕ → Text → ℕ
read_digits acc [] = acc
read_digits acc (c ∷ s) = read_digits (acc * 10 + (c - b'0')) s

abbrev pub IsDigit : ℕ → Type 0
IsDigit c = (48 ≤ c) × (c < 58)

decimal_loop-IsDigit : (f n : ℕ) (out : Text) → All IsDigit out → All IsDigit (decimal_loop f n out)
unfolding decimal_loop
decimal_loop-IsDigit zero n out h = h
decimal_loop-IsDigit (suc f) n out h =
    ground (arith, decimal_loop-IsDigit f (n / 10) ((b'0' + n % 10) ∷ out))

pub decimal-IsDigit : (n : ℕ) → All IsDigit (decimal n)
unfolding decimal
decimal-IsDigit n = decimal_loop-IsDigit (suc n) n [] tt

-- Reading the digits printed in front of `out` is reading `out` from `n`.
read_digits-decimal_loop :
    (f n : ℕ) (out : Text) → n < f → read_digits 0 (decimal_loop f n out) ≡ read_digits n out
unfolding decimal_loop read_digits
read_digits-decimal_loop zero n out h = absurd (omega arith)
read_digits-decimal_loop (suc f) n out h =
    ground (arith, read_digits-decimal_loop f (n / 10) ((b'0' + n % 10) ∷ out))

decimal_injective : (a b : ℕ) → decimal a ≡ decimal b → a ≡ b
unfolding decimal read_digits
decimal_injective a b h =
    sym (read_digits-decimal_loop (suc a) a [] (omega arith))
    ∙ ap (read_digits 0) h
    ∙ read_digits-decimal_loop (suc b) b [] (omega arith)

-- No byte of `s` is `c`.
abbrev pub Free : ℕ → Text → Type 0
Free c s = All (λ b. b ≢ c) s

digits-Free : (c : ℕ) (s : Text) → c < 48 ⊎ (58 ≤ c) → All IsDigit s → Free c s
digits-Free c [] h d = tt
digits-Free c (x ∷ s) h d = (omega arith, digits-Free c s h d.1)

pub decimal-Free : (c n : ℕ) → c < 48 ⊎ (58 ≤ c) → Free c (decimal n)
decimal-Free c n h = digits-Free c (decimal n) h (decimal-IsDigit n)

pub format_int-Free : (i : ℤ) → Free b':' (format_int i)
unfolding format_int
format_int-Free (pos n) = decimal-Free b':' n (inr (omega arith))
format_int-Free (negsuc n) = (omega arith, decimal-Free b':' (suc n) (inr (omega arith)))

-- A minus sign is no digit.
minus_ne_decimal : (n : ℕ) (s : Text) → decimal n ≢ b'-' ∷ s
minus_ne_decimal n s h = go (decimal n) (decimal-IsDigit n) h
  where
    go : (t : Text) → All IsDigit t → t ≢ b'-' ∷ s
    go [] d e = cc
    go (x ∷ t) d e = grind arith

pub format_int_injective : (i j : ℤ) → format_int i ≡ format_int j → i ≡ j
unfolding format_int
format_int_injective (pos a) (pos b) h = ap pos (decimal_injective a b h)
format_int_injective (pos a) (negsuc b) h = absurd (minus_ne_decimal a (decimal (suc b)) h)
format_int_injective (negsuc a) (pos b) h = absurd (minus_ne_decimal b (decimal (suc a)) (sym h))
format_int_injective (negsuc a) (negsuc b) h =
    let e : suc a ≡ suc b = decimal_injective (suc a) (suc b) (cc) in ap negsuc (omega arith)

Free-middle : (c : ℕ) (s t : Text) → ¬ Free c (s ++ c ∷ t)
Free-middle c [] t h = h.0 refl
Free-middle c (x ∷ s) t h = Free-middle c s t h.1

tail_eq : {x y : ℕ} {s t : Text} → x ∷ s ≡ y ∷ t → s ≡ t
tail_eq h = cc

-- A text splits in one way at the last place of a byte.
pub split_unique :
    (c : ℕ) (a b s t : Text) → Free c s → Free c t → a ++ c ∷ s ≡ b ++ c ∷ t → (a ≡ b) × (s ≡ t)
split_unique c [] [] s t fs ft h = (refl, cc)
split_unique c [] (y ∷ b) s t fs ft h = absurd (Free-middle c b t (subst (Free c) (tail_eq h) fs))
split_unique c (x ∷ a) [] s t fs ft h =
    absurd (Free-middle c a s (subst (Free c) (tail_eq (sym h)) ft))
split_unique c (x ∷ a) (y ∷ b) s t fs ft h = ground (arith, split_unique c a b s t fs ft)
