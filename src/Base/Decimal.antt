-- ===== src/Base/Decimal.antt =====
-- `%d` of `fmt.Sprintf`: decimal digits, with a minus sign for a negative number.
use Prim.Native.Nat.{ℕ, zero, suc, ◌+◌, ◌*◌, ◌/◌, ◌%◌, ◌-◌, ◌<◌}
use mathlib.Core.Path.{◌≡◌, refl}
use mathlib.Core.List.{[], ◌∷◌, ◌++◌, foldl, foldl-append}
use native.Mathlib.Omega.{arith}
use boshv.Base.Tests.{if◌then◌else◌, ltb, Bool-cases}
use boshv.Base.Strings.{Str, str}
use boshv.Base.Int.{ℤ, pos, negsuc}
use mathlib.Core.Logic.{inl, inr, ◌≢◌}
use boshv.Base.Lists.{All, All-append}

digits : ℕ → ℕ → Str
digits zero n = []
digits (suc f) n =
    let rest = digits f (n / 10) in
    if ltb n 10 then (b'0' + n) ∷ [] else rest ++ ((b'0' + n % 10) ∷ [])

-- A number has at most as many digits as its value, and one more for 0.
unfoldable pub decimal : ℕ → Str
unfolding digits
decimal n = digits (suc n) n

unfoldable pub format_int : ℤ → Str
unfolding decimal
format_int (pos n) = decimal n
format_int (negsuc n) = b'-' ∷ decimal (suc n)

format_int_test : format_int (negsuc 119) ≡ str "-120"
unfolding format_int str
format_int_test = refl

-- The number that a sequence of digits stands for.
abbrev read : ℕ → ℕ → ℕ
read acc c = 10 * acc + (c - b'0')

abbrev pub value : Str → ℕ
value = foldl read 0

value-digits : (f n : ℕ) → n < f → value (digits f n) ≡ n
unfolding digits
value-digits zero n h = elim h [ ]
value-digits (suc f) n h = elim (Bool-cases (ltb n 10)) [
  | inl small ↦ rw small (ground arith)
  | inr large ↦ rw (large, foldl-append, value-digits f (n / 10) (ground arith)) (omega arith)
]

-- The digits of a number say which number it is.
pub value-decimal : (n : ℕ) → value (decimal n) ≡ n
unfolding decimal
value-decimal n = value-digits (suc n) n (omega arith)

digits-All : (f n : ℕ) → All (λ (c : ℕ). c ≢ b'-') (digits f n)
unfolding digits
digits-All zero n = tt
digits-All (suc f) n = elim (Bool-cases (ltb n 10)) [
  | inl small ↦ rw small (omega arith, tt)
  | inr large ↦
      rw large (All-append _ (digits f (n / 10)) _ (digits-All f (n / 10)) (omega arith, tt))
]

-- The minus sign is no digit.
pub decimal-digits : (n : ℕ) → All (λ (c : ℕ). c ≢ b'-') (decimal n)
unfolding decimal
decimal-digits n = digits-All (suc n) n
