-- ===== src/Base/Int.antt =====
-- Go's `int` on a 64-bit machine: integers over the native numbers, and wrap-around to 64 bits.
use Prim.Native.Nat.{ℕ, suc, ◌+◌, ◌-◌, ◌*◌, ◌%◌, ◌<◌}
use mathlib.Core.Path.{◌≡◌, refl}
use native.Mathlib.Omega.{arith}
use native.Mathlib.Decide.{ℕ_discrete}
use boshv.Base.Tests.{if◌then◌else◌, ltb, leb}

-- `negsuc n` is -(n + 1).
pub data ℤ : Type 0 where
  pos : ℕ → ℤ
  negsuc : ℕ → ℤ

unfoldable pub ℤ_discrete : Discrete ℤ
unfolding ℕ_discrete
ℤ_discrete = hlevel ℕ_discrete

abbrev pub pos_part : ℤ → ℕ
pos_part (pos n) = n
pos_part (negsuc n) = 0

abbrev pub neg_part : ℤ → ℕ
neg_part (pos n) = 0
neg_part (negsuc n) = suc n

-- a - b, as an integer.
abbrev pub sub_ℕ : ℕ → ℕ → ℤ
sub_ℕ a b = if leb b a then pos (a - b) else negsuc (b - a - 1)

infixl 65 ◌+ℤ◌
infixl 70 ◌*ℤ◌
unfoldable pub ◌+ℤ◌ : ℤ → ℤ → ℤ
a +ℤ b = sub_ℕ (pos_part a + pos_part b) (neg_part a + neg_part b)

unfoldable pub ◌*ℤ◌ : ℤ → ℤ → ℤ
a *ℤ b =
    sub_ℕ (pos_part a * pos_part b + neg_part a * neg_part b)
      (pos_part a * neg_part b + neg_part a * pos_part b)

-- 2 ^ 64 and 2 ^ 63
abbrev pub int_mod : ℕ
int_mod = 18446744073709551616

abbrev pub int_half : ℕ
int_half = 9223372036854775808

-- The bit pattern of an integer, and the `int` that a bit pattern stands for.
unfoldable pub residue : ℤ → ℕ
residue (pos n) = n % int_mod
residue (negsuc n) = int_mod - 1 - n % int_mod

unfoldable pub signed : ℕ → ℤ
signed r = if ltb r int_half then pos r else negsuc (int_mod - 1 - r)

unfoldable pub wrap : ℤ → ℤ
unfolding residue signed
wrap z = signed (residue z)

-- `a + b` and `a * b` at type `int`
unfoldable pub add_int : ℤ → ℤ → ℤ
unfolding wrap ◌+ℤ◌
add_int a b = wrap (a +ℤ b)

unfoldable pub mul_int : ℤ → ℤ → ℤ
unfolding wrap ◌*ℤ◌
mul_int a b = wrap (a *ℤ b)

wraps : add_int (pos 9223372036854775807) (pos 1) ≡ negsuc 9223372036854775807
unfolding add_int
wraps = refl

-- The representable integers are left alone.
pub wrap_small : (n : ℕ) → n < int_half → wrap (pos n) ≡ pos n
unfolding wrap
wrap_small n h = ground arith

residue-signed : (r : ℕ) → r < int_mod → residue (signed r) ≡ r
unfolding residue signed
residue-signed r h = ground arith

pub residue-lt : (z : ℤ) → residue z < int_mod
unfolding residue
residue-lt (pos n) = omega arith
residue-lt (negsuc n) = omega arith

pub residue-wrap : (z : ℤ) → residue (wrap z) ≡ residue z
unfolding wrap
residue-wrap z = residue-signed (residue z) (residue-lt z)
