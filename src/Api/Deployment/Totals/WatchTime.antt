-- ===== src/Api/Deployment/Totals/WatchTime.antt =====
-- `watchTime` of api/v1/deployment_types.go against the range of milliseconds that it prints.
use boshv.Base.{
  ℕ, ◌*◌, ◌<◌, ◌≡◌, ◌≢◌, refl, ap, ◌∙◌, Option, none, some, [], ◌∷◌, ◌++◌, Str, str, if◌then◌else◌,
  eqb, ite, arith,
}
use mathlib.Core.Logic.{if_neg, if_pos}
use native.Mathlib.Decide.{ℕ_discrete}
use boshv.Base.Int.{ℤ, pos, negsuc, mul_int, wrap, ◌*ℤ◌, int_half, ℤ_discrete}
use boshv.Base.Decimal.{decimal, format_int, value, value-decimal, decimal-digits}
use boshv.Api.Helpers.Names.{Without}
use boshv.Api.Types.{Deployment}
use boshv.Api.Deployment.Totals.{watch_time}
use boshv.Remote.Config.{IntOrString, int, string}

-- A text up to a separator, and from there on.
abbrev before : ℕ → Str → Str
before c [] = []
before c (x ∷ s) = if eqb x c then [] else x ∷ before c s

abbrev after : ℕ → Str → Str
after c [] = []
after c (x ∷ s) = if eqb x c then s else after c s

before-append : (c : ℕ) (a b : Str) → Without c a → before c (a ++ c ∷ b) ≡ a
before-append c [] b h = ground arith
before-append c (x ∷ a) b h = ground (arith, before-append c a b h.1)

after-append : (c : ℕ) (a b : Str) → Without c a → after c (a ++ c ∷ b) ≡ b
after-append c [] b h = ground arith
after-append c (x ∷ a) b h = ground (arith, after-append c a b h.1)

-- The number of milliseconds to wait, or the least and the greatest such number.
abbrev pub read_watch_time : IntOrString → ℕ × Option ℕ
read_watch_time (int (pos n)) = (n, none)
read_watch_time (int (negsuc n)) = (0, none)
read_watch_time (string s) = (value (before b'-' s), some (value (after b'-' s)))

mul_int-pos : (n : ℕ) → 1000 * n < int_half → mul_int (pos 1000) (pos n) ≡ pos (1000 * n)
unfolding mul_int ◌*ℤ◌ wrap
mul_int-pos n h = ground arith

abbrev time : ℤ → ℤ → IntOrString
unfolding format_int
time lo hi =
    ite (ℤ_discrete hi (pos 0)) (int (mul_int (pos 1000) lo)) (
      string
        (format_int (mul_int (pos 1000) lo) ++ (str "-" ++ format_int (mul_int (pos 1000) hi))))

read-range :
    (a b : ℕ) → read_watch_time (string (decimal a ++ (str "-" ++ decimal b))) ≡ (a, some b)
unfolding str
read-range a b =
    rw
      (
        before-append b'-' (decimal a) (decimal b) (decimal-digits a),
        after-append b'-' (decimal a) (decimal b) (decimal-digits a),
        value-decimal a,
        value-decimal b,
      )
      refl

pos_injective : {n m : ℕ} → pos n ≡ pos m → n ≡ m
pos_injective e = cc

nonzero : (hi : ℕ) → hi ≢ 0 → some (1000 * hi) ≡ (if eqb hi 0 then none else some (1000 * hi))
nonzero hi nz = ground arith

read-time :
    (lo hi : ℕ)
    → 1000 * lo < int_half
    → 1000 * hi < int_half
    → read_watch_time (time (pos lo) (pos hi))
      ≡ (1000 * lo, if eqb hi 0 then none else some (1000 * hi))
unfolding format_int
read-time lo hi l m = elim (ℕ_discrete hi 0) [
  | yes z ↦ rw (if_pos (ℤ_discrete (pos hi) (pos 0)) (ap pos z), mul_int-pos lo l, z) refl
  | no nz ↦
      rw
        (
          if_neg (ℤ_discrete (pos hi) (pos 0)) (λ e. nz (pos_injective e)),
          mul_int-pos lo l,
          mul_int-pos hi m,
        )
        (read-range (1000 * lo) (1000 * hi) ∙ ap (λ x. (1000 * lo, x)) (nonzero hi nz))
]

-- The seconds of an update strategy, printed as milliseconds, are read back as 1000 times what they
-- were, if these are not negative and fit into 63 bits: a range, or one number if there is no greatest
-- one.
pub read-watch_time :
    (d : Deployment) (lo hi : ℕ)
    → d.spec.update_strategy.min_ready_seconds ≡ pos lo
    → d.spec.update_strategy.max_ready_seconds ≡ pos hi
    → 1000 * lo < int_half
    → 1000 * hi < int_half
    → read_watch_time (watch_time d) ≡ (1000 * lo, if eqb hi 0 then none else some (1000 * hi))
unfolding watch_time
read-watch_time d lo hi e k l m =
    ap (λ x. read_watch_time (time x d.spec.update_strategy.max_ready_seconds)) e
    ∙ ap (λ x. read_watch_time (time (pos lo) x)) k
    ∙ read-time lo hi l m
