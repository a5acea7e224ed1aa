-- ===== src/Base/Strings.antt =====
-- A Go `string` is a sequence of bytes; `str` is the value of an ASCII literal.
use Prim.Native.Char.{code}
use Prim.Native.String.{String}
use Prim.Native.Nat.{ℕ}
use mathlib.Core.Path.{◌≡◌, refl}
use mathlib.Core.Logic.{ite}
use mathlib.Core.Bool.{Bool, true, false}
use mathlib.Core.List.{List, [], ◌∷◌, ◌++◌}
use native.Mathlib.Decide.{ℕ_discrete}

abbrev pub Str : Type 0
Str = List ℕ

unfoldable pub str : String → Str
str String.[] = []
str (String.◌∷◌ c s) = code c ∷ str s

unfoldable pub str_discrete : Discrete Str
unfolding ℕ_discrete
str_discrete = hlevel ℕ_discrete

infix 50 ◌==◌ ◌!=◌
abbrev pub ◌==◌ : Str → Str → Bool
a == b = ite (str_discrete a b) true false

abbrev pub ◌!=◌ : Str → Str → Bool
a != b = ite (str_discrete a b) false true

-- `strings.Join`, whose arguments come in the other order.
unfoldable pub join : Str → List Str → Str
join sep [] = []
join sep (s ∷ []) = s
join sep (s ∷ t ∷ rest) = s ++ (sep ++ join sep (t ∷ rest))

join_test : join (str "-") (str "a" ∷ str "bc" ∷ str "d" ∷ []) ≡ str "a-bc-d"
unfolding join str
join_test = refl

eq_test : (str "abc" == str "abc") ≡ true
unfolding str_discrete str
eq_test = refl

ne_test : (str "abc" == str "abd") ≡ false
unfolding str_discrete str
ne_test = refl
