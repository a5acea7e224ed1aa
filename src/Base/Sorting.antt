-- ===== src/Base/Sorting.antt =====
-- `sort.StringSlice(xs).Sort()`: the strings in byte order. The standard library's algorithm is
-- not modelled; as equal strings cannot be told apart, every correct one gives this list.
pub mod Laws
use boshv.Base.Tests.{if◌then◌else◌, ltb, eqb}
use boshv.Base.Strings.{Str}
use mathlib.Core.Bool.{Bool, true, false, ◌&&◌, ◌||◌}
use mathlib.Core.List.{List, [], ◌∷◌}

-- `a <= b` on strings
unfoldable pub le_str : Str → Str → Bool
le_str [] b = true
le_str (x ∷ a) [] = false
le_str (x ∷ a) (y ∷ b) = ltb x y || (eqb x y && le_str a b)

unfoldable pub insert_string : Str → List Str → List Str
unfolding le_str
insert_string s [] = s ∷ []
insert_string s (t ∷ ts) = if le_str s t then s ∷ t ∷ ts else t ∷ insert_string s ts

unfoldable pub sort_strings : List Str → List Str
unfolding insert_string
sort_strings [] = []
sort_strings (s ∷ ss) = insert_string s (sort_strings ss)
