-- ===== src/Base/Sorting/Laws.antt =====
-- Sorting keeps the items, and two lists of strings sort alike exactly if one is a reordering of the
-- other.
use mathlib.Core.List.{Perm, Permᴰ}
use mathlib.Core.List.Perm
use mathlib.Core.Logic.{∥∥₁_elim}
use Prim.Native.Nat.{suc}
use mathlib.Core.Path.{◌≡◌, refl, ◌∙◌}
use mathlib.Core.Logic.{◌⊎◌, inl, inr, ◌↔◌}
use mathlib.Core.Bool.{true}
use mathlib.Core.List.{List, [], ◌∷◌}
use native.Mathlib.Omega.{arith}
use native.Mathlib.Nat.{ℕ_set}
use boshv.Base.Tests.{Bool-cases}
use boshv.Base.Strings.{Str}
use boshv.Base.Lists.{length}
use boshv.Base.Sorting.{le_str, insert_string, sort_strings}

le_str_total : (a b : Str) → (le_str a b ≡ true) ⊎ (le_str b a ≡ true)
unfolding le_str
le_str_total [] b = inl refl
le_str_total (x ∷ a) [] = inr refl
le_str_total (x ∷ a) (y ∷ b) = ground (arith, le_str_total a b)

le_str_antisymm : (a b : Str) → le_str a b ≡ true → le_str b a ≡ true → a ≡ b
unfolding le_str
le_str_antisymm [] [] h k = refl
le_str_antisymm [] (y ∷ b) h k = ground arith
le_str_antisymm (x ∷ a) [] h k = ground arith
le_str_antisymm (x ∷ a) (y ∷ b) h k = ground (arith, le_str_antisymm a b)

le_str_trans : (a b c : Str) → le_str a b ≡ true → le_str b c ≡ true → le_str a c ≡ true
unfolding le_str
le_str_trans [] b c h k = refl
le_str_trans (x ∷ a) [] c h k = ground arith
le_str_trans (x ∷ a) (y ∷ b) [] h k = ground arith
le_str_trans (x ∷ a) (y ∷ b) (z ∷ c) h k = ground (arith, le_str_trans a b c)

insert_comm :
    (a b : Str) (l : List Str)
    → insert_string a (insert_string b l) ≡ insert_string b (insert_string a l)
unfolding insert_string
insert_comm a b [] = ground (arith, le_str_total a b, le_str_antisymm a b)
insert_comm a b (t ∷ ts) = ground (
  arith,
  le_str_total a b,
  le_str_antisymm a b,
  le_str_trans a b t,
  le_str_trans b a t,
  insert_comm a b ts,
)

insert-perm : (s : Str) (l : List Str) → Perm (insert_string s l) (s ∷ l)
unfolding insert_string
insert-perm s [] = Perm.refl (s ∷ [])
insert-perm s (t ∷ ts) = elim (Bool-cases (le_str s t)) [
  | inl h ↦ rw (h, insert_string) (Perm.refl (s ∷ t ∷ ts))
  | inr h ↦ rw (h, insert_string) (Perm.trans (Perm.cons t (insert-perm s ts)) (Perm.swap s t ts))
]

pub sort-perm : (l : List Str) → Perm (sort_strings l) l
unfolding sort_strings
sort-perm [] = Perm.nil
sort-perm (s ∷ l) = Perm.trans (insert-perm s (sort_strings l)) (Perm.cons s (sort-perm l))

sort-Permᴰ : {l m : List Str} → Permᴰ l m → sort_strings l ≡ sort_strings m
unfolding sort_strings
sort-Permᴰ Permᴰ.nil = refl
sort-Permᴰ (Permᴰ.cons e p) = cc (e, sort-Permᴰ p)
sort-Permᴰ (Permᴰ.swap {a} {b} {l = l} e k) = cc (e, k, insert_comm a b (sort_strings l))
sort-Permᴰ (Permᴰ.trans p q) = sort-Permᴰ p ∙ sort-Permᴰ q

strings-set : IsSet (List Str)
strings-set = hlevel ℕ_set

pub sort-eq_iff : (l m : List Str) → (sort_strings l ≡ sort_strings m) ↔ Perm l m
sort-eq_iff l m = (
  λ e. Perm.trans (Perm.symm (sort-perm l)) (rw e (sort-perm m)),
  λ p. ∥∥₁_elim p (strings-set _ _) sort-Permᴰ,
)

length-insert : (s : Str) (l : List Str) → length (insert_string s l) ≡ suc (length l)
unfolding insert_string
length-insert s [] = refl
length-insert s (t ∷ ts) = ground (arith, length-insert s ts)

pub length-sort : (l : List Str) → length (sort_strings l) ≡ length l
unfolding sort_strings
length-sort [] = refl
length-sort (s ∷ l) = omega (arith, length-insert s (sort_strings l), length-sort l)

-- Sorting a sorted list changes nothing.
pub sort-sort : (l : List Str) → sort_strings (sort_strings l) ≡ sort_strings l
sort-sort l = (sort-eq_iff (sort_strings l) l).1 (sort-perm l)
