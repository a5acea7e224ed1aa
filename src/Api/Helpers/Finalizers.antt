-- ===== src/Api/Helpers/Finalizers.antt =====
-- The finalizers of an object, by the loops of api/v1/helpers.go. Every kind adds and removes its own.
use boshv.Base.{
  Bool, true, false, not, ◌&&◌, ◌||◌, ◌≡◌, refl, ap, List, [], ◌∷◌, ◌++◌, Str, ◌==◌, if◌then◌else◌,
  arith,
}
use boshv.Api.Types.{Object, finalizers, set_finalizers}
use boshv.Api.Helpers.{contains_string, remove_string}

pub contains_string-append :
    (xs : List Str) (f g : Str)
    → contains_string (xs ++ f ∷ []) g ≡ (f == g || contains_string xs g)
unfolding contains_string
contains_string-append [] f g = ground arith
contains_string-append (x ∷ xs) f g = ground (arith, contains_string-append xs f g)

pub contains_string-remove_string :
    (xs : List Str) (f g : Str)
    → contains_string (remove_string xs f) g ≡ (not (f == g) && contains_string xs g)
unfolding contains_string remove_string
contains_string-remove_string [] f g = ground arith
contains_string-remove_string (x ∷ xs) f g = ground (arith, contains_string-remove_string xs f g)

remove_string-append :
    (xs : List Str) (f : Str) → remove_string (xs ++ f ∷ []) f ≡ remove_string xs f
unfolding remove_string
remove_string-append [] f = ground arith
remove_string-append (x ∷ xs) f = ground (arith, remove_string-append xs f)

remove_string_absent :
    (xs : List Str) (f : Str) → contains_string xs f ≡ false → remove_string xs f ≡ xs
unfolding remove_string contains_string
remove_string_absent [] f h = refl
remove_string_absent (x ∷ xs) f h = ground (arith, remove_string_absent xs f)

-- How `EnsureFinalizer` and `EnsureNoFinalizer` of a kind whose finalizer is `f` treat the object `o`
-- and any finalizer `g` that it may have.
abbrev pub Lifecycle :
    {S T : Type 0}
    → Str
    → (ensure ensure_no : Object S T → Bool × Object S T) → Object S T
    → Str
    → Type 0
Lifecycle f ensure ensure_no o g =
    ((ensure o).0 ≡ not (contains_string (finalizers o) f))
    × (contains_string (finalizers (ensure o).1) g ≡ (f == g || contains_string (finalizers o) g))
    × ((ensure_no o).0 ≡ contains_string (finalizers o) f)
    × (contains_string (finalizers (ensure_no o).1) g
        ≡ (not (f == g) && contains_string (finalizers o) g))
    × ((ensure_no (ensure o).1).1 ≡ (ensure_no o).1)
    × ((if contains_string (finalizers o) f then o else (ensure_no o).1) ≡ o)

module _ {S T : Type 0} (f : Str) where
  abbrev pub ensure : Object S T → Bool × Object S T
  ensure o = (not (contains_string (finalizers o) f), set_finalizers o (finalizers o ++ f ∷ []))

  abbrev pub ensure_no : Object S T → Bool × Object S T
  ensure_no o =
      (contains_string (finalizers o) f, set_finalizers o (remove_string (finalizers o) f))

  removed_absent :
      (o : Object S T) (b : Bool)
      → contains_string (finalizers o) f ≡ b
      → (if b then o else (ensure_no o).1) ≡ o
  removed_absent o true e = refl
  removed_absent o false e = ap (set_finalizers o) (remove_string_absent (finalizers o) f e)

  pub ensure-Lifecycle : (o : Object S T) (g : Str) → Lifecycle f ensure ensure_no o g
  ensure-Lifecycle o g = (
    refl,
    contains_string-append (finalizers o) f g,
    refl,
    contains_string-remove_string (finalizers o) f g,
    ap (set_finalizers o) (remove_string-append (finalizers o) f),
    removed_absent o (contains_string (finalizers o) f) refl,
  )
