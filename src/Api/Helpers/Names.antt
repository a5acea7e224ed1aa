-- ===== src/Api/Helpers/Names.antt =====
-- Texts with separators: `standardName` of api/v1/helpers.go, and names joined by dashes.
use mathlib.Core.List.{append_assoc, append_cancel_left}
use boshv.Base.{ℕ, ◌≡◌, ◌≢◌, ap, sym, ◌∙◌, [], ◌∷◌, ◌++◌, Str, str, join, arith}
use boshv.Base.Lists.{All}
use boshv.Api.Base32.{Bytes, decode_lower, decode_lower-to_lower}
use boshv.Api.Helpers.{standard_name}

-- The byte does not occur.
abbrev pub Without : ℕ → Str → Type 0
Without c = All (λ (b : ℕ). b ≢ c)

-- A text with one separator splits in one way.
pub split_unique :
    (c : ℕ) (a a' b b' : Str)
    → Without c a
    → Without c a'
    → a ++ c ∷ b ≡ a' ++ c ∷ b'
    → (a ≡ a') × (b ≡ b')
split_unique c [] [] b b' h h' e = ground arith
split_unique c [] (y ∷ a') b b' h h' e = ground arith
split_unique c (x ∷ a) [] b b' h h' e = ground arith
split_unique c (x ∷ a) (y ∷ a') b b' h h' e = ground (arith, split_unique c a a' b b' h.1 h'.1)

Bytes-append : (a b : Str) → Bytes a → Bytes b → Bytes (a ++ b)
Bytes-append [] b h k = k
Bytes-append (x ∷ a) b h k = (h.0, Bytes-append a b h.1 k)

slash_joined : Str → Str → Str
slash_joined namespace name = namespace ++ b'/' ∷ name

decode-standard_name :
    (namespace name : Str)
    → Bytes namespace
    → Bytes name
    → decode_lower (standard_name namespace name) ≡ slash_joined namespace name
unfolding standard_name slash_joined join str
decode-standard_name namespace name h k =
    decode_lower-to_lower _ (Bytes-append namespace (b'/' ∷ name) h (omega arith, k))

-- Two pairs of texts without a slash have one standard name only if they are the same pair.
pub standard_name_injective :
    (namespace name namespace' name' : Str)
    → Bytes namespace
    → Bytes name
    → Bytes namespace'
    → Bytes name'
    → Without b'/' namespace
    → Without b'/' namespace'
    → standard_name namespace name ≡ standard_name namespace' name'
    → (namespace ≡ namespace') × (name ≡ name')
unfolding slash_joined
standard_name_injective namespace name namespace' name' h k h' k' s s' e =
    split_unique b'/' namespace namespace' name name' s s' (
      sym (decode-standard_name namespace name h k)
      ∙ ap decode_lower e
      ∙ decode-standard_name namespace' name' h' k')

-- The names in BOSH of the kinds: a word for the kind, the namespace and the name.
abbrev pub dashed : Str → Str → Str → Str
dashed kind namespace name = join (str "-") (kind ∷ namespace ∷ name ∷ [])

-- Where the namespace ends cannot be seen.
pub dashed_shift :
    (kind a b c : Str) → dashed kind (a ++ (str "-" ++ b)) c ≡ dashed kind a (b ++ (str "-" ++ c))
unfolding join
dashed_shift kind a b c = simp append_assoc

pub dashed_injective :
    (kind namespace name namespace' name' : Str)
    → Without b'-' namespace
    → Without b'-' namespace'
    → dashed kind namespace name ≡ dashed kind namespace' name'
    → (namespace ≡ namespace') × (name ≡ name')
unfolding join str
dashed_injective kind namespace name namespace' name' h h' e =
    split_unique b'-' namespace namespace' name name' h h'
      (append_cancel_left (str "-") _ _ (append_cancel_left kind _ _ e))

-- Two kinds whose words begin with different letters share no name.
pub dashed_kinds :
    (c c' : ℕ) (kind kind' namespace name namespace' name' : Str)
    → c ≢ c'
    → dashed (c ∷ kind) namespace name ≢ dashed (c' ∷ kind') namespace' name'
unfolding join
dashed_kinds c c' kind kind' namespace name namespace' name' h e = ground arith
