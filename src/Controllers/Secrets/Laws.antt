-- ===== src/Controllers/Secrets/Laws.antt =====
-- What `generateSecret` of controllers/helpers.go makes.
use boshv.Base.{
  ℕ, zero, suc, ◌<◌, ◌%◌, ◌≡◌, refl, Bool, true, ◌&&◌, ◌||◌, [], ◌∷◌, map, Str, str, Io, leb, arith,
  pure,
}
use boshv.Base.Lists.{length, All}
use boshv.Base.Outcome.{Ensures, after_bind}
use boshv.Controllers.Secrets.{byte_at, secret_char, generate_secret, alphabet}

-- A digit or a letter.
abbrev pub is_alphanumeric : ℕ → Bool
is_alphanumeric c =
    (leb b'0' c && leb c b'9') || ((leb b'A' c && leb c b'Z') || (leb b'a' c && leb c b'z'))

alphanumeric : Str → Bool
alphanumeric [] = true
alphanumeric (c ∷ s) = is_alphanumeric c && alphanumeric s

byte_at-alphanumeric :
    (s : Str) (i : ℕ) → alphanumeric s ≡ true → i < length s → is_alphanumeric (byte_at s i) ≡ true
unfolding alphanumeric byte_at
byte_at-alphanumeric [] i h lt = absurd (omega arith)
byte_at-alphanumeric (c ∷ s) zero h lt = ground arith
byte_at-alphanumeric (c ∷ s) (suc i) h lt = byte_at-alphanumeric s i (ground arith) (omega arith)

alphabet_table : alphanumeric alphabet ≡ true
unfolding alphanumeric str
alphabet_table = refl

length-alphabet : length alphabet ≡ 62
unfolding str
length-alphabet = refl

secret_char-alphanumeric : (b : ℕ) → is_alphanumeric (secret_char b) ≡ true
unfolding secret_char
secret_char-alphanumeric b =
    byte_at-alphanumeric alphabet (b % length alphabet) alphabet_table
      (rw length-alphabet (omega arith))

length-map : (f : ℕ → ℕ) (s : Str) → length (map f s) ≡ length s
length-map f [] = refl
length-map f (c ∷ s) = omega (arith, length-map f s)

All-secret_char : (s : Str) → All (λ c. is_alphanumeric c ≡ true) (map secret_char s)
All-secret_char [] = tt
All-secret_char (b ∷ s) = (secret_char-alphanumeric b, All-secret_char s)

-- If the random source fills the slice that it is given, a generated secret is 20 digits and letters.
pub generate_secret-shape :
    {W E : Type 0} (rand_read : ℕ → Io W E Str) (w : W)
    → Ensures (λ bytes _. length bytes ≡ 20) (λ _. Unit) (rand_read 20 w)
    → Ensures
        (λ s _. (length s ≡ 20) × All (λ c. is_alphanumeric c ≡ true) s)
        (λ _. Unit)
        (generate_secret rand_read w)
unfolding generate_secret
generate_secret-shape rand_read w h =
    after_bind _ (λ s _. (length s ≡ 20) × All (λ c. is_alphanumeric c ≡ true) s) _ (λ _. Unit)
      (rand_read 20) (λ bytes. pure (map secret_char bytes)) w h (λ w' u. u)
      (λ bytes w' e. (rw length-map e, All-secret_char bytes))
