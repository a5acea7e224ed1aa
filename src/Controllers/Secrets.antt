-- ===== src/Controllers/Secrets.antt =====
-- `generateSecret` of controllers/helpers.go.
pub mod Laws
use boshv.Base.{ℕ, zero, suc, ◌%◌, [], ◌∷◌, map, Str, str, Io, pure, ◌>>=◌}
use boshv.Base.Lists.{length}

abbrev pub alphabet : Str
alphabet = str "0123456789ABCDEFGHIJKLMNOPQRSTUVWXYZabcdefghijklmnopqrstuvwxyz"

-- `s[i]`; the index is always in range, and there is no panic to model.
unfoldable pub byte_at : Str → ℕ → ℕ
byte_at [] i = 0
byte_at (c ∷ s) zero = c
byte_at (c ∷ s) (suc i) = byte_at s i

-- `alphabet[b%byte(len(alphabet))]`
unfoldable pub secret_char : ℕ → ℕ
unfolding byte_at
secret_char b = byte_at alphabet (b % length alphabet)

-- `rand_read n` is `rand.Read` on a slice of n bytes, and gives their new contents.
unfoldable pub generate_secret : {W E : Type 0} → (ℕ → Io W E Str) → Io W E Str
unfolding secret_char
generate_secret rand_read = do bytes ← rand_read 20; pure (map secret_char bytes)
