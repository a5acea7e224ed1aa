-- ===== src/Api/Base32.antt =====
-- `base32.HexEncoding` of the standard library without padding, in lower case: five bytes are eight
-- digits of five bits.
use boshv.Base.{ℕ, ◌+◌, ◌-◌, ◌*◌, ◌/◌, ◌%◌, ◌<◌, ◌≡◌, refl, List, [], ◌∷◌, map, arith}
use boshv.Base.{Str, str, ltb, leb, if◌then◌else◌, ◌&&◌}
use boshv.Base.Lists.{All}

unfoldable pub encode : Str → List ℕ
encode [] = []
encode (a ∷ []) = a / 8 ∷ (a % 8 * 4) ∷ []
encode (a ∷ b ∷ []) = a / 8 ∷ (a % 8 * 4 + b / 64) ∷ (b / 2 % 32) ∷ (b % 2 * 16) ∷ []
encode (a ∷ b ∷ c ∷ []) =
    a / 8 ∷ (a % 8 * 4 + b / 64) ∷ (b / 2 % 32) ∷ (b % 2 * 16 + c / 16) ∷ (c % 16 * 2) ∷ []
encode (a ∷ b ∷ c ∷ d ∷ []) =
    a / 8
    ∷ (a % 8 * 4 + b / 64)
    ∷ (b / 2 % 32)
    ∷ (b % 2 * 16 + c / 16)
    ∷ (c % 16 * 2 + d / 128)
    ∷ (d / 4 % 32)
    ∷ (d % 4 * 8)
    ∷ []
encode (a ∷ b ∷ c ∷ d ∷ e ∷ rest) =
    a / 8
    ∷ (a % 8 * 4 + b / 64)
    ∷ (b / 2 % 32)
    ∷ (b % 2 * 16 + c / 16)
    ∷ (c % 16 * 2 + d / 128)
    ∷ (d / 4 % 32)
    ∷ (d % 4 * 8 + e / 32)
    ∷ (e % 32)
    ∷ encode rest

-- "0123456789ABCDEFGHIJKLMNOPQRSTUV"
unfoldable pub hex_char : ℕ → ℕ
hex_char d = if ltb d 10 then b'0' + d else b'A' + (d - 10)

-- `strings.ToLower`, on ASCII
unfoldable pub lower : ℕ → ℕ
lower c = if leb b'A' c && leb c b'Z' then c + 32 else c

unfoldable pub encode_to_string : Str → Str
unfolding encode hex_char
encode_to_string s = map hex_char (encode s)

unfoldable pub to_lower : Str → Str
unfolding lower
to_lower s = map lower s

encode_test : to_lower (encode_to_string (str "foobar")) ≡ str "cpnmuoj1e8"
unfolding to_lower encode_to_string str
encode_test = refl

-- The inverse of `encode`.
decode : List ℕ → Str
decode (p ∷ q ∷ []) = (p * 8 + q / 4) ∷ []
decode (p ∷ q ∷ r ∷ s ∷ []) = (p * 8 + q / 4) ∷ (q % 4 * 64 + r * 2 + s / 16) ∷ []
decode (p ∷ q ∷ r ∷ s ∷ t ∷ []) =
    (p * 8 + q / 4) ∷ (q % 4 * 64 + r * 2 + s / 16) ∷ (s % 16 * 16 + t / 2) ∷ []
decode (p ∷ q ∷ r ∷ s ∷ t ∷ u ∷ v ∷ []) =
    (p * 8 + q / 4)
    ∷ (q % 4 * 64 + r * 2 + s / 16)
    ∷ (s % 16 * 16 + t / 2)
    ∷ (t % 2 * 128 + u * 4 + v / 8)
    ∷ []
decode (p ∷ q ∷ r ∷ s ∷ t ∷ u ∷ v ∷ w ∷ rest) =
    (p * 8 + q / 4)
    ∷ (q % 4 * 64 + r * 2 + s / 16)
    ∷ (s % 16 * 16 + t / 2)
    ∷ (t % 2 * 128 + u * 4 + v / 8)
    ∷ (v % 8 * 32 + w)
    ∷ decode rest
decode _ = []

abbrev pub Bytes : Str → Type 0
Bytes = All (λ (b : ℕ). b < 256)

decode-encode : (s : Str) → Bytes s → decode (encode s) ≡ s
unfolding decode encode
decode-encode [] h = refl
decode-encode (a ∷ []) h = ground arith
decode-encode (a ∷ b ∷ []) h = ground arith
decode-encode (a ∷ b ∷ c ∷ []) h = ground arith
decode-encode (a ∷ b ∷ c ∷ d ∷ []) h = ground arith
decode-encode (a ∷ b ∷ c ∷ d ∷ e ∷ rest) (ha, (hb, (hc, (hd, (he, hr))))) =
    ground (arith, decode-encode rest hr)

encode-digits : (s : Str) → Bytes s → All (λ (d : ℕ). d < 32) (encode s)
unfolding encode
encode-digits [] h = tt
encode-digits (a ∷ []) h = omega arith
encode-digits (a ∷ b ∷ []) h = omega arith
encode-digits (a ∷ b ∷ c ∷ []) h = omega arith
encode-digits (a ∷ b ∷ c ∷ d ∷ []) h = omega arith
encode-digits (a ∷ b ∷ c ∷ d ∷ e ∷ rest) (ha, (hb, (hc, (hd, (he, hr))))) =
    ground (arith, encode-digits rest hr)

unhex : ℕ → ℕ
unhex c = if ltb c b'a' then c - b'0' else c - b'a' + 10

unhex-lower : (d : ℕ) → d < 32 → unhex (lower (hex_char d)) ≡ d
unfolding unhex lower hex_char
unhex-lower d h = ground arith

map-unhex :
    (ds : List ℕ) → All (λ (d : ℕ). d < 32) ds → map unhex (map lower (map hex_char ds)) ≡ ds
map-unhex [] h = refl
map-unhex (d ∷ ds) h = cc (unhex-lower d h.0, map-unhex ds h.1)

-- The bytes that a lower-case encoding stands for.
unfoldable pub decode_lower : Str → Str
unfolding decode unhex
decode_lower s = decode (map unhex s)

-- Decoding undoes the encoding: nothing is lost in the digits, in their letters or in their case.
pub decode_lower-to_lower : (s : Str) → Bytes s → decode_lower (to_lower (encode_to_string s)) ≡ s
unfolding decode_lower to_lower encode_to_string
decode_lower-to_lower s h = rw (map-unhex (encode s) (encode-digits s h)) (decode-encode s h)
