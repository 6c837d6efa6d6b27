-- ===== src/Base/Patterns.antt =====
-- The regular expressions that the packages compile, as tests on bytes, and `hex.EncodeToString`.
use unlock_catalog_publisher.Base.{
  ℕ, ◌+◌, ◌-◌, ◌/◌, ◌%◌, ◌<◌, ◌≡◌, refl, Bool, true, false, ◌&&◌, ◌||◌, [], ◌∷◌, Bytes, arith, ltb,
  leb, eqb, if◌then◌else◌, length, all, not, ◌==◌,
}
use unlock_catalog_publisher.Base.Paths.Split.{is_name, no_slash}

unfoldable pub is_digit : ℕ → Bool
is_digit c = leb b'0' c && leb c b'9'

-- `[0-9a-f]`
unfoldable pub is_hex : ℕ → Bool
unfolding is_digit
is_hex c = is_digit c || (leb b'a' c && leb c b'f')

-- `[a-z0-9]`
is_alnum : ℕ → Bool
unfolding is_digit
is_alnum c = is_digit c || (leb b'a' c && leb c b'z')

-- `[a-z0-9-]`
is_id_byte : ℕ → Bool
unfolding is_alnum
is_id_byte c = is_alnum c || eqb c b'-'

-- Nothing, or the last byte is of `[a-z0-9]`.
ends_alnum : Bytes → Bool
ends_alnum [] = true
ends_alnum (c ∷ []) = is_alnum c
ends_alnum (c ∷ d ∷ rest) = ends_alnum (d ∷ rest)

-- `^[a-z0-9](?:[a-z0-9-]{0,61}[a-z0-9])?$`
unfoldable pub id_pattern : Bytes → Bool
unfolding is_id_byte is_alnum ends_alnum all
id_pattern [] = false
id_pattern (c ∷ rest) =
    is_alnum c && (all is_id_byte rest && (ends_alnum rest && leb (length rest) 62))

-- `^[0-9a-f]{64}$`
unfoldable pub digest_pattern : Bytes → Bool
unfolding is_hex all
digest_pattern s = eqb (length s) 64 && all is_hex s

-- `^[0-9]{20}$`
unfoldable pub version_directory_pattern : Bytes → Bool
unfolding is_digit all
version_directory_pattern s = eqb (length s) 20 && all is_digit s

-- The rest of a run of digits, up to the given byte, and then what follows that byte.
digits_more : ℕ → (Bytes → Bool) → Bytes → Bool
unfolding is_digit
digits_more stop next [] = false
digits_more stop next (c ∷ rest) = elim (eqb c stop) [
  | true ↦ next rest
  | false ↦ is_digit c && digits_more stop next rest
]

-- `[0-9]+`, the byte `stop`, and `next`.
digits_then : ℕ → (Bytes → Bool) → Bytes → Bool
unfolding digits_more
digits_then stop next [] = false
digits_then stop next (c ∷ rest) = is_digit c && digits_more stop next rest

-- `[0-9]+$`
digits_only : Bytes → Bool
unfolding is_digit all
digits_only s = not (eqb (length s) 0) && all is_digit s

-- `^[0-9]+\.[0-9]+\.[0-9]+$`
unfoldable pub version_pattern : Bytes → Bool
unfolding digits_then digits_only
version_pattern = digits_then b'.' (digits_then b'.' digits_only)

hex_digit : ℕ → ℕ
hex_digit n = if ltb n 10 then b'0' + n else b'a' + (n - 10)

-- `hex.EncodeToString`
unfoldable pub hex_encode : Bytes → Bytes
unfolding hex_digit
hex_encode [] = []
hex_encode (c ∷ s) = hex_digit (c / 16) ∷ hex_digit (c % 16) ∷ hex_encode s

-- A slice of `n` bytes, each below 256, as `sha256.Sum256` returns with `n = 32`.
abbrev pub IsSum : ℕ → Bytes → Type 0
IsSum n s = (length s ≡ n) × (all (λ c. ltb c 256) s ≡ true)

hex_digit-is_hex : (n : ℕ) → n < 16 → is_hex (hex_digit n) ≡ true
unfolding is_hex hex_digit
hex_digit-is_hex n h = ground arith

hex_encode-all : (s : Bytes) → all (λ c. ltb c 256) s ≡ true → all is_hex (hex_encode s) ≡ true
unfolding hex_encode all
hex_encode-all [] h = refl
hex_encode-all (c ∷ s) h =
    ground (arith, hex_digit-is_hex (c / 16), hex_digit-is_hex (c % 16), hex_encode-all s)

length-hex_encode : (s : Bytes) → length (hex_encode s) ≡ length s + length s
unfolding hex_encode
length-hex_encode [] = refl
length-hex_encode (c ∷ s) = omega (arith, length-hex_encode s)

-- The text of a digest of 32 bytes has the digest's pattern.
pub hex_encode-digest_pattern : (s : Bytes) → IsSum 32 s → digest_pattern (hex_encode s) ≡ true
unfolding digest_pattern
hex_encode-digest_pattern s h = ground (arith, length-hex_encode s, hex_encode-all s h.1)

id_bytes-no_slash : (s : Bytes) → all is_id_byte s ≡ true → no_slash s ≡ true
unfolding all is_id_byte is_alnum is_digit
id_bytes-no_slash [] h = refl
id_bytes-no_slash (c ∷ s) h = ground (arith, h, id_bytes-no_slash s (ground (arith, h)))

-- An ID is an element of a path.
pub id_pattern-is_name : (id : Bytes) → id_pattern id ≡ true → is_name id ≡ true
unfolding id_pattern all is_alnum is_digit ◌==◌
id_pattern-is_name [] h = absurd (cc)
id_pattern-is_name (c ∷ s) h = ground (arith, h, id_bytes-no_slash s (ground (arith, h)))
