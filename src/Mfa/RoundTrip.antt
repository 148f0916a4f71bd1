-- ===== src/Mfa/RoundTrip.antt =====
-- What `base32Decode` of src/modules/auth/mfaService.js reads of what `base32Encode` wrote.
use be_weavecarbon.Common.{
  ℕ, zero, suc, ◌+◌, ◌*◌, ◌/◌, ◌%◌, ◌^◌, ◌≤◌, ◌<◌, ◌≡◌, refl, ap, ◌∙◌, Bool, true, false, not,
  Option, none, some, List, [], ◌∷◌, ◌++◌, All, length, ◌==◌, ==_iff, arith, Bool-cases,
  if◌then◌else◌, inl, inr,
}
use be_weavecarbon.Mfa.Base32.{
  alphabet, char_at, index_of, binary, digit, parse, byte_bits, characters, base32_encode, upper,
  strip_one, strip_padding, character_bits, bytes_of, base32_decode,
}
use native.Mathlib.Numerals.{unary_clauses}

abbrev pub IsByte : ℕ → Type 0
IsByte b = b < 256

digit_bit : (n : ℕ) → digit (n % 2 == 1) ≡ n % 2
digit_bit n = ground arith

digit_le : (b : Bool) → digit b ≤ 1
digit_le true = omega arith
digit_le false = omega arith

bit_digit : (n : ℕ) (b : Bool) → ((2 * n + digit b) % 2 == 1) ≡ b
bit_digit n true = ground arith
bit_digit n false = ground arith

half : (n : ℕ) (b : Bool) → (2 * n + digit b) / 2 ≡ n
half n b = omega (arith, digit_le b)

power_suc : (w : ℕ) → 2 ^ suc w ≡ 2 * 2 ^ w
power_suc w = simp unary_clauses (omega arith)

-- Reading the digits of a number gives the number.
parse-binary :
    (w n value : ℕ) (rest : List Bool)
    → n < 2 ^ w
    → parse value (binary w n rest) ≡ parse (value * 2 ^ w + n) rest
parse-binary zero n value rest h = ap (λ v. parse v rest) (omega arith)
parse-binary (suc w) n value rest h =
    parse-binary w (n / 2) value ((n % 2 == 1) ∷ rest) (omega (arith, power_suc w))
    ∙ ap (λ v. parse v rest)
        (omega (arith, digit_bit n, power_suc w, ap (λ (t : ℕ). value * t) (power_suc w)))

zero_left : (n : ℕ) → 0 + n ≡ n
zero_left n = omega arith

suc_middle : (m n : ℕ) → suc m + n ≡ m + suc n
suc_middle m n = omega arith

-- Writing what digits were read gives the digits.
binary-parse :
    (bits : List Bool) (w value : ℕ) (rest : List Bool)
    → binary (length bits + w) (parse value bits) rest ≡ binary w value (bits ++ rest)
binary-parse [] w value rest = ap (λ n. binary n value rest) (zero_left w)
binary-parse (b ∷ bits) w value rest =
    ap (λ n. binary n (parse (2 * value + digit b) bits) rest) (suc_middle (length bits) w)
    ∙ (binary-parse bits (suc w) (2 * value + digit b) rest
        ∙ rw (half value b) (ap (λ d. binary w value (d ∷ bits ++ rest)) (bit_digit value b)))

-- A test of the first numbers, one after the other.
holds_to : (ℕ → Bool) → ℕ → Bool
holds_to test zero = true
holds_to test (suc last) = if test last then holds_to test last else false

holds_to-each : (test : ℕ → Bool) (k i : ℕ) → i < k → holds_to test k ≡ true → test i ≡ true
unfolding holds_to
holds_to-each test zero i below all = absurd (omega arith)
holds_to-each test (suc last) i below all = elim (Bool-cases (test last)) [
  | inr f ↦ absurd (ground (arith, f))
  | inl t ↦ ground (arith, t, holds_to-each test last i)
]

abbrev is_at : ℕ → Option ℕ → Bool
is_at i none = false
is_at i (some j) = j == i

is_at_sound : (i : ℕ) (o : Option ℕ) → is_at i o ≡ true → o ≡ some i
is_at_sound i none h = absurd (cc)
is_at_sound i (some j) h = ap some ((==_iff j i).0 h)

alphabet_table :
    holds_to (λ i. is_at i (index_of 0 (upper (char_at alphabet i)) alphabet)) 32 ≡ true
unfolding holds_to
alphabet_table = refl

padding_table : holds_to (λ i. not (char_at alphabet i == 61)) 32 ≡ true
unfolding holds_to
padding_table = refl

-- The character of a value below 32 is found there again, and is no padding.
index_of-char_at : (i : ℕ) → i < 32 → index_of 0 (upper (char_at alphabet i)) alphabet ≡ some i
index_of-char_at i h = is_at_sound i _ (holds_to-each _ 32 i h alphabet_table)

char_at-padding : (i : ℕ) → i < 32 → (char_at alphabet i == 61) ≡ false
char_at-padding i h = ground (arith, holds_to-each _ 32 i h padding_table)

-- What `characters` adds at the end to fill the last five digits.
filler : List Bool → List Bool
filler (a ∷ b ∷ c ∷ d ∷ e ∷ bits) = filler bits
filler [] = []
filler (a ∷ []) = false ∷ false ∷ false ∷ false ∷ []
filler (a ∷ b ∷ []) = false ∷ false ∷ false ∷ []
filler (a ∷ b ∷ c ∷ []) = false ∷ false ∷ []
filler (a ∷ b ∷ c ∷ d ∷ []) = false ∷ []

-- It is too short for a byte.
bytes_of-filler : (bits : List Bool) → bytes_of (filler bits) ≡ []
unfolding filler bytes_of
bytes_of-filler (a ∷ b ∷ c ∷ d ∷ e ∷ bits) = bytes_of-filler bits
bytes_of-filler [] = refl
bytes_of-filler (a ∷ []) = refl
bytes_of-filler (a ∷ b ∷ []) = refl
bytes_of-filler (a ∷ b ∷ c ∷ []) = refl
bytes_of-filler (a ∷ b ∷ c ∷ d ∷ []) = refl

five_bound : (a b c d e : Bool) → parse 0 (a ∷ b ∷ c ∷ d ∷ e ∷ []) < 32
five_bound a b c d e = omega (arith, digit_le a, digit_le b, digit_le c, digit_le d, digit_le e)

-- One character reads back as its five digits.
character_bits-five :
    (a b c d e : Bool) (text : List ℕ) (bits : List Bool)
    → character_bits text ≡ some bits
    → character_bits (char_at alphabet (parse 0 (a ∷ b ∷ c ∷ d ∷ e ∷ [])) ∷ text)
      ≡ some (a ∷ b ∷ c ∷ d ∷ e ∷ bits)
unfolding character_bits
character_bits-five a b c d e text bits h =
    rw (index_of-char_at _ (five_bound a b c d e), h, character_bits)
      (ap some (binary-parse (a ∷ b ∷ c ∷ d ∷ e ∷ []) 0 0 bits))

character_bits-empty : character_bits [] ≡ some []
unfolding character_bits
character_bits-empty = refl

character_bits-characters :
    (bits : List Bool) → character_bits (characters bits) ≡ some (bits ++ filler bits)
unfolding characters filler
character_bits-characters (a ∷ b ∷ c ∷ d ∷ e ∷ bits) =
    character_bits-five a b c d e _ _ (character_bits-characters bits)
character_bits-characters [] = character_bits-empty
character_bits-characters (a ∷ []) =
    character_bits-five a false false false false [] [] character_bits-empty
character_bits-characters (a ∷ b ∷ []) =
    character_bits-five a b false false false [] [] character_bits-empty
character_bits-characters (a ∷ b ∷ c ∷ []) =
    character_bits-five a b c false false [] [] character_bits-empty
character_bits-characters (a ∷ b ∷ c ∷ d ∷ []) =
    character_bits-five a b c d false [] [] character_bits-empty

characters-IsUnpadded : (bits : List Bool) → All (λ c. (c == 61) ≡ false) (characters bits)
unfolding characters
characters-IsUnpadded (a ∷ b ∷ c ∷ d ∷ e ∷ bits) =
    (char_at-padding _ (five_bound a b c d e), characters-IsUnpadded bits)
characters-IsUnpadded [] = tt
characters-IsUnpadded (a ∷ []) = (char_at-padding _ (five_bound a false false false false), tt)
characters-IsUnpadded (a ∷ b ∷ []) = (char_at-padding _ (five_bound a b false false false), tt)
characters-IsUnpadded (a ∷ b ∷ c ∷ []) = (char_at-padding _ (five_bound a b c false false), tt)
characters-IsUnpadded (a ∷ b ∷ c ∷ d ∷ []) = (char_at-padding _ (five_bound a b c d false), tt)

strip_one-keeps : (c : ℕ) (text : List ℕ) → (c == 61) ≡ false → strip_one c text ≡ c ∷ text
strip_one-keeps c [] h = rw h refl
strip_one-keeps c (x ∷ text) h = refl

abbrev pub padding : ℕ → List ℕ
padding zero = []
padding (suc k) = 61 ∷ padding k

strip-padding_lem : (k : ℕ) → strip_padding (padding k) ≡ []
unfolding strip_padding
strip-padding_lem zero = refl
strip-padding_lem (suc k) = rw (strip-padding_lem k) refl

strip-unpadded :
    (text : List ℕ) (k : ℕ)
    → All (λ c. (c == 61) ≡ false) text
    → strip_padding (text ++ padding k) ≡ text
unfolding strip_padding
strip-unpadded [] k h = strip-padding_lem k
strip-unpadded (c ∷ text) k (p, h) = rw (strip-unpadded text k h) (strip_one-keeps c text p)

bytes_of-byte_bits :
    (bytes : List ℕ) (rest : List Bool)
    → All IsByte bytes
    → bytes_of rest ≡ []
    → bytes_of (byte_bits bytes ++ rest) ≡ bytes
unfolding bytes_of byte_bits
bytes_of-byte_bits [] rest h e = e
bytes_of-byte_bits (b ∷ bytes) rest (p, h) e =
    rw (bytes_of-byte_bits bytes rest h e)
      (ap (λ n. n ∷ bytes) (parse-binary 8 b 0 [] p ∙ omega arith))

-- Reading a text once its padding and its digits are known.
decode_text :
    (text stripped : List ℕ) (bits : List Bool)
    → strip_padding text ≡ stripped
    → character_bits stripped ≡ some bits
    → base32_decode text ≡ some (bytes_of bits)
unfolding base32_decode
decode_text text stripped bits e f = rw (e, f, base32_decode) refl

-- For every sequence of bytes and every number of padding characters behind its base 32 text, the
-- text reads back without an error as the same bytes.
pub base32_decode-encode :
    (bytes : List ℕ) (k : ℕ)
    → All IsByte bytes
    → base32_decode (base32_encode bytes ++ padding k) ≡ some bytes
unfolding base32_encode
base32_decode-encode bytes k h =
    decode_text _ _ _
      (strip-unpadded (characters (byte_bits bytes)) k (characters-IsUnpadded (byte_bits bytes)))
      (character_bits-characters (byte_bits bytes))
    ∙ ap some
        (bytes_of-byte_bits bytes (filler (byte_bits bytes)) h (bytes_of-filler (byte_bits bytes)))
