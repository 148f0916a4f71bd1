-- ===== src/Mfa/Base32.antt =====
-- `base32Encode` and `base32Decode` of src/modules/auth/mfaService.js, by which the secret of a
-- second factor is shown and read back. A text is the list of its character codes, all ASCII; a
-- string of binary digits is a list of Booleans.
use be_weavecarbon.Common.{
  ℕ, zero, suc, ◌+◌, ◌-◌, ◌*◌, ◌/◌, ◌%◌, Bool, true, false, ◌&&◌, Option, none, some, List, [], ◌∷◌,
  leb, ◌==◌, if◌then◌else◌,
}

-- `BASE32`: the letters from A to Z and the digits from 2 to 7.
abbrev pub alphabet : List ℕ
alphabet =
    65 ∷ 66 ∷ 67 ∷ 68 ∷ 69 ∷ 70 ∷ 71 ∷ 72 ∷ 73 ∷ 74 ∷ 75 ∷ 76 ∷ 77 ∷ 78 ∷ 79 ∷ 80 ∷ 81 ∷ 82 ∷ 83
    ∷ 84 ∷ 85 ∷ 86 ∷ 87 ∷ 88 ∷ 89 ∷ 90 ∷ 50 ∷ 51 ∷ 52 ∷ 53 ∷ 54 ∷ 55 ∷ []

-- `text[index]`, with 0 past the end.
abbrev pub char_at : List ℕ → ℕ → ℕ
char_at [] i = 0
char_at (c ∷ text) zero = c
char_at (c ∷ text) (suc i) = char_at text i

-- `text.indexOf(character)`, counted from `i`.
abbrev pub index_of : ℕ → ℕ → List ℕ → Option ℕ
index_of i c [] = none
index_of i c (x ∷ text) = let rest = index_of (suc i) c text in if x == c then some i else rest

-- `n.toString(2).padStart(w, '0')` for `n` below 2 ^ w, in front of `rest`.
abbrev pub binary : ℕ → ℕ → List Bool → List Bool
binary zero n rest = rest
binary (suc w) n rest = binary w (n / 2) ((n % 2 == 1) ∷ rest)

abbrev pub digit : Bool → ℕ
digit true = 1
digit false = 0

-- `parseInt(bits, 2)`, from the value of the digits before.
abbrev pub parse : ℕ → List Bool → ℕ
parse value [] = value
parse value (b ∷ bits) = parse (2 * value + digit b) bits

-- The digits of all bytes.
unfoldable pub byte_bits : List ℕ → List Bool
byte_bits [] = []
byte_bits (byte ∷ bytes) = binary 8 byte (byte_bits bytes)

-- One character per five digits, the last five filled with zeros.
unfoldable pub characters : List Bool → List ℕ
characters (a ∷ b ∷ c ∷ d ∷ e ∷ bits) =
    char_at alphabet (parse 0 (a ∷ b ∷ c ∷ d ∷ e ∷ [])) ∷ characters bits
characters [] = []
characters (a ∷ []) = char_at alphabet (parse 0 (a ∷ false ∷ false ∷ false ∷ false ∷ [])) ∷ []
characters (a ∷ b ∷ []) = char_at alphabet (parse 0 (a ∷ b ∷ false ∷ false ∷ false ∷ [])) ∷ []
characters (a ∷ b ∷ c ∷ []) = char_at alphabet (parse 0 (a ∷ b ∷ c ∷ false ∷ false ∷ [])) ∷ []
characters (a ∷ b ∷ c ∷ d ∷ []) = char_at alphabet (parse 0 (a ∷ b ∷ c ∷ d ∷ false ∷ [])) ∷ []

unfoldable pub base32_encode : List ℕ → List ℕ
base32_encode bytes = characters (byte_bits bytes)

-- `toUpperCase` on an ASCII character.
abbrev pub upper : ℕ → ℕ
upper c = if leb 97 c && leb c 122 then c - 32 else c

abbrev pub strip_one : ℕ → List ℕ → List ℕ
strip_one c [] = if c == 61 then [] else c ∷ []
strip_one c (x ∷ text) = c ∷ x ∷ text

-- `replace(/=+$/g, '')`
unfoldable pub strip_padding : List ℕ → List ℕ
strip_padding [] = []
strip_padding (c ∷ text) = strip_one c (strip_padding text)

-- The digits of all characters, or nothing when one is not of the alphabet.
unfoldable pub character_bits : List ℕ → Option (List Bool)
character_bits [] = some []
character_bits (c ∷ text) =
    let rest = character_bits text in
    elim (index_of 0 (upper c) alphabet) [
      | none ↦ none
      | some i ↦ elim rest [ none ↦ none | some bits ↦ some (binary 5 i bits) ]
    ]

-- One byte per eight digits; fewer at the end are dropped.
unfoldable pub bytes_of : List Bool → List ℕ
bytes_of (a ∷ b ∷ c ∷ d ∷ e ∷ f ∷ g ∷ h ∷ bits) =
    parse 0 (a ∷ b ∷ c ∷ d ∷ e ∷ f ∷ g ∷ h ∷ []) ∷ bytes_of bits
bytes_of _ = []

-- Nothing stands for the error `Invalid base32 secret.`
unfoldable pub base32_decode : List ℕ → Option (List ℕ)
base32_decode text = elim (character_bits (strip_padding text)) [
  | none ↦ none
  | some bits ↦ some (bytes_of bits)
]
