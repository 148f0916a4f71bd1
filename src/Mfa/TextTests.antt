-- ===== src/Mfa/TextTests.antt =====
-- Runs of the base 32 text of a secret.
use be_weavecarbon.Common.{ℕ, ◌≡◌, refl, some, List, [], ◌∷◌, ◌++◌, arith}
use be_weavecarbon.Mfa.Base32.{byte_bits, characters, base32_encode, base32_decode}
use be_weavecarbon.Mfa.RoundTrip.{padding, base32_decode-encode}

abbrev hello : List ℕ
hello = 104 ∷ 101 ∷ 108 ∷ 108 ∷ 111 ∷ 33 ∷ []

base32_decode-encode_example : base32_decode (base32_encode hello ++ padding 6) ≡ some hello
base32_decode-encode_example =
    base32_decode-encode hello 6
      (omega arith, (omega arith, (omega arith, (omega arith, (omega arith, (omega arith, tt))))))

-- `hello!` is `NBSWY3DPEE`.
hello_text : base32_encode hello ≡ 78 ∷ 66 ∷ 83 ∷ 87 ∷ 89 ∷ 51 ∷ 68 ∷ 80 ∷ 69 ∷ 69 ∷ []
unfolding base32_encode characters byte_bits
hello_text = refl
