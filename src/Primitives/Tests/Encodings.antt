-- ===== src/Primitives/Tests/Encodings.antt =====
-- Encodings at concrete bytes.
use quai_rust_sdk.Prelude.{ℕ, ◌≡◌, refl, arith, true, List, [], ◌∷◌, map, ok, ◌>>=◌}
use quai_rust_sdk.Primitives.Amount.{SignedUnits}
use quai_rust_sdk.Primitives.Encoding.{hexlify, get_bytes, lowercase}
use quai_rust_sdk.Primitives.Encoding.Hex.{AreBytes, get_bytes-hexlify, hexlify-get_bytes}
use quai_rust_sdk.Primitives.Twos.{to_twos, from_twos}
use quai_rust_sdk.Primitives.Twos.Encoded.{IsWidth, Represents, to_twos_iff}
use quai_rust_sdk.Primitives.Twos.Exact.{twos_iff}

abbrev some_bytes : List ℕ
some_bytes = 0 ∷ 175 ∷ 18 ∷ []

-- "0x00aF12"
abbrev mixed_text : List ℕ
mixed_text = 48 ∷ 120 ∷ 48 ∷ 48 ∷ 97 ∷ 70 ∷ 49 ∷ 50 ∷ []

get_bytes-hexlify_example : (hexlify some_bytes >>= get_bytes) ≡ ok some_bytes
get_bytes-hexlify_example =
    get_bytes-hexlify some_bytes (omega arith, (omega arith, (omega arith, tt))) (omega arith)

reads_mixed : get_bytes mixed_text ≡ ok some_bytes
unfolding get_bytes
reads_mixed = refl

hexlify-get_bytes_example :
    AreBytes some_bytes × (hexlify some_bytes ≡ ok (map lowercase mixed_text))
hexlify-get_bytes_example = hexlify-get_bytes mixed_text some_bytes reads_mixed

abbrev minus_two : SignedUnits
minus_two = record { negative = true; magnitude = 2 }

encoded_two : to_twos minus_two 8 ≡ ok 254
unfolding to_twos
encoded_two = refl

to_twos_iff_example : IsWidth 8 × Represents minus_two 8 254
to_twos_iff_example = (to_twos_iff minus_two 8 254 (λ _. omega arith)).0 encoded_two

twos_iff_example : from_twos 254 8 ≡ ok minus_two
twos_iff_example = (twos_iff minus_two 8 254 (λ _. omega arith) (omega arith)).0 encoded_two
