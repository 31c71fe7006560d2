-- ===== src/Codec/Tests.antt =====
-- The codecs on concrete texts, and their theorems at concrete inputs.
use scrigno.Prelude.{◌≡◌, refl, arith, none, some, [], ◌∷◌}
use scrigno.Prelude.Bytes.{Bytes, codes}
use scrigno.Codec.{position}
use scrigno.Codec.Base64.{base64_encode, base64_decode}
use scrigno.Codec.Base64.RoundTrip.{base64_decode-encode}
use scrigno.Codec.Crockford.{crockford_encode, crockford_decode}
use scrigno.Codec.Crockford.RoundTrip.{crockford_decode-encode}

abbrev five : Bytes
five = 1 ∷ 2 ∷ 3 ∷ 4 ∷ 255 ∷ []

encode_man : base64_encode (codes "Man") ≡ codes "TWFu"
unfolding base64_encode
encode_man = refl

decode_rejects :
    (base64_decode (codes "a") ≡ none)
    × (base64_decode (codes "!!!!") ≡ none)
    × (base64_decode (codes "A=AA") ≡ none)
unfolding base64_decode position
decode_rejects = (refl, refl, refl)

-- Padding in the middle of a text is accepted at the end of a group.
decode_inner_padding : base64_decode (codes "AQ==Ag==") ≡ some (1 ∷ 2 ∷ [])
unfolding base64_decode position
decode_inner_padding = refl

crockford_lower_case : crockford_decode (codes "041061z") ≡ none
unfolding crockford_decode position
crockford_lower_case = refl

base64_decode-encode_example : base64_decode (base64_encode five) ≡ some five
base64_decode-encode_example = base64_decode-encode five (omega arith)

man_decoded : base64_decode (codes "TWFu") ≡ some (codes "Man")
unfolding base64_decode position
man_decoded = refl

crockford_decode-encode_example : crockford_decode (crockford_encode five) ≡ some five
crockford_decode-encode_example = crockford_decode-encode five (omega arith)
