-- ===== src/Web/Percent/RoundTrip.antt =====
-- Decoding undoes encoding.
use barbacoa_server_lib.Prelude.{
  ℕ, ◌<◌, ◌/◌, ◌%◌, ◌≡◌, ◌∙◌, refl, true, false, ◌||◌, some, List, [], ◌∷◌, ◌==◌, arith, Bool-cases,
  inl, inr,
}
use barbacoa_server_lib.Web.Percent.{
  is_unreserved, hex_char, hex_value, is_space, encode, decoded_chr, decode, plain_chr,
}

abbrev pub AllBytes : List ℕ → Type 0
AllBytes [] = Unit {0}
AllBytes (c ∷ cs) = (c < 256) × AllBytes cs

-- A digit is read back; it is no white space and no sign.
hex_value-hex_char : (n : ℕ) → n < 16 → hex_value (hex_char n) ≡ some n
unfolding hex_value hex_char
hex_value-hex_char n h = ground arith

hex_char-plain :
    (n : ℕ)
    → n < 16
    → ((is_space (hex_char n) || hex_char n == b'+') ≡ false) × ((hex_char n == b'-') ≡ false)
unfolding is_space hex_char
hex_char-plain n h = ground arith

high_digit : (c : ℕ) → c < 256 → c / 16 < 16
high_digit c h = omega arith

low_digit : (c : ℕ) → c % 16 < 16
low_digit c = omega arith

-- The two digits of a byte are read back.
pub decoded_chr-hex_char :
    (c : ℕ) → c < 256 → decoded_chr (hex_char (c / 16)) (hex_char (c % 16)) ≡ c
unfolding decoded_chr
decoded_chr-hex_char c h =
    rw
      (
        (hex_char-plain (c / 16) (high_digit c h)).0,
        (hex_char-plain (c / 16) (high_digit c h)).1,
        hex_value-hex_char (c / 16) (high_digit c h),
        hex_value-hex_char (c % 16) (low_digit c),
      )
      (omega arith)

decode-plain :
    (chr : ℕ) (rest : List ℕ)
    → (chr == b'%') ≡ false
    → decode (chr ∷ rest) ≡ plain_chr chr ∷ decode rest
unfolding decode
decode-plain chr [] h = refl
decode-plain chr (a ∷ []) h = refl
decode-plain chr (a ∷ b ∷ rest) h = rw h refl

unreserved_plain : (c : ℕ) → is_unreserved c ≡ true → ((c == b'%') ≡ false) × (plain_chr c ≡ c)
unfolding is_unreserved
unreserved_plain c h = ground arith

-- Every text of bytes is decoded from its encoding.
pub decode-encode : (value : List ℕ) → AllBytes value → decode (encode value) ≡ value
unfolding encode
decode-encode [] h = unfold decode in refl
decode-encode (c ∷ cs) h = elim (Bool-cases (is_unreserved c)) [
  | inl plain ↦
      let (not_percent, same) = unreserved_plain c plain in
      rw plain (decode-plain c (encode cs) not_percent ∙ rw (same, decode-encode cs h.1) refl)
  | inr coded ↦
      rw coded
        (decode_escaped (encode cs) ∙ rw (decoded_chr-hex_char c h.0, decode-encode cs h.1) refl)
]
  where
    decode_escaped :
        (rest : List ℕ)
        → decode (b'%' ∷ hex_char (c / 16) ∷ hex_char (c % 16) ∷ rest)
          ≡ decoded_chr (hex_char (c / 16)) (hex_char (c % 16)) ∷ decode rest
    decode_escaped rest = unfold decode in refl
