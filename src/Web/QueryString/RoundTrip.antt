-- ===== src/Web/QueryString/RoundTrip.antt =====
-- Parsing undoes creation.
use barbacoa_server_lib.Prelude.{
  ℕ, ◌+◌, ◌-◌, ◌<◌, ◌≡◌, ◌∙◌, sym, refl, ap, true, false, List, [], ◌∷◌, ◌++◌, none, some, length,
  length-append, is_empty, ltb, lt→ltb, ◌==◌, if◌then◌else◌, substr, substr_end, substr-middle,
  substr_end-suffix, arith, append_assoc, append-nil, Bool-cases, inl, inr, ◌/◌, ◌%◌,
}
use barbacoa_server_lib.Web.Percent.{encode, decode, is_unreserved, hex_char}
use barbacoa_server_lib.Web.Percent.RoundTrip.{AllBytes, decode-encode}
use barbacoa_server_lib.Web.QueryString.{
  Field, create, create_from, Scan, step, scan, finish, parse,
}

-- Text without '&' and '='.
abbrev pub IsQuiet : List ℕ → Type 0
IsQuiet [] = Unit {0}
IsQuiet (c ∷ cs) = ((c == b'&') ≡ false) × ((c == b'=') ≡ false) × IsQuiet cs

-- Names with at least a character and no separator, and values of bytes.
abbrev pub AreFields : List Field → Type 0
AreFields [] = Unit {0}
AreFields ((name, value) ∷ fields) =
    (is_empty name ≡ false) × IsQuiet name × AllBytes value × AreFields fields

unreserved_quiet : (c : ℕ) → is_unreserved c ≡ true → ((c == b'&') ≡ false) × ((c == b'=') ≡ false)
unfolding is_unreserved
unreserved_quiet c h = ground arith

hex_char_quiet : (n : ℕ) → n < 16 → ((hex_char n == b'&') ≡ false) × ((hex_char n == b'=') ≡ false)
unfolding hex_char
hex_char_quiet n h = ground arith

encode-IsQuiet : (value : List ℕ) → AllBytes value → IsQuiet (encode value)
unfolding encode
encode-IsQuiet [] h = tt
encode-IsQuiet (c ∷ cs) h = elim (Bool-cases (is_unreserved c)) [
  | inl plain ↦ let (a, e) = unreserved_quiet c plain in rw plain (a, e, encode-IsQuiet cs h.1)
  | inr coded ↦
      let (a, e) = hex_char_quiet (c / 16) (omega arith) in
      let (a', e') = hex_char_quiet (c % 16) (omega arith) in
      rw coded (refl, refl, (a, e, (a', e', encode-IsQuiet cs h.1)))
]

-- Such text leaves the variables as they are.
scan-quiet :
    (q seg rest : List ℕ) (c : ℕ) (st : Scan)
    → IsQuiet seg
    → scan q (seg ++ rest) c st ≡ scan q rest (c + length seg) st
unfolding scan
scan-quiet q [] rest c st h = ap (λ k. scan q rest k st) (omega arith)
scan-quiet q (a ∷ seg) rest c st h =
    ap (scan q (seg ++ rest) (c + 1)) (skip a c h.0 h.1)
    ∙ scan-quiet q seg rest (c + 1) st h.2
    ∙ ap (λ k. scan q rest k st) (omega arith)
  where
    skip : (a c : ℕ) → (a == b'&') ≡ false → (a == b'=') ≡ false → step q a c st ≡ st
    skip a c x y = rw (x, y) refl

-- The variables at the start of a field.
abbrev at_field : ℕ → List Field → Scan
at_field c acc = record { name_pos = c; name_end_pos = none; value_pos = none; fields = acc }

-- One field up to the end of its value.
scan-field :
    (q name value rest : List ℕ) (c : ℕ) (acc : List Field)
    → IsQuiet name
    → AllBytes value
    → scan q (name ++ (b'=' ∷ (encode value ++ rest))) c (at_field c acc)
      ≡ scan q rest (c + length name + 1 + length (encode value)) (record (at_field c acc) {
        name_end_pos = some (c + length name);
        value_pos = some (c + length name + 1);
      })
unfolding scan
scan-field q name value rest c acc h k =
    scan-quiet q name (b'=' ∷ (encode value ++ rest)) c (at_field c acc) h
    ∙ scan-quiet q (encode value) rest (c + length name + 1) _ (encode-IsQuiet value k)

empty_of_length : (xs : List ℕ) → length xs ≡ 0 → xs ≡ []
empty_of_length [] h = refl
empty_of_length (x ∷ xs) h = absurd (omega arith)

-- A field within the text `q`: `pre`, name, '=', encoded value, `rest`.
module _ (q pre name value rest : List ℕ) (c : ℕ)
    (whole : q ≡ pre ++ (name ++ (b'=' ∷ (encode value ++ rest)))) (start : c ≡ length pre) where
  name_there : substr q c (c + length name - c) ≡ name
  name_there =
      substr-middle q pre name (b'=' ∷ (encode value ++ rest)) c (c + length name - c) whole start
        (omega arith)

  before_value : q ≡ ((pre ++ name) ++ (b'=' ∷ [])) ++ (encode value ++ rest)
  before_value =
      whole
      ∙ sym (append_assoc pre name (b'=' ∷ (encode value ++ rest)))
      ∙ sym (append_assoc (pre ++ name) (b'=' ∷ []) (encode value ++ rest))

  value_start : c + length name + 1 ≡ length ((pre ++ name) ++ (b'=' ∷ []))
  value_start =
      omega (arith, start, length-append {0} (pre ++ name) (b'=' ∷ []), length-append {0} pre name)

  value_there :
      substr q
        (c + length name + 1)
        (c + length name + 1 + length (encode value) - (c + length name + 1))
      ≡ encode value
  value_there =
      substr-middle q ((pre ++ name) ++ (b'=' ∷ [])) (encode value) rest _ _ before_value
        value_start (omega arith)

  length_whole : length q ≡ c + length name + 1 + length (encode value) + length rest
  length_whole =
      ap length before_value
      ∙ omega (
        arith,
        value_start,
        length-append {0} ((pre ++ name) ++ (b'=' ∷ [])) (encode value ++ rest),
        length-append {0} (encode value) rest,
      )

  -- The '&' behind it.
  step-separator :
      (acc : List Field)
      → is_empty name ≡ false
      → AllBytes value
      → step q b'&' (c + length name + 1 + length (encode value)) (record (at_field c acc) {
        name_end_pos = some (c + length name);
        value_pos = some (c + length name + 1);
      })
        ≡ at_field (c + length name + 1 + length (encode value) + 1) (acc ++ ((name, value) ∷ []))
  unfolding step
  step-separator acc named bytes =
      rw (name_there, named, value_there, decode-encode value bytes) refl

-- The last field.
finish-field :
    (q pre name value : List ℕ) (c : ℕ) (acc : List Field)
    → q ≡ pre ++ (name ++ (b'=' ∷ (encode value ++ [])))
    → c ≡ length pre
    → is_empty name ≡ false
    → AllBytes value
    → finish q (record (at_field c acc) {
      name_end_pos = some (c + length name);
      value_pos = some (c + length name + 1);
    })
      ≡ acc ++ ((name, value) ∷ [])
unfolding finish
finish-field q pre name value c acc whole start named bytes =
    let inside =
      lt→ltb c (length q) (omega (arith, length_whole q pre name value [] c whole start)) in
    rw (inside, name_there q pre name value [] c whole start, named)
      (ap (λ v. acc ++ ((name, decode v) ∷ [])) last ∙ rw (decode-encode value bytes) refl)
  where
    last :
        (if ltb (c + length name + 1) (length q) then substr_end q (c + length name + 1) else [])
        ≡ encode value
    last = elim (Bool-cases (ltb (c + length name + 1) (length q))) [
      | inl more ↦ rw more (
          substr_end-suffix q ((pre ++ name) ++ (b'=' ∷ [])) (encode value) _
            (before_value q pre name value [] c whole start ∙ rw (append-nil (encode value)) refl)
            (value_start q pre name value [] c whole start))
      | inr none_left ↦ rw none_left (
          sym (
            empty_of_length (encode value)
              (ground (arith, length_whole q pre name value [] c whole start))))
    ]

-- All fields from one on.
scan-fields :
    (fields : List Field) (q pre name value : List ℕ) (c : ℕ) (acc : List Field)
    → q ≡ pre ++ (name ++ (b'=' ∷ (encode value ++ create_from false fields)))
    → c ≡ length pre
    → is_empty name ≡ false
    → IsQuiet name
    → AllBytes value
    → AreFields fields
    → finish q
        (scan q (name ++ (b'=' ∷ (encode value ++ create_from false fields))) c (at_field c acc))
      ≡ acc ++ ((name, value) ∷ fields)
unfolding create_from scan step
scan-fields [] q pre name value c acc whole start named quiet bytes valid =
    ap (finish q) (scan-field q name value [] c acc quiet bytes)
    ∙ finish-field q pre name value c acc whole start named bytes
scan-fields ((name', value') ∷ fields) q pre name value c acc whole start named quiet bytes valid =
    ap (finish q) (scan-field q name value rest c acc quiet bytes ∙ flush)
    ∙ scan-fields fields q (((pre ++ name) ++ (b'=' ∷ [])) ++ (encode value ++ (b'&' ∷ []))) name'
        value' c' (acc ++ ((name, value) ∷ [])) whole' start' valid.0 valid.1 valid.2 valid.3
    ∙ append_assoc acc ((name, value) ∷ []) ((name', value') ∷ fields)
  where
    rest : List ℕ
    rest = create_from false ((name', value') ∷ fields)

    c' : ℕ
    c' = c + length name + 1 + length (encode value) + 1

    flush :
        scan q rest (c + length name + 1 + length (encode value)) (record (at_field c acc) {
          name_end_pos = some (c + length name);
          value_pos = some (c + length name + 1);
        })
        ≡ scan q
            (name' ++ (b'=' ∷ (encode value' ++ create_from false fields)))
            c'
            (at_field c' (acc ++ ((name, value) ∷ [])))
    flush =
        ap (scan q (name' ++ (b'=' ∷ (encode value' ++ create_from false fields))) c')
          (step-separator q pre name value rest c whole start acc named bytes)

    whole' :
        q
        ≡ (((pre ++ name) ++ (b'=' ∷ [])) ++ (encode value ++ (b'&' ∷ [])))
          ++ (name' ++ (b'=' ∷ (encode value' ++ create_from false fields)))
    whole' =
        before_value q pre name value rest c whole start
        ∙ sym (
            append_assoc ((pre ++ name) ++ (b'=' ∷ [])) (encode value ++ (b'&' ∷ [])) _
            ∙ rw (append_assoc (encode value) (b'&' ∷ [])) refl)

    start' : c' ≡ length (((pre ++ name) ++ (b'=' ∷ [])) ++ (encode value ++ (b'&' ∷ [])))
    start' = omega (
      arith,
      value_start q pre name value rest c whole start,
      length-append {0} ((pre ++ name) ++ (b'=' ∷ [])) (encode value ++ (b'&' ∷ [])),
      length-append {0} (encode value) (b'&' ∷ []),
    )

is_empty-append : (xs ys : List ℕ) → is_empty xs ≡ false → is_empty (xs ++ ys) ≡ false
is_empty-append [] ys h = cc
is_empty-append (x ∷ xs) ys h = refl

-- A query string that was created from fields is parsed into these fields: the names have at least
-- a character and no '&' or '=', and the values are any bytes.
pub parse-create : (fields : List Field) → AreFields fields → parse (create fields) ≡ fields
unfolding parse create create_from
parse-create [] h = refl
parse-create ((name, value) ∷ fields) h =
    rw (is_empty-append name (b'=' ∷ (encode value ++ create_from false fields)) h.0) (
      scan-fields fields (name ++ (b'=' ∷ (encode value ++ create_from false fields))) [] name value
        0 [] refl refl h.0 h.1 h.2 h.3)
