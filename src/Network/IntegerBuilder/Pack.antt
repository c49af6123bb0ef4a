-- ===== src/Network/IntegerBuilder/Pack.antt =====
-- integer_builder::pack and impl::unpack (src/network/integer_builder.cpp): numbers in groups of
-- seven bits, low group first, the top bit of a byte set on all but the last.
use mathlib.Core.Logic.{dite}
use mathlib.Core.WellFounded.{Acc}
use native.Mathlib.Numerals.{towards_suc}
use native.Mathlib.Nat.{pow-suc}
use barbacoa_server_lib.Prelude.{
  ℕ, zero, suc, ◌+◌, ◌*◌, ◌/◌, ◌%◌, ◌^◌, ◌≤◌, ◌<◌, ◌≡◌, ◌≢◌, refl, ◌∙◌, List, [], ◌∷◌, ◌++◌, arith,
  dec_lt, ap, lt_wf, ltb, if◌then◌else◌, length,
}

-- The loop ends when `val >>= 7` leaves 0; `b |= ((val > 0) << 7)` sets a bit that is clear.
pack_acc : (val : ℕ) → Acc ◌<◌ val → List ℕ
pack_acc val (Acc.intro _ smaller) =
    dite (dec_lt 127 val)
      (λ more. (val % 128 + 128) ∷ pack_acc (val / 128) (smaller (val / 128) (omega arith)))
      (λ last. (val % 128) ∷ [])

unfoldable pub pack : ℕ → List ℕ
unfolding pack_acc lt_wf dec_lt
pack value = pack_acc value (lt_wf.apply value)

pack_acc_irrelevant : (n : ℕ) (v w : Acc ◌<◌ n) → pack_acc n v ≡ pack_acc n w
unfolding pack_acc
pack_acc_irrelevant n (Acc.intro _ f) (Acc.intro _ g) =
    grind
      (arith, λ (h : n / 128 < n). pack_acc_irrelevant (n / 128) (f (n / 128) h) (g (n / 128) h))

pack_acc_step :
    (n : ℕ) (w : Acc ◌<◌ n)
    → pack_acc n w ≡ (if ltb 127 n then (n % 128 + 128) ∷ pack (n / 128) else (n % 128) ∷ [])
unfolding pack pack_acc
pack_acc_step n (Acc.intro _ f) = grind (
  arith,
  λ (h : n / 128 < n). pack_acc_irrelevant (n / 128) (f (n / 128) h) (lt_wf.apply (n / 128)),
)

pub pack_lem :
    (n : ℕ) → pack n ≡ (if ltb 127 n then (n % 128 + 128) ∷ pack (n / 128) else (n % 128) ∷ [])
unfolding pack
pack_lem n = pack_acc_step n (lt_wf.apply n)

-- `incomplete` is the `return false`. `undefined_shift` is a shift of a 32-bit value by 32 or more.
pub data Unpacked : Type 0 where
  incomplete : Unpacked
  complete : ℕ → ℕ → Unpacked
  undefined_shift : Unpacked

-- The loop of `unpack` over what is left of `data`, with its variables `val`, `by` and `got`.
-- Before each round `val < 2 ^ by`, so that `|=` adds; `by` is a uint8_t, and stays below 39.
unfoldable pub unpack_from : List ℕ → ℕ → ℕ → ℕ → Unpacked
unpack_from [] val by got = incomplete
unpack_from (b ∷ bs) val by got =
    let val' = val + ((b % 128) * 2 ^ by) % 2 ^ 32 in
    let rest = unpack_from bs val' (by + 7) (got + 1) in
    if ltb by 32
    then (if ltb b 128 then complete (val' % 2 ^ 32) (got + 1) else rest)
    else undefined_shift

unfoldable pub unpack : List ℕ → Unpacked
unfolding unpack_from
unpack bytes = unpack_from bytes 0 0 0

unpack_from-append :
    (xs ys : List ℕ) (val by got : ℕ)
    → unpack_from xs val by got ≢ incomplete
    → unpack_from (xs ++ ys) val by got ≡ unpack_from xs val by got
unfolding unpack_from
unpack_from-append [] ys val by got h = absurd (h refl)
unpack_from-append (b ∷ xs) ys val by got h =
    ground
      (arith, unpack_from-append xs ys (val + ((b % 128) * 2 ^ by) % 2 ^ 32) (by + 7) (got + 1))

-- Once a number is decided, the bytes behind it change nothing.
pub unpack-append : (xs ys : List ℕ) → unpack xs ≢ incomplete → unpack (xs ++ ys) ≡ unpack xs
unfolding unpack
unpack-append xs ys h = unpack_from-append xs ys 0 0 0 h

unpack_from-got :
    (xs : List ℕ) (val by got : ℕ) {v g : ℕ}
    → unpack_from xs val by got ≡ complete v g
    → (got < g) × (g ≤ got + length xs)
unfolding unpack_from
unpack_from-got [] val by got {v} {g} h = cc
unpack_from-got (b ∷ xs) val by got {v} {g} h = ground (
  arith,
  unpack_from-got xs (val + ((b % 128) * 2 ^ by) % 2 ^ 32) (by + 7) (got + 1) {v = v} {g = g},
)

pub unpack-got : (xs : List ℕ) {v g : ℕ} → unpack xs ≡ complete v g → (0 < g) × (g ≤ length xs)
unfolding unpack
unpack-got xs h = omega (arith, unpack_from-got xs 0 0 0 h)

pow_seven : (by : ℕ) → 2 ^ (by + 7) ≡ 128 * 2 ^ by
pow_seven by = simp towards_suc (omega arith)

-- One round puts the low seven bits of `n` at their place.
round_value :
    (p n val : ℕ)
    → val + n * p < 2 ^ 32
    → (val + ((n % 128) * p) % 2 ^ 32 ≡ val + (n % 128) * p)
      × (val + (n % 128) * p + (n / 128) * (128 * p) ≡ val + n * p)
round_value p n val h =
    let split : (n % 128) * p + (n / 128) * (128 * p) ≡ n * p =
      omega (arith, ap (λ (t : ℕ). t * p) (whole n)) in
    (omega arith, omega arith)
  where
    whole : (n : ℕ) → n ≡ (n / 128) * 128 + n % 128
    whole n = omega arith

-- `unpack_from` reads back what `pack` wrote; `k` more rounds may follow this one.
unpack_from-pack :
    (k by n val got : ℕ) (rest : List ℕ)
    → by + 7 * k ≡ 28
    → n < 16 * 128 ^ k
    → val + n * 2 ^ by < 2 ^ 32
    → unpack_from (pack n ++ rest) val by got ≡ complete (val + n * 2 ^ by) (got + length (pack n))
unfolding unpack_from
unpack_from-pack zero by n val got rest e small h =
    rw (pack_lem n) (ground (arith, round_value (2 ^ by) n val))
unpack_from-pack (suc k) by n val got rest e small h = rw (pack_lem n) (
    ground (
      arith,
      round_value (2 ^ by) n val,
      pow_seven by,
      pow-suc 128 k,
      unpack_from-pack k (by + 7) (n / 128) (val + (n % 128) * 2 ^ by) (got + 1) rest,
    ))

-- A packed 32-bit number is read back, and its bytes are counted, whatever stands behind them.
pub unpack-pack :
    (n : ℕ) (rest : List ℕ) → n < 2 ^ 32 → unpack (pack n ++ rest) ≡ complete n (length (pack n))
unfolding unpack
unpack-pack n rest h = unpack_from-pack 4 0 n 0 0 rest refl h (omega arith) ∙ ground arith
