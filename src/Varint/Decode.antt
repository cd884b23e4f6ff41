-- ===== src/Varint/Decode.antt =====
-- src/db/varint.h: `try_decode_varint` reads back what `unsafe_varint` wrote, on both paths, and
-- never reads behind its span.
use hedge_db.Base.{
  ℕ, zero, suc, ◌+◌, ◌*◌, ◌/◌, ◌%◌, ◌^◌, ◌≤◌, ◌<◌, ◌≡◌, refl, sym, ◌∙◌, ap, List, [], ◌∷◌, ◌++◌,
  arith, length, inl, inr, bit_and, bit_or, Bool-cases, true, false, ◌==◌, ltb, if◌then◌else◌, leb,
  leb→le, leb→gt,
}
use hedge_db.Base.Bits.{and_top_bit, and_mask, or_shifted}
use hedge_db.Base.Status.{Expected, ok, err, error}
use hedge_db.Varint.{unsafe_varint, varint_length, decode_slow, decode_fast, try_decode_varint}
use hedge_db.Varint.Encode.{Groups, last, more, unsafe_varint-Groups, length-unsafe_varint}
use native.Mathlib.Nat.{mod-eq_of_lt}
use native.Mathlib.Numerals.{towards_suc}

-- Seven more bits on top of `shift` bits.
shift_seven : (s : ℕ) → 2 ^ (s + 7) ≡ 128 * 2 ^ s
shift_seven s = simp towards_suc (omega arith)

mul_mono : (a b c : ℕ) → a ≤ b → a * c ≤ b * c
mul_mono a b c h = grind arith

-- A group above the bits that are already there is added, if the whole still fits.
add_group :
    (val x shift : ℕ)
    → val < 2 ^ shift
    → val + x * 2 ^ shift < 2 ^ 64
    → bit_or val (x * 2 ^ shift % 2 ^ 64) ≡ val + x * 2 ^ shift
add_group val x shift h fits = rw (mod-eq_of_lt (below fits)) (or_shifted shift val x h)
  where
    below : val + x * 2 ^ shift < 2 ^ 64 → x * 2 ^ shift < 2 ^ 64
    below p = omega arith

module _ (v val shift : ℕ) (low : val < 2 ^ shift) (fits : val + v * 2 ^ shift < 2 ^ 64) where
  -- The lowest group of `v` and the rest, both above `shift`.
  split_group : val + v * 2 ^ shift ≡ (val + v % 128 * 2 ^ shift) + v / 128 * 2 ^ (shift + 7)
  split_group = omega (
    arith,
    ap (λ (t : ℕ). t * 2 ^ shift) (parts v),
    ap (λ (t : ℕ). v / 128 * t) (shift_seven shift),
  )
    where
      parts : (x : ℕ) → x ≡ x / 128 * 128 + x % 128
      parts x = omega arith

  next_low : val + v % 128 * 2 ^ shift < 2 ^ (shift + 7)
  next_low = omega (arith, shift_seven shift, mul_mono (v % 128) 127 (2 ^ shift) (omega arith))

  next_fits : (val + v % 128 * 2 ^ shift) + v / 128 * 2 ^ (shift + 7) < 2 ^ 64
  next_fits = omega (arith, split_group)

  group_fits : val + v % 128 * 2 ^ shift < 2 ^ 64
  group_fits = omega (arith, split_group)

-- What both paths do on a byte with the continuation bit, and on one without.
group_byte : (v : ℕ) → bit_and (v % 128 + 128) 0x7f ≡ v % 128
group_byte v = omega (arith, and_mask 7 (v % 128 + 128))

more_byte : (v : ℕ) → (bit_and (v % 128 + 128) 0x80 == 0) ≡ false
more_byte v = ground (arith, and_top_bit (v % 128 + 128))

last_byte : (v : ℕ) → v < 128 → (bit_and v 0x80 == 0) ≡ true
last_byte v h = ground (arith, and_top_bit v)

last_group : (v : ℕ) → v < 128 → bit_and v 0x7f ≡ v
last_group v h = omega (arith, and_mask 7 v)

ok_pair : {a a' b b' : ℕ} → a ≡ a' → b ≡ b' → ◌≡◌ {A = Expected (ℕ × ℕ)} (ok (a, b)) (ok (a', b'))
ok_pair p q = λ i. ok (p i, q i)

decode_slow-Groups :
    {v : ℕ} {bs : List ℕ}
    → Groups v bs
    → (val shift taken : ℕ) (rest : List ℕ) → val < 2 ^ shift
    → val + v * 2 ^ shift < 2 ^ 64
    → decode_slow shift val (bs ++ rest) taken ≡ ok (val + v * 2 ^ shift, taken + length bs)
unfolding decode_slow
decode_slow-Groups (last v h) val shift taken rest low fits =
    rw (last_byte v h, add_group val v shift low fits) refl
decode_slow-Groups (more v bs h g) val shift taken rest low fits =
    rw
      (
        more_byte v,
        group_byte v,
        add_group val (v % 128) shift low (group_fits v val shift low fits),
      )
      (decode_slow-Groups g _ (shift + 7) (taken + 1) rest (next_low v val shift low fits)
          (next_fits v val shift low fits)
        ∙ ok_pair (sym (split_group v val shift low fits)) (omega arith))

top_group :
    (v val : ℕ)
    → val < 2 ^ 63
    → val + v * 2 ^ 63 < 2 ^ 64
    → bit_or val (bit_and v 1 * 2 ^ 63 % 2 ^ 64) ≡ val + v * 2 ^ 63
top_group v val low fits = rw (and_mask 1 v, one_bit v (omega arith)) (add_group val v 63 low fits)
  where
    one_bit : (x : ℕ) → x < 2 → x % 2 ≡ x
    one_bit x h = omega arith

-- The tenth byte holds bit 63 alone.
decode_fast-Groups :
    {v : ℕ} {bs : List ℕ}
    → Groups v bs
    → (left val shift taken : ℕ) (rest : List ℕ) → shift + 7 * left ≡ 63
    → val < 2 ^ shift
    → val + v * 2 ^ shift < 2 ^ 64
    → decode_fast left shift val (bs ++ rest) taken ≡ ok (val + v * 2 ^ shift, taken + length bs)
unfolding decode_fast
decode_fast-Groups (last v h) zero val shift taken rest e low fits =
    rw (last_byte v h, at_63) (ap (λ (t : ℕ). ok (t, taken + 1)) (top_group v val low_63 fits_63))
  where
    at_63 : shift ≡ 63
    at_63 = omega arith

    low_63 : val < 2 ^ 63
    low_63 = rw at_63 at low

    fits_63 : val + v * 2 ^ 63 < 2 ^ 64
    fits_63 = rw at_63 at fits
decode_fast-Groups (last v h) (suc left) val shift taken rest e low fits =
    rw (last_byte v h, last_group v h, add_group val v shift low fits) refl
decode_fast-Groups (more v bs h g) zero val shift taken rest e low fits =
    absurd (omega (arith, fits_63))
  where
    at_63 : shift ≡ 63
    at_63 = omega arith

    fits_63 : val + v * 2 ^ 63 < 2 ^ 64
    fits_63 = rw at_63 at fits
decode_fast-Groups (more v bs h g) (suc left) val shift taken rest e low fits =
    rw
      (
        more_byte v,
        group_byte v,
        add_group val (v % 128) shift low (group_fits v val shift low fits),
      )
      (decode_fast-Groups g left _ (shift + 7) (taken + 1) rest (omega arith)
          (next_low v val shift low fits) (next_fits v val shift low fits)
        ∙ ok_pair (sym (split_group v val shift low fits)) (omega arith))

-- A 64-bit number is read back from the bytes written for it, whatever follows them, and the
-- count is that of `varint_length`.
pub try_decode_varint-unsafe_varint :
    (v : ℕ) (rest : List ℕ)
    → v < 2 ^ 64
    → try_decode_varint (unsafe_varint v ++ rest) ≡ ok (v, varint_length v)
unfolding try_decode_varint
try_decode_varint-unsafe_varint v rest h =
    elim (Bool-cases (leb 10 (length (unsafe_varint v ++ rest)))) [
      | inl long ↦ rw long (
          decode_fast-Groups (unsafe_varint-Groups v) 9 0 0 0 rest (omega arith) (omega arith)
            (omega arith)
          ∙ ok_pair (omega arith) (omega (arith, length-unsafe_varint v)))
      | inr short ↦ rw short (
          decode_slow-Groups (unsafe_varint-Groups v) 0 0 0 rest (omega arith) (omega arith)
          ∙ ok_pair (omega arith) (omega (arith, length-unsafe_varint v)))
    ]

-- The number of bytes up to the first of a span that is below 128, its continuation bit cleared, or the
-- error: none among the `left` bytes that may be read, or the span ends before one.
abbrev pub first_end : ℕ → ℕ → List ℕ → Expected ℕ
first_end zero taken p = err (error "too many bytes")
first_end (suc left) taken [] = err (error "too few bytes")
first_end (suc left) taken (b ∷ p) =
    let later = first_end left (taken + 1) p in
    if ltb (b % 2 ^ 8) 128 then ok (taken + 1) else later

-- The count that a decoder gives.
abbrev pub count_of : Expected (ℕ × ℕ) → Expected ℕ
count_of (ok (v, n)) = ok n
count_of (err e) = err e

below_128 : (b : ℕ) → (bit_and b 0x80 == 0) ≡ ltb (b % 2 ^ 8) 128
below_128 b = ground (arith, and_top_bit b)

decode_slow-first_end :
    (p : List ℕ) (left shift val taken : ℕ)
    → length p < left
    → count_of (decode_slow shift val p taken) ≡ first_end left taken p
unfolding decode_slow
decode_slow-first_end p zero shift val taken h = absurd (omega (arith, h))
decode_slow-first_end [] (suc left) shift val taken h = refl
decode_slow-first_end (b ∷ p) (suc left) shift val taken h =
    elim (Bool-cases (ltb (b % 2 ^ 8) 128)) [
      | inl end ↦ rw (below_128 b, end) refl
      | inr on ↦
          rw (below_128 b, on)
            (decode_slow-first_end p left (shift + 7) _ (taken + 1) (omega (arith, h)))
    ]

decode_fast-first_end :
    (left : ℕ) (p : List ℕ) (shift val taken : ℕ)
    → left < length p
    → count_of (decode_fast left shift val p taken) ≡ first_end (suc left) taken p
unfolding decode_fast
decode_fast-first_end left [] shift val taken h = absurd (omega (arith, h))
decode_fast-first_end zero (b ∷ p) shift val taken h = elim (Bool-cases (ltb (b % 2 ^ 8) 128)) [
  | inl end ↦ rw (below_128 b, end) refl
  | inr on ↦ rw (below_128 b, on) refl
]
decode_fast-first_end (suc left) (b ∷ p) shift val taken h =
    elim (Bool-cases (ltb (b % 2 ^ 8) 128)) [
      | inl end ↦ rw (below_128 b, end) refl
      | inr on ↦
          rw (below_128 b, on)
            (decode_fast-first_end left p (shift + 7) _ (taken + 1) (omega (arith, h)))
    ]

-- On any span both paths take the bytes up to the first without the continuation bit, and no more;
-- where none of ten bytes is one, the error is that they are too many, and where the span ends before
-- one and before ten bytes, that they are too few.
pub try_decode_varint-first_end :
    (span : List ℕ) → count_of (try_decode_varint span) ≡ first_end 10 0 span
unfolding try_decode_varint
try_decode_varint-first_end span = elim (Bool-cases (leb 10 (length span))) [
  | inl long ↦ rw long (decode_fast-first_end 9 span 0 0 0 (omega (arith, leb→le 10 _ long)))
  | inr short ↦ rw short (decode_slow-first_end span 10 0 0 0 (omega (arith, leb→gt 10 _ short)))
]
