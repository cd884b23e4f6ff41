-- ===== src/Varint.antt =====
-- src/db/varint.h: unsigned integers in groups of seven bits, lowest group first, with the top bit
-- set on every byte but the last.
pub mod Encode
pub mod Decode
use hedge_db.Base.{
  ℕ, zero, suc, ◌+◌, ◌*◌, ◌/◌, ◌%◌, ◌^◌, ◌≤◌, ◌<◌, bit_and, bit_or, List, [], ◌∷◌, arith, leb, ◌==◌,
  if◌then◌else◌, length,
}
use hedge_db.Base.Status.{Expected, ok, err, error}
use hedge_db.Base.Order.{lt_wf}
use mathlib.Core.Logic.{dite}
use mathlib.Core.WellFounded.{Acc}
use native.Mathlib.Decide.{dec_le, dec_lt}

abbrev pub max_varint_length_32 : ℕ
max_varint_length_32 = 5

abbrev pub max_varint_length_64 : ℕ
max_varint_length_64 = 10

abbrev pub value_mask : ℕ
value_mask = 0x7f

abbrev pub continuation_bit : ℕ
continuation_bit = 0x80

pub group_shrinks : (v : ℕ) → 128 ≤ v → v / 128 < v
group_shrinks v h = omega arith

-- The loop of `unsafe_varint`: the bytes that it stores from `ptr` on.
unfoldable pub unsafe_varint_loop : (value : ℕ) → Acc ◌<◌ value → List ℕ
unsafe_varint_loop value (Acc.intro _ smaller) =
    dite (dec_le continuation_bit value)
      (λ more.
        (bit_or value continuation_bit % 256)
        ∷ unsafe_varint_loop (value / 2 ^ 7) (smaller _ (group_shrinks value more)))
      (λ _. value % 256 ∷ [])

-- The bytes written; the pointer that is returned lies their number behind `ptr`.
unfoldable pub unsafe_varint : ℕ → List ℕ
unfolding unsafe_varint_loop lt_wf dec_le
unsafe_varint value = unsafe_varint_loop value (lt_wf.apply value)

pub half_shrinks : (v : ℕ) → 0 < v → v / 2 < v
half_shrinks v h = omega arith

-- std::bit_width: the number of binary digits.
unfoldable pub bit_width_loop : (value : ℕ) → Acc ◌<◌ value → ℕ
bit_width_loop value (Acc.intro _ smaller) =
    dite (dec_lt 0 value)
      (λ more. suc (bit_width_loop (value / 2) (smaller _ (half_shrinks value more)))) (λ _. 0)

unfoldable pub bit_width : ℕ → ℕ
unfolding bit_width_loop lt_wf dec_lt
bit_width value = bit_width_loop value (lt_wf.apply value)

unfoldable pub varint_length : ℕ → ℕ
unfolding bit_width
varint_length value = if value == 0 then 1 else (bit_width value + 6) / 7

-- The nine equal rounds of the fast path, `left` of them still to come. A read behind the span
-- is no error of the source: the path is taken on ten bytes or more.
unfoldable pub decode_fast : ℕ → ℕ → ℕ → List ℕ → ℕ → Expected (ℕ × ℕ)
decode_fast left shift val [] taken = err (error "out of bounds")
decode_fast zero shift val (b ∷ p) taken =
    if bit_and b continuation_bit == 0
    then ok (bit_or val (bit_and b 0x01 * 2 ^ 63 % 2 ^ 64), taken + 1)
    else err (error "too many bytes")
decode_fast (suc left) shift val (b ∷ p) taken =
    let val' = bit_or val (bit_and b value_mask * 2 ^ shift % 2 ^ 64) in
    let more = decode_fast left (shift + 7) val' p (taken + 1) in
    if bit_and b continuation_bit == 0 then ok (val', taken + 1) else more

-- The slow path: the loop over bytes with the continuation bit, the test for the end of the span
-- behind it, and the last byte.
unfoldable pub decode_slow : ℕ → ℕ → List ℕ → ℕ → Expected (ℕ × ℕ)
decode_slow shift val [] taken = err (error "too few bytes")
decode_slow shift val (b ∷ p) taken =
    let val' = bit_or val (bit_and b value_mask * 2 ^ shift % 2 ^ 64) in
    let more = decode_slow (shift + 7) val' p (taken + 1) in
    if bit_and b continuation_bit == 0
    then ok (bit_or val (b * 2 ^ shift % 2 ^ 64), taken + 1)
    else more

-- The value, and the number of bytes that it took.
unfoldable pub try_decode_varint : List ℕ → Expected (ℕ × ℕ)
unfolding decode_fast decode_slow
try_decode_varint span =
    if leb max_varint_length_64 (length span)
    then decode_fast 9 0 0 span 0
    else decode_slow 0 0 span 0
