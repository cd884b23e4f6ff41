-- ===== src/Utils.antt =====
-- src/utils.h: rounding, page alignment and the partition of a key. The integers are of 64 bits.
use hedge_db.Base.{
  ℕ, ◌+◌, ◌-◌, ◌*◌, ◌/◌, ◌%◌, ◌^◌, ◌≤◌, ◌<◌, ◌≡◌, ap, ◌∙◌, arith, List, [], ◌∷◌, ◌++◌, bit_and,
  bit_or, Bool, true, ◌==◌, ==_iff,
}
use hedge_db.Base.Bits.{and_mask, and_high}
use native.Mathlib.Nat.{mul-one, mul-add-div, add-mul, div-lt_iff_lt-mul, div-add-mod', mod-lt}

abbrev pub page_size_in_bytes : ℕ
page_size_in_bytes = 4096

unfoldable pub ceil : ℕ → ℕ → ℕ
ceil value denominator = (value + denominator - 1) / denominator

-- `(value + target - 1) & ~(target - 1)`.
unfoldable pub round_up : ℕ → ℕ → ℕ
round_up value target = bit_and ((value + target - 1) % 2 ^ 64) (2 ^ 64 - 1 - (target - 1))

unfoldable pub ceil_page_align : ℕ → ℕ
unfolding round_up
ceil_page_align value = round_up value page_size_in_bytes

unfoldable pub floor_page_align : ℕ → ℕ
floor_page_align value = value / page_size_in_bytes * page_size_in_bytes

unfoldable pub is_page_aligned : ℕ → Bool
is_page_aligned value = value % page_size_in_bytes == 0

-- The first two bytes of the memory that starts with a key's bytes; it has more than two.
unfoldable pub extract_prefix : List ℕ → ℕ
extract_prefix [] = 0
extract_prefix (k₀ ∷ []) = k₀ * 2 ^ 8
extract_prefix (k₀ ∷ k₁ ∷ k) = bit_or k₁ (k₀ * 2 ^ 8)

-- The partition of a key, and of what stands behind its bytes in its memory: of a key of one byte, the
-- byte behind it is read, and nothing has written it.
unfoldable pub find_partition_prefix_for_key : List ℕ → List ℕ → ℕ → ℕ
unfolding extract_prefix
find_partition_prefix_for_key key behind partition_size =
    (extract_prefix (key ++ behind) + partition_size) / partition_size * partition_size - 1

-- Aligning to a page gives a multiple of the page's size that is not below the value and less than a
-- page above it, if the sum does not wrap.
pub ceil_page_align-least :
    (value : ℕ)
    → value + 4096 ≤ 2 ^ 64
    → (is_page_aligned (ceil_page_align value) ≡ true)
      × ((value ≤ ceil_page_align value) × (ceil_page_align value < value + 4096))
unfolding ceil_page_align is_page_aligned
ceil_page_align-least value h = (
  (==_iff (ceil_page_align value % 4096) 0).1 (omega (arith, rounded)),
  (omega (arith, rounded), omega (arith, rounded)),
)
  where
    rounded : round_up value 4096 ≡ (value + 4095) / 4096 * 4096
    rounded =
        ap (λ (x : ℕ). bit_and x (2 ^ 64 - 4096)) {y = value + 4095} (omega arith)
        ∙ omega
            (arith, and_high 12 (value + 4095) (2 ^ 52 - 1), and_mask 52 ((value + 4095) / 4096))

-- The key prefixes of a partition are those from its first to its identifier, and the identifier is
-- one of those that the manager has, whatever stands behind the key's bytes, where the partitions divide the 2^16 prefixes evenly.
pub find_partition_prefix_for_key-partition :
    (key behind : List ℕ) (n size : ℕ)
    → n * size ≡ 2 ^ 16
    → extract_prefix (key ++ behind) < 2 ^ 16
    → (i : ℕ) × ((i < n)
        × ((find_partition_prefix_for_key key behind size ≡ (i + 1) * size - 1)
            × ((i * size ≤ extract_prefix (key ++ behind))
                × (extract_prefix (key ++ behind)
                    ≤ find_partition_prefix_for_key key behind size))))
unfolding find_partition_prefix_for_key
find_partition_prefix_for_key-partition key behind n size whole small =
    let k = extract_prefix (key ++ behind) in
    let positive : 0 < size = grind arith in
    let next : (k + size) / size ≡ k / size + 1 =
      ap (λ (x : ℕ). x / size) (omega (arith, mul-one size))
      ∙ mul-add-div positive 1 k
      ∙ omega arith in
    let split : (k / size + 1) * size ≡ k / size * size + size =
      add-mul (k / size) 1 size ∙ omega arith in
    (
      k / size,
      (
        (div-lt_iff_lt-mul positive).1 (omega (arith, whole)),
        (
          ap (λ (q : ℕ). q * size - 1) next,
          (
            omega (arith, div-add-mod' k size),
            omega (
              arith,
              ap (λ (q : ℕ). q * size - 1) next,
              split,
              div-add-mod' k size,
              mod-lt k positive,
            ),
          ),
        ),
      ),
    )
