-- ===== src/Sst/Placed.antt =====
-- src/utils.h and src/db/index_ops.cc: where the memory behind a key does not change its partition.
use hedge_db.Base.{
  ℕ, zero, suc, ◌*◌, ◌/◌, ◌-◌, ◌+◌, ◌<◌, ◌⊎◌, ◌^◌, arith, if◌then◌else◌, ◌≤◌, ◌≡◌, refl, ◌∙◌, ap,
  ap₂, inl, inr, List, [], ◌∷◌, length, ◌==◌, All,
}
use hedge_db.Base.Bits.{or_shifted}
use hedge_db.Key.{Key}
use hedge_db.Memtable.Entry.{MemtableEntry}
use hedge_db.Utils.{find_partition_prefix_for_key, extract_prefix}
use hedge_db.Sst.Partitions.{PartitionRange, ranges_loop, partition_ranges_generator, partition_for}

-- The partition of a key, if it does not hang on the memory behind the key's bytes: the key has two
-- bytes, or one, where a partition has all prefixes with the same first byte.
abbrev pub IsPlaced : ℕ → Key → Type 0
IsPlaced exponent key = (2 ≤ length key) ⊎ ((length key ≡ 1) × (exponent ≤ 8))

-- The memory behind a key, as bytes.
abbrev pub IsMemory : List ℕ → Type 0
IsMemory = All (λ (b : ℕ). b < 2 ^ 8)

-- A partition of at least 2^8 prefixes has all those that start with the same byte.
same_part :
    (e k b : ℕ)
    → e ≤ 8
    → b < 2 ^ 8
    → (b + k * 2 ^ 8 + 2 ^ 16 / 2 ^ e) / (2 ^ 16 / 2 ^ e)
      ≡ (k * 2 ^ 8 + 2 ^ 16 / 2 ^ e) / (2 ^ 16 / 2 ^ e)
same_part zero k b h s = omega arith
same_part (suc zero) k b h s = omega arith
same_part (suc (suc zero)) k b h s = omega arith
same_part (suc (suc (suc zero))) k b h s = omega arith
same_part (suc (suc (suc (suc zero)))) k b h s = omega arith
same_part (suc (suc (suc (suc (suc zero))))) k b h s = omega arith
same_part (suc (suc (suc (suc (suc (suc zero)))))) k b h s = omega arith
same_part (suc (suc (suc (suc (suc (suc (suc zero))))))) k b h s = omega arith
same_part (suc (suc (suc (suc (suc (suc (suc (suc zero)))))))) k b h s = omega arith
same_part (suc (suc (suc (suc (suc (suc (suc (suc (suc e))))))))) k b h s = absurd (omega arith)

pub partition_for-behind :
    (exponent : ℕ) (behind : List ℕ) (key : Key)
    → IsPlaced exponent key
    → IsMemory behind
    → partition_for exponent behind key ≡ partition_for exponent [] key
unfolding find_partition_prefix_for_key extract_prefix
partition_for-behind exponent behind [] h bytes =
    absurd (elim h [ inl two ↦ omega (arith, two) | inr (one, few) ↦ omega (arith, one) ])
partition_for-behind exponent behind (k₀ ∷ k₁ ∷ k) h bytes = refl
partition_for-behind exponent [] (k₀ ∷ []) h bytes = refl
partition_for-behind exponent (b ∷ bs) (k₀ ∷ []) h (byte, bytes) =
    let size = 2 ^ 16 / 2 ^ exponent in
    let few : exponent ≤ 8 = elim h [
      | inl two ↦ absurd (omega (arith, two))
      | inr (one, few) ↦ few
    ] in
    ap (λ (p : ℕ). (p + size) / size * size - 1) (or_shifted 8 b k₀ byte)
    ∙ ap (λ (q : ℕ). q * size - 1) (same_part exponent k₀ b few byte)

ranges_loop-by_key :
    (f g : MemtableEntry → ℕ) (its : List MemtableEntry) (r : PartitionRange)
    → All (λ (it : MemtableEntry). f it ≡ g it) its
    → ranges_loop f r its ≡ ranges_loop g r its
unfolding ranges_loop
ranges_loop-by_key f g [] r h = refl
ranges_loop-by_key f g (it ∷ its) r (h, hs) = rw h (
    ap₂ (λ (same other : List PartitionRange). if g it == r.partition_id then same else r ∷ other)
      (ranges_loop-by_key f g its _ hs) (ranges_loop-by_key f g its _ hs))

pub partition_ranges-by_key :
    (f g : MemtableEntry → ℕ) (its : List MemtableEntry)
    → All (λ (it : MemtableEntry). f it ≡ g it) its
    → partition_ranges_generator f its ≡ partition_ranges_generator g its
unfolding partition_ranges_generator
partition_ranges-by_key f g [] h = refl
partition_ranges-by_key f g (it ∷ its) (h, hs) = rw h (ranges_loop-by_key f g (it ∷ its) _ (h, hs))
