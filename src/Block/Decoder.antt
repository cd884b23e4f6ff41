-- ===== src/Block/Decoder.antt =====
-- src/db/block.h and src/db/block.cc: `block_decoder`, over the memory of one block.
use hedge_db.Base.{ℕ, zero, suc, ◌+◌, ◌*◌, ◌-◌, List, [], ◌∷◌, take, drop, not, ◌==◌, if◌then◌else◌}
use hedge_db.Base.Status.{Status, ok, err, error}
use hedge_db.Bytes.{of_le}
use hedge_db.Key.{Key, decode_key_size, key_lt, key_eq}
use hedge_db.Block.Encoder.{
  BlockConfig, BlockFooter, size_of_block_footer, size_of_checksum, size_of_offset, checksum_of,
}
use hedge_db.Block.Iterator.{BlockIterator, block_iterator, read_next, at_group_end, first_byte}

pub record BlockDecoder : Type 0 where
  pub cfg : BlockConfig
  pub base : List ℕ
  pub footer : BlockFooter

-- The bytes `[from, from + n)` of the block.
abbrev pub slice : ℕ → ℕ → List ℕ → List ℕ
slice from n memory = take n (drop from memory)

-- `_read_footer`, where the base is not null.
unfoldable pub read_footer : BlockConfig → List ℕ → BlockFooter
read_footer cfg base =
    let at = cfg.block_size_in_bytes - size_of_block_footer in
    record {
      kv_count = of_le (slice at 2 base);
      block_type = of_le (slice (at + 2) 2 base);
      checksum = of_le (slice (at + 4) 4 base);
    }

-- The constructor and `reset`.
unfoldable pub block_decoder : List ℕ → BlockConfig → BlockDecoder
block_decoder base cfg = record { cfg = cfg; base = base; footer = read_footer cfg base }

unfoldable pub sanity_check : (List ℕ → ℕ → ℕ) → BlockDecoder → Status
sanity_check xxh64 d =
    let sum = checksum_of xxh64 d.base (d.cfg.block_size_in_bytes - size_of_checksum) in
    if not (sum == d.footer.checksum) then err (error "checksum mismatch sum: ") else ok tt

unfoldable pub begin : BlockDecoder → BlockIterator
begin d = block_iterator d.base 0 d.footer.kv_count d.cfg.restart_group_size

-- The restart offsets of the trailer, in the order in which they are stored.
unfoldable pub read_offsets : ℕ → List ℕ → List ℕ
read_offsets zero memory = []
read_offsets (suc n) memory = of_le (take 2 memory) ∷ read_offsets n (drop 2 memory)

unfoldable pub restart_offsets : BlockDecoder → List ℕ
restart_offsets d =
    let restart_count_at = d.cfg.block_size_in_bytes - size_of_block_footer - size_of_offset in
    let restart_count = of_le (slice restart_count_at 2 d.base) in
    read_offsets restart_count (drop (restart_count_at - restart_count * size_of_offset) d.base)

-- The key of a restart point.
unfoldable pub key_at : List ℕ → ℕ → Key
key_at base offset =
    let key_size = decode_key_size (first_byte (drop offset base)) in
    slice (offset + 1) key_size base

-- std::upper_bound of the restart offsets: how many stand before the first whose key is greater.
-- The standard asks for a range that the test partitions, and a block's restart keys ascend.
unfoldable pub upper_bound : List ℕ → Key → List ℕ → ℕ
upper_bound base key [] = 0
upper_bound base key (o ∷ os) =
    let more = upper_bound base key os in if key_lt key (key_at base o) then 0 else suc more

-- The loop over one restart group. An empty span says that the key is not there.
unfoldable pub find_in_group : ℕ → Key → BlockIterator → List ℕ
find_in_group zero key it = []
find_in_group (suc fuel) key it =
    let later = find_in_group fuel key (read_next it) in
    if at_group_end it then [] else if key_eq it.key key then it.value else later

-- The index `n` of the restart point before the upper bound, and its offset.
abbrev pub nth_offset : ℕ → List ℕ → ℕ
nth_offset n [] = 0
nth_offset zero (o ∷ os) = o
nth_offset (suc n) (o ∷ os) = nth_offset n os

abbrev pub find_from : BlockDecoder → Key → List ℕ → ℕ → List ℕ
find_from d key offsets zero = []
find_from d key offsets (suc n) = find_in_group (d.cfg.restart_group_size + 2) key (
    block_iterator (drop (nth_offset n offsets) d.base) (n * d.cfg.restart_group_size)
      d.footer.kv_count d.cfg.restart_group_size)

unfoldable pub find : Key → BlockDecoder → List ℕ
find key d =
    let offsets = restart_offsets d in find_from d key offsets (upper_bound d.base key offsets)
