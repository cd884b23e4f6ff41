-- ===== src/Block/Encoder.antt =====
-- src/db/block.h and src/db/block.cc: `block_encoder`. The block is the region from `_base` to its
-- end, and `_head` is the place where the region's written bytes stop; the bytes behind it are those
-- of the caller's buffer. Sizes are those of objects in memory, so their sums do not wrap.
use hedge_db.Base.{
  ℕ, suc, ◌+◌, ◌*◌, ◌-◌, ◌%◌, ◌^◌, List, [], ◌∷◌, ◌++◌, length, take, drop, Bool, true, false, not,
  ltb, ◌==◌, ◌||◌, if◌then◌else◌, bit_and,
}
use hedge_db.Base.Status.{Status, ok, err, error, error_code, buffer_full}
use hedge_db.Bytes.{to_le, Region, store, contents, seek}
use hedge_db.Key.{Key, encode_key_size}
use hedge_db.Varint.{unsafe_varint, varint_length}

abbrev pub block_checksum_seed : ℕ
block_checksum_seed = 0x9E3779B97F4A7C15

pub record BlockConfig : Type 0 where
  pub block_size_in_bytes : ℕ
  pub restart_group_size : ℕ

abbrev pub default_config : BlockConfig
default_config = record { block_size_in_bytes = 4096; restart_group_size = 4 }

-- uint16_t, uint16_t and uint32_t.
pub record BlockFooter : Type 0 where
  pub kv_count : ℕ
  pub block_type : ℕ
  pub checksum : ℕ

abbrev pub empty_footer : BlockFooter
empty_footer = record { kv_count = 0; block_type = 0; checksum = 0 }

abbrev pub size_of_block_footer : ℕ
size_of_block_footer = 8

abbrev pub size_of_checksum : ℕ
size_of_checksum = 4

abbrev pub size_of_offset : ℕ
size_of_offset = 2

abbrev pub max_key_len : ℕ
max_key_len = 256

pub record BlockEncoder : Type 0 where
  pub cfg : BlockConfig
  pub region : Region
  pub last_key : Key
  pub offsets : List ℕ
  pub bytes_written : ℕ
  pub kvs_count : ℕ
  pub restart_keys_written : ℕ
  pub committed : Bool
  pub footer : BlockFooter

-- The constructor, over the memory that `base` points to.
abbrev pub block_encoder : List ℕ → BlockConfig → BlockEncoder
block_encoder base cfg = record {
  cfg = cfg;
  region = record { done = []; free = base };
  last_key = [];
  offsets = [];
  bytes_written = size_of_block_footer + size_of_offset;
  kvs_count = 0;
  restart_keys_written = 0;
  committed = false;
  footer = empty_footer;
}

-- `reset`, over the memory that `new_base` points to.
abbrev pub reset : List ℕ → BlockEncoder → BlockEncoder
reset new_base e = record e {
  region = record { done = []; free = new_base };
  bytes_written = size_of_block_footer + size_of_offset;
  last_key = [];
  offsets = [];
  kvs_count = 0;
  restart_keys_written = 0;
  footer = empty_footer;
  committed = false;
}

unfoldable pub compute_shared_prefix_length : Key → Key → ℕ
compute_shared_prefix_length [] curr = 0
compute_shared_prefix_length (p ∷ prev) [] = 0
compute_shared_prefix_length (p ∷ prev) (c ∷ curr) =
    let rest = compute_shared_prefix_length prev curr in if c == p then suc rest else 0

-- The bytes of the restart offsets.
unfoldable pub offset_bytes : List ℕ → List ℕ
offset_bytes [] = []
offset_bytes (o ∷ os) = to_le 2 o ++ offset_bytes os

-- What a restart entry and a delta entry write.
abbrev pub restart_entry : Key → List ℕ → List ℕ
restart_entry key value =
    encode_key_size (length key) ∷ (key ++ (unsafe_varint (length value) ++ value))

abbrev pub delta_entry : ℕ → Key → List ℕ → List ℕ
delta_entry shared key value =
    (shared % 256)
    ∷ ((length key - shared) % 256)
    ∷ (drop shared key ++ (unsafe_varint (length value) ++ value))

-- The space that an entry needs, without the restart offset.
abbrev pub restart_space : Key → List ℕ → ℕ
restart_space key value = 1 + length key + varint_length (length value) + length value

abbrev pub delta_space : ℕ → Key → List ℕ → ℕ
delta_space shared key value =
    1 + 1 + (length key - shared) + varint_length (length value) + length value

-- The encoder when an entry has been written.
abbrev pub with_restart_key : Key → List ℕ → BlockEncoder → BlockEncoder
with_restart_key key value e = record e {
  last_key = key;
  restart_keys_written = e.restart_keys_written + 1;
  kvs_count = e.kvs_count + 1;
  bytes_written = e.bytes_written + (restart_space key value + size_of_offset);
  offsets = e.offsets ++ (length e.region.done % 2 ^ 16) ∷ [];
  region = store (restart_entry key value) e.region;
}

abbrev pub with_delta_key : ℕ → Key → List ℕ → BlockEncoder → BlockEncoder
with_delta_key shared key value e = record e {
  last_key = key;
  kvs_count = e.kvs_count + 1;
  bytes_written = e.bytes_written + delta_space shared key value;
  region = store (delta_entry shared key value) e.region;
}

-- XXH64 of third_party/xxh64.hpp, of some bytes with a seed.
module _ (xxh64 : List ℕ → ℕ → ℕ) where
  unfoldable pub checksum_of : List ℕ → ℕ → ℕ
  checksum_of start n = bit_and (xxh64 (take n start) block_checksum_seed) 0xffffffff % 2 ^ 32

  unfoldable pub commit : BlockEncoder → BlockEncoder
  commit e =
      let n = length e.offsets in
      let head =
        e.cfg.block_size_in_bytes - n * size_of_offset - size_of_offset - size_of_block_footer in
      let with_offsets = store (offset_bytes e.offsets) (seek head e.region) in
      let with_count = store (to_le 2 n) with_offsets in
      let footer' = record e.footer { kv_count = e.kvs_count % 2 ^ 16 } in
      let with_footer = store (to_le 2 footer'.kv_count ++ to_le 2 footer'.block_type) with_count in
      let sum = checksum_of (contents with_footer) (e.cfg.block_size_in_bytes - size_of_checksum) in
      record e { region = store (to_le 4 sum) with_footer; footer = footer'; committed = true }

  unfoldable pub push_as_restart_key : Key → List ℕ → BlockEncoder → BlockEncoder × Status
  push_as_restart_key key value e =
      if ltb e.cfg.block_size_in_bytes (e.bytes_written + restart_space key value + size_of_offset)
      then (commit e, err (error_code buffer_full))
      else (with_restart_key key value e, ok tt)

  unfoldable pub push_as_delta_key : Key → List ℕ → BlockEncoder → BlockEncoder × Status
  push_as_delta_key key value e =
      let shared = compute_shared_prefix_length e.last_key key in
      if ltb e.cfg.block_size_in_bytes (e.bytes_written + delta_space shared key value)
      then (commit e, err (error_code buffer_full))
      else (with_delta_key shared key value e, ok tt)

  unfoldable pub push : Key → List ℕ → BlockEncoder → BlockEncoder × Status
  push key value e =
      if ltb max_key_len (length key) || (length key == 0)
      then (e, err (error "invalid key size"))
      else if not (bit_and e.kvs_count (e.cfg.restart_group_size - 1) == 0)
      then push_as_delta_key key value e
      else push_as_restart_key key value e
