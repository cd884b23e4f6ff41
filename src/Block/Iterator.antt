-- ===== src/Block/Iterator.antt =====
-- src/db/block.h and src/db/block.cc: `block_iterator`. The head is the memory from `_head` on. Each
-- read takes what the bytes say; reading behind the block has no meaning in the source.
use hedge_db.Base.{
  ℕ, zero, suc, ◌+◌, ◌-◌, List, [], ◌∷◌, ◌++◌, take, drop, Bool, ltb, leb, ◌==◌, ◌||◌,
  if◌then◌else◌, bit_and,
}
use hedge_db.Base.Status.{Expected, ok, err}
use hedge_db.Key.{Key, decode_key_size}
use hedge_db.Varint.{try_decode_varint, max_varint_length_32}

pub record BlockIterator : Type 0 where
  pub head : List ℕ
  pub kv_idx : ℕ
  pub starting_kv_idx : ℕ
  pub kvs_in_block_count : ℕ
  pub restart_group_size : ℕ
  pub key : Key
  pub value : List ℕ

abbrev pub size_or_zero : Expected (ℕ × ℕ) → ℕ × ℕ
size_or_zero (ok r) = r
size_or_zero (err e) = (0, 0)

-- The value's size and the bytes that it took. The source asserts that there is one.
unfoldable pub decoded_value_size : List ℕ → ℕ × ℕ
decoded_value_size head = size_or_zero (try_decode_varint (take max_varint_length_32 head))

abbrev pub take_value : Key → List ℕ → BlockIterator → ℕ × ℕ → BlockIterator
take_value key head it (value_size, size_of_varint) = record it {
  key = key;
  value = take value_size (drop size_of_varint head);
  head = drop value_size (drop size_of_varint head);
}

-- The common end of both kinds of entry: the value's size and the value.
unfoldable pub read_value : Key → List ℕ → BlockIterator → BlockIterator
read_value key head it = take_value key head it (decoded_value_size head)

abbrev pub first_byte : List ℕ → ℕ
first_byte [] = 0
first_byte (b ∷ bs) = b

unfoldable pub read_restart_key : BlockIterator → BlockIterator
read_restart_key it =
    let key_size = decode_key_size (first_byte it.head) in
    let at_key = drop 1 it.head in read_value (take key_size at_key) (drop key_size at_key) it

unfoldable pub resize : ℕ → Key → Key
resize zero k = []
resize (suc n) [] = 0 ∷ resize n []
resize (suc n) (b ∷ k) = b ∷ resize n k

unfoldable pub read_delta_key : BlockIterator → BlockIterator
read_delta_key it =
    let shared = first_byte it.head in
    let delta = first_byte (drop 1 it.head) in
    let at_key = drop 2 it.head in
    read_value (resize shared it.key ++ take delta at_key) (drop delta at_key) it

-- `_read_next` and `operator++`.
unfoldable pub read_next : BlockIterator → BlockIterator
read_next it =
    let curr_idx = it.kv_idx in
    let it' = record it { kv_idx = it.kv_idx + 1 } in
    if leb it.kvs_in_block_count curr_idx
    then it'
    else if bit_and curr_idx (it.restart_group_size - 1) == 0
    then read_restart_key it'
    else read_delta_key it'

-- The constructor reads the first entry.
unfoldable pub block_iterator : List ℕ → ℕ → ℕ → ℕ → BlockIterator
block_iterator base starting_kv_idx kvs_in_block group_size = read_next (record {
  head = base;
  kv_idx = starting_kv_idx;
  starting_kv_idx = starting_kv_idx;
  kvs_in_block_count = kvs_in_block;
  restart_group_size = group_size;
  key = [];
  value = [];
})

-- `operator==` with each of the two sentinels.
unfoldable pub at_block_end : BlockIterator → Bool
at_block_end it = ltb it.kvs_in_block_count it.kv_idx

unfoldable pub at_group_end : BlockIterator → Bool
at_group_end it =
    ltb (it.starting_kv_idx + it.restart_group_size) it.kv_idx
    || ltb it.kvs_in_block_count it.kv_idx

-- `for(auto it = begin(); it != end(); ++it)`, with the entries that it meets.
unfoldable pub read_entries : ℕ → BlockIterator → List (Key × List ℕ)
read_entries zero it = []
read_entries (suc fuel) it =
    let rest = read_entries fuel (read_next it) in
    if at_block_end it then [] else (it.key, it.value) ∷ rest
