-- ===== src/Tests/OtherExamples.antt =====
-- src/db/varint.h, src/utils.h, src/db/arena_allocator.h, src/async/rw_sync.h, include/types.h and
-- include/key.h at concrete inputs.
use hedge_db.Base.{
  ◌↔◌, ℕ, ◌+◌, ◌*◌, ◌-◌, ◌<◌, ◌≤◌, ◌≡◌, ◌≢◌, refl, List, [], ◌∷◌, ◌++◌, true, arith, some,
}
use hedge_db.Base.Status.{ok}
use hedge_db.Varint.{unsafe_varint, try_decode_varint, varint_length}
use hedge_db.Varint.Decode.{
  try_decode_varint-unsafe_varint, try_decode_varint-first_end, first_end, count_of,
}
use hedge_db.Utils.{
  find_partition_prefix_for_key, find_partition_prefix_for_key-partition, extract_prefix,
  ceil_page_align, ceil_page_align-least, is_page_aligned,
}
use hedge_db.Arena.{Arena, allocate_many_impl, allocate_many_impl-Outcome, Outcome}
use hedge_db.RwSync.{
  RwSync, rw_sync, freeze_writes, Steps, stop, step, freezing, Drained, no_more, read_zero, writing,
}
use hedge_db.RwSync.Safety.{Drained-no_writer}
use hedge_db.RwSync.Shared.{shared-unsafe}
use hedge_db.Value.{ValuePtr, value_ptr_lt, value_ptr_lt-both, offset}
use hedge_db.Key.{read_key_unsafe, write_key_unsafe, read-write_key_unsafe, key_lt}
use hedge_db.Key.Order.{Before, key_lt_iff}

try_decode_varint-unsafe_varint_example :
    try_decode_varint (unsafe_varint 300 ++ 7 ∷ []) ≡ ok (300, varint_length 300)
try_decode_varint-unsafe_varint_example = try_decode_varint-unsafe_varint 300 (7 ∷ []) (omega arith)

try_decode_varint-first_end_example :
    count_of (try_decode_varint (0x80 ∷ 0x01 ∷ 7 ∷ [])) ≡ first_end 10 0 (0x80 ∷ 0x01 ∷ 7 ∷ [])
try_decode_varint-first_end_example = try_decode_varint-first_end (0x80 ∷ 0x01 ∷ 7 ∷ [])

abbrev some_key : List ℕ
some_key = 0x12 ∷ 0x34 ∷ 0x56 ∷ []

find_partition_prefix_for_key-partition_example :
    (i : ℕ) × ((i < 16)
      × ((find_partition_prefix_for_key some_key [] 4096 ≡ (i + 1) * 4096 - 1)
          × ((i * 4096 ≤ extract_prefix (some_key ++ []))
              × (extract_prefix (some_key ++ [])
                  ≤ find_partition_prefix_for_key some_key [] 4096))))
find_partition_prefix_for_key-partition_example =
    find_partition_prefix_for_key-partition some_key [] 16 4096 (omega arith)
      (unfold extract_prefix in omega arith)

ceil_page_align-least_example :
    (is_page_aligned (ceil_page_align 5000) ≡ true)
    × ((5000 ≤ ceil_page_align 5000) × (ceil_page_align 5000 < 5000 + 4096))
ceil_page_align-least_example = ceil_page_align-least 5000 (omega arith)

abbrev small_arena : Arena
small_arena = record {
  budget = 200;
  extent_size = 100;
  items_per_extent = 100;
  total_allocated = 100;
  curr_extent = some 0;
  current_slot_index = 90;
  extents = 1;
}

allocate_many_impl-Outcome_example : Outcome 16 small_arena (allocate_many_impl 16 small_arena)
allocate_many_impl-Outcome_example = allocate_many_impl-Outcome 16 small_arena record {
  last = λ e same. let first : 0 ≡ e = cc in omega arith;
  inside = omega arith;
  paid = omega arith;
  within = omega arith;
}

abbrev frozen : RwSync
frozen = freeze_writes rw_sync

Drained-no_writer_example : frozen.pcs 0 ≢ writing
unfolding freeze_writes
Drained-no_writer_example =
    Drained-no_writer (λ t. t) (λ t u same. same) (0 ∷ []) frozen frozen frozen
      (step (freezing rw_sync) (stop frozen)) refl
      (read_zero (stop frozen) refl (no_more (stop frozen))) (stop frozen) 0 0 refl

shared-unsafe_example :
    (s : RwSync) × (Steps (λ t. 0) rw_sync s
      × ((s.frozen ≡ true) × (Drained (λ t. 0) (0 ∷ []) s s × (s.pcs 1 ≡ writing))))
shared-unsafe_example = shared-unsafe (λ t. 0) 0 1 (omega arith) refl

abbrev newer_table : ValuePtr
newer_table = record { raw_offset = 1; size = 8; table_id = 2 }

abbrev greater_offset : ValuePtr
greater_offset = record { raw_offset = 9; size = 8; table_id = 1 }

value_ptr_lt-both_example :
    (value_ptr_lt newer_table greater_offset ≡ true)
    × (value_ptr_lt greater_offset newer_table ≡ true)
value_ptr_lt-both_example =
    value_ptr_lt-both newer_table greater_offset (omega arith) (unfold offset in omega arith)

read-write_key_unsafe_example :
    read_key_unsafe (write_key_unsafe (1 ∷ 2 ∷ []) ++ 9 ∷ []) ≡ 1 ∷ 2 ∷ []
read-write_key_unsafe_example =
    read-write_key_unsafe (1 ∷ 2 ∷ []) (9 ∷ []) (omega arith) (omega arith)

key_lt_iff_example : (key_lt (1 ∷ []) (1 ∷ 5 ∷ []) ≡ true) ↔ Before (1 ∷ []) (1 ∷ 5 ∷ [])
key_lt_iff_example = key_lt_iff (1 ∷ []) (1 ∷ 5 ∷ [])
