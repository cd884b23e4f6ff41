-- ===== src/Tests/MergeExamples.antt =====
-- The merge at concrete sources: src/db/merge.
use hedge_db.Base.{◌≡◌, refl, List, [], ◌∷◌, true, arith, All, Option, some}
use hedge_db.Base.Status.{Expected, ok}
use hedge_db.Key.{Key, key_lt, key_eq, key_compare}
use hedge_db.Value.{in_place, tombstone, tagged, value_from_span, value_from_span-tagged}
use hedge_db.Merge.Deduplicator.{MergeEntry, push, ready, pop, force_pop}
use hedge_db.Merge.Run.{
  Source, pops_before, pop_heap, refill, init_heap, total, is_tombstone, write_item, take_entry,
  merge_loop, finish, merge, MergeState, max_element, key_count,
}
use hedge_db.Merge.Heap.{source_entries}
use hedge_db.Merge.Account.{merge-key_count}
use hedge_db.Merge.Epoch.{IsLeast, max_element-IsLeast}
use hedge_db.Merge.Result.{WritesNewest, IsReadable, merge-newest}

-- The newer file deletes the key 1 and has the key 2; the older one has the keys 1 and 3.
abbrev newer_file : Source
newer_file = record {
  epoch = 2;
  rest = (1 ∷ [], tagged tombstone) ∷ (2 ∷ [], tagged (in_place (5 ∷ []))) ∷ [];
}

abbrev older_file : Source
older_file = record {
  epoch = 1;
  rest = (1 ∷ [], tagged (in_place (7 ∷ []))) ∷ (3 ∷ [], tagged (in_place [])) ∷ [];
}

abbrev two_files : List Source
two_files = older_file ∷ newer_file ∷ []

two_files-IsReadable : All (λ (s : Source). All IsReadable (source_entries s)) two_files
two_files-IsReadable = (
  (
    (in_place (7 ∷ []), value_from_span-tagged (in_place (7 ∷ [])) tt),
    ((in_place [], value_from_span-tagged (in_place []) tt), tt),
  ),
  (
    (
      (tombstone, value_from_span-tagged tombstone tt),
      ((in_place (5 ∷ []), value_from_span-tagged (in_place (5 ∷ [])) tt), tt),
    ),
    tt,
  ),
)

merge-newest_example : WritesNewest true two_files
unfolding total pops_before key_eq key_lt key_compare
merge-newest_example =
    merge-newest true two_files (omega arith) (((refl, tt), (tt, tt)), (((refl, tt), (tt, tt)), tt))
      two_files-IsReadable

merge-key_count_example :
    (s' : MergeState) × ((merge true two_files ≡ ok (some s')) × (key_count s' ≡ total two_files))
unfolding total
merge-key_count_example = merge-key_count true two_files (omega arith) two_files-IsReadable

max_element-IsLeast_example : IsLeast (max_element 4 (9 ∷ 2 ∷ [])) (4 ∷ 9 ∷ 2 ∷ [])
max_element-IsLeast_example = max_element-IsLeast 4 (9 ∷ 2 ∷ [])

abbrev written_keys : List MergeEntry → List Key
written_keys [] = []
written_keys (e ∷ es) = e.key ∷ written_keys es

abbrev keys_of : Expected (Option MergeState) → List Key
keys_of (ok (some s)) = written_keys s.written
keys_of _ = []

-- The deletion goes, and the older entry of its key with it.
without_deletions : keys_of (merge true two_files) ≡ (2 ∷ []) ∷ (3 ∷ []) ∷ []
unfolding merge merge_loop init_heap total refill pop_heap pops_before key_eq key_lt key_compare
    take_entry push ready pop force_pop finish write_item is_tombstone value_from_span
without_deletions = refl
