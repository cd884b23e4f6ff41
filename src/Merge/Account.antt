-- ===== src/Merge/Account.antt =====
-- src/db/merge/merge.cc: the account of keys that `check_key_count_matches` asserts.
use hedge_db.Base.{◌<◌, ◌≡◌, ◌∙◌, ap, List, length, Bool, All, arith, some}
use hedge_db.Base.Status.{ok}
use hedge_db.Merge.Run.{Source, init_heap, total, MergeState, new_state, merge, key_count}
use hedge_db.Merge.Dedup.{take_all-key_count}
use hedge_db.Merge.Heap.{source_entries}
use hedge_db.Merge.Drain.{drain_heap-length, drain_heap-cons}
use hedge_db.Merge.Result.{IsReadable, merge-drained, length-init_heap}

-- Where the sources have an entry and every value can be read, the merge succeeds, and the entries
-- written, those dropped as duplicates and those dropped as deletions are as many as the sources have.
pub merge-key_count :
    (discard : Bool) (sources : List Source)
    → 0 < total sources
    → All (λ (s : Source). All IsReadable (source_entries s)) sources
    → (s' : MergeState) × ((merge discard sources ≡ ok (some s')) × (key_count s' ≡ total sources))
merge-key_count discard sources some_entry readable =
    let count = length-init_heap sources in
    let (x, (xs, e)) =
      drain_heap-cons (total sources) (init_heap sources) (omega (arith, count))
        (omega (arith, count, some_entry)) in
    let (s', (h, c)) = take_all-key_count discard xs x new_state in
    let all = drain_heap-length (total sources) (init_heap sources) (omega (arith, count)) in
    (
      s',
      (
        merge-drained discard sources x xs readable e ∙ ap ok h,
        omega (arith, c, count, all, ap length e),
      ),
    )
