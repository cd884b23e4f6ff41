-- ===== src/Merge/Result.antt =====
-- src/db/merge/merge.cc: what the whole of `k_way_merge_async2`'s loop writes.
use hedge_db.Base.{
  ℕ, zero, suc, ◌<◌, ◌≡◌, refl, sym, ◌∙◌, ap, List, [], ◌∷◌, ◌++◌, length, length-append, Bool, All,
  arith, some, All-append,
}
use hedge_db.Base.Sort.{IsSorted}
use hedge_db.Base.Status.{ok}
use mathlib.Core.Path.{subst}
use mathlib.Core.List.{Mem, mem-cons_self, mem-cons_of_mem}
use hedge_db.Key.{Key}
use hedge_db.Value.{Value, value_from_span}
use hedge_db.Merge.Deduplicator.{MergeEntry, push, ready}
use hedge_db.Merge.Run.{
  Source, Slot, pops_before, pop_heap, refill, init_heap, total, MergeState, new_state, front_value,
  goes_on, take_entry, turns, merge_loop, finish, finished, merge,
}
use hedge_db.Merge.Dedup.{firsts_after, kept, take_all, take_all-firsts, waiting}
use hedge_db.Merge.Heap.{
  entries_from, source_entries, slot_entries, heap_entries, all_entries, SlotAll, pop_heap-All,
  refill-All, refill-entries,
}
use hedge_db.Merge.Drain.{
  Ordered, drain_heap, turns-take_all, refill-Ordered, drain_heap-All, drain_heap-back,
  drain_heap-cons, drain_heap-IsSorted,
}
use hedge_db.Merge.Newest.{
  Ascending, Covered, firsts_after-Covered, firsts_after-Ascending, firsts_after-All,
}

-- The value of an entry is the form of one.
abbrev pub IsReadable : MergeEntry → Type 0
IsReadable e = (v : Value) × (value_from_span e.value ≡ ok v)

front_value-ok :
    (epoch : ℕ) (rest : List (Key × List ℕ))
    → All IsReadable (entries_from epoch rest)
    → (v : Value) × (front_value rest ≡ ok v)
front_value-ok epoch [] h = (_, refl)
front_value-ok epoch ((k, b) ∷ rest) (h, hs) = h

merge_loop-turns :
    (discard : Bool) (fuel : ℕ) (heap : List Slot) (s : MergeState)
    → All (SlotAll IsReadable) heap
    → merge_loop discard fuel heap s ≡ ok (turns discard fuel heap s)
unfolding merge_loop turns
merge_loop-turns discard zero heap s h = refl
merge_loop-turns discard (suc fuel) [] s h = refl
merge_loop-turns discard (suc fuel) (slot ∷ heap) s (h, hs) =
    let r = pop_heap slot heap in
    let ((p, ps), rest) = pop_heap-All (SlotAll IsReadable) slot heap h hs in
    let (v, e) = front_value-ok r.0.source.epoch r.0.source.rest ps in
    ap (goes_on discard (merge_loop discard fuel) r s) e
    ∙ merge_loop-turns discard fuel (refill r.0.source r.1) (take_entry discard r.0.entry s)
        (refill-All IsReadable r.0.source r.1 ps rest)

init_heap-All {κ} :
    (P : MergeEntry → Type κ) (sources : List Source)
    → All (λ (s : Source). All P (source_entries s)) sources
    → All (SlotAll P) (init_heap sources)
unfolding init_heap
init_heap-All P [] h = tt
init_heap-All P (s ∷ ss) (h, hs) = refill-All P s (init_heap ss) h (init_heap-All P ss hs)

-- Each file's entries are in the order of the heap.
abbrev pub IsOrdered : Source → Type 0
IsOrdered s = IsSorted pops_before (source_entries s)

init_heap-Ordered :
    (sources : List Source) → All IsOrdered sources → All Ordered (init_heap sources)
unfolding init_heap
init_heap-Ordered [] h = tt
init_heap-Ordered (s ∷ ss) (h, hs) = refill-Ordered s (init_heap ss) h (init_heap-Ordered ss hs)

init_heap-entries : (sources : List Source) → heap_entries (init_heap sources) ≡ all_entries sources
unfolding init_heap
init_heap-entries [] = refl
init_heap-entries (s ∷ ss) =
    refill-entries s (init_heap ss)
    ∙ ap (λ (es : List MergeEntry). source_entries s ++ es) (init_heap-entries ss)

length-all_entries : (sources : List Source) → length (all_entries sources) ≡ total sources
unfolding total
length-all_entries [] = refl
length-all_entries (s ∷ ss) = omega (
  arith,
  length-append (source_entries s) (all_entries ss),
  length-all_entries ss,
  length-from s.epoch s.rest,
)
  where
    length-from :
        (epoch : ℕ) (rest : List (Key × List ℕ)) → length (entries_from epoch rest) ≡ length rest
    length-from epoch [] = refl
    length-from epoch ((k, v) ∷ rest) = ap suc (length-from epoch rest)

heap-All {κ} :
    (P : MergeEntry → Type κ) (heap : List Slot) → All (SlotAll P) heap → All P (heap_entries heap)
heap-All P [] h = tt
heap-All P (s ∷ ss) ((h, hs), k) =
    (h, All-append P (source_entries s.source) (heap_entries ss) hs (heap-All P ss k))

pub length-init_heap :
    (sources : List Source) → length (heap_entries (init_heap sources)) ≡ total sources
length-init_heap sources = ap length (init_heap-entries sources) ∙ length-all_entries sources

heap-back {κ} :
    (P : MergeEntry → Type κ) (heap : List Slot) → All P (heap_entries heap) → All (SlotAll P) heap
heap-back P [] h = tt
heap-back P (s ∷ ss) h =
    let (front, back) = split (slot_entries s) (heap_entries ss) h in (front, heap-back P ss back)
  where
    split : (xs ys : List MergeEntry) → All P (xs ++ ys) → All P xs × All P ys
    split [] ys h = (tt, h)
    split (x ∷ xs) ys (h, hs) = let (front, back) = split xs ys hs in ((h, front), back)

All-Mem :
    (es es' : List MergeEntry)
    → ((e : MergeEntry) → Mem e es → Mem e es')
    → All (λ (e : MergeEntry). Mem e es') es
All-Mem [] es' f = tt
All-Mem (e ∷ es) es' f = (f e mem-cons_self, All-Mem es es' (λ a m. f a (mem-cons_of_mem e m)))

-- What leaves the heap is an entry of a source.
drained-Mem :
    (fuel : ℕ) (sources : List Source)
    → All (λ (e : MergeEntry). Mem e (all_entries sources)) (drain_heap fuel (init_heap sources))
drained-Mem fuel sources =
    let P : MergeEntry → Type 0 = λ e. Mem e (all_entries sources) in
    drain_heap-All P fuel (init_heap sources) (
      heap-back P (init_heap sources) (
        subst (All P) (sym (init_heap-entries sources))
          (All-Mem (all_entries sources) (all_entries sources) (λ e m. m))))

first_turn :
    (discard : Bool) (x : MergeEntry) → take_entry discard x new_state ≡ waiting discard x new_state
unfolding take_entry push ready
first_turn discard x = refl

-- The loop takes the entries of the drained heap, and what is left goes to the file.
pub merge-drained :
    (discard : Bool) (sources : List Source) (x : MergeEntry) (xs : List MergeEntry)
    → All (λ (s : Source). All IsReadable (source_entries s)) sources
    → drain_heap (total sources) (init_heap sources) ≡ x ∷ xs
    → merge discard sources
      ≡ ok (finish discard (take_all discard xs (waiting discard x new_state)))
unfolding merge
merge-drained discard sources x xs readable e = ap (finished discard) (
    merge_loop-turns discard (total sources) (init_heap sources) new_state
      (init_heap-All IsReadable sources readable)
    ∙ ap ok (
        turns-take_all discard (total sources) (init_heap sources) new_state
        ∙ ap (λ (es : List MergeEntry). take_all discard es new_state) e
        ∙ ap (take_all discard xs) (first_turn discard x)))

-- What the merge of sources is to write: one entry of the greatest epoch for each key.
abbrev pub WritesNewest : Bool → List Source → Type 0
WritesNewest discard sources =
    (s' : MergeState) × ((ms : List MergeEntry) × ((merge discard sources ≡ ok (some s'))
        × ((s'.written ≡ kept discard ms)
            × (Ascending ms
                × (All (Covered ms) (all_entries sources)
                    × All (λ (m : MergeEntry). Mem m (all_entries sources)) ms)))))

-- Where the sources have an entry, each source's entries are in the order of the heap and every value
-- can be read, the merge succeeds. It writes the entries of a list with rising keys, less the
-- deletions where these are discarded; the list has only entries of the sources, and for each entry of
-- a source one of the same key whose epoch is not smaller.
pub merge-newest :
    (discard : Bool) (sources : List Source)
    → 0 < total sources
    → All IsOrdered sources
    → All (λ (s : Source). All IsReadable (source_entries s)) sources
    → WritesNewest discard sources
merge-newest discard sources some_entry ordered readable =
    let heap = init_heap sources in
    let n = total sources in
    let count = length-init_heap sources in
    let (x, (xs, e)) =
      drain_heap-cons n heap (omega (arith, count)) (omega (arith, count, some_entry)) in
    let (s', (h, w)) = take_all-firsts discard xs x new_state in
    let sorted : IsSorted pops_before (x ∷ xs) =
      subst (IsSorted pops_before) e
        (drain_heap-IsSorted n heap (init_heap-Ordered sources ordered)) in
    let ms = x ∷ firsts_after x.key xs in
    let covered : All (Covered ms) (drain_heap n heap) =
      subst (All (Covered ms)) (sym e) (firsts_after-Covered x xs sorted) in
    let (m, rest) : All (λ (a : MergeEntry). Mem a (all_entries sources)) (x ∷ xs) =
      subst (All (λ (a : MergeEntry). Mem a (all_entries sources))) e (drained-Mem n sources) in
    (
      s',
      (
        ms,
        (
          merge-drained discard sources x xs readable e ∙ ap ok h,
          (
            w,
            (
              firsts_after-Ascending x xs sorted,
              (
                subst (All (Covered ms)) (init_heap-entries sources) (
                    heap-All (Covered ms) heap
                      (drain_heap-back (Covered ms) n heap (omega (arith, count)) covered)),
                (
                  m,
                  firsts_after-All (λ (a : MergeEntry). Mem a (all_entries sources)) x.key xs rest,
                ),
              ),
            ),
          ),
        ),
      ),
    )
