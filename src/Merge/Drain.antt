-- ===== src/Merge/Drain.antt =====
-- src/db/merge/merge.cc: the order in which the entries leave the heap, a turn after the other.
use hedge_db.Base.{
  ℕ, zero, suc, ◌≤◌, ◌<◌, ◌≡◌, refl, List, [], ◌∷◌, length, Bool, false, All, arith,
}
use hedge_db.Base.Sort.{IsSorted}
use hedge_db.Key.{Key}
use hedge_db.Merge.Deduplicator.{MergeEntry}
use hedge_db.Merge.Run.{
  Source, Slot, pops_before, pop_heap, refill, refill_from, MergeState, take_entry, turns,
}
use hedge_db.Merge.Dedup.{take_all}
use hedge_db.Merge.Heap.{
  pops_before-false_trans, entries_from, source_entries, slot_entries, heap_entries, SlotAll,
  pop_heap-All, back-All, NotBefore, pop_heap-least, pop_refill-length, refill-back, refill-All,
}

-- The entries in the order in which they leave the heap.
abbrev pub drain_heap : ℕ → List Slot → List MergeEntry
drain_heap zero heap = []
drain_heap (suc fuel) [] = []
drain_heap (suc fuel) (slot ∷ heap) =
    let r = pop_heap slot heap in r.0.entry ∷ drain_heap fuel (refill r.0.source r.1)

pub turns-take_all :
    (discard : Bool) (fuel : ℕ) (heap : List Slot) (s : MergeState)
    → turns discard fuel heap s ≡ take_all discard (drain_heap fuel heap) s
unfolding turns
turns-take_all discard zero heap s = refl
turns-take_all discard (suc fuel) [] s = refl
turns-take_all discard (suc fuel) (slot ∷ heap) s =
    let r = pop_heap slot heap in
    turns-take_all discard fuel (refill r.0.source r.1) (take_entry discard r.0.entry s)

-- The drained heap has as many entries as the heap.
pub drain_heap-length :
    (fuel : ℕ) (heap : List Slot)
    → length (heap_entries heap) ≤ fuel
    → length (drain_heap fuel heap) ≡ length (heap_entries heap)
drain_heap-length zero [] h = refl
drain_heap-length zero (s ∷ heap) h = absurd (omega arith)
drain_heap-length (suc fuel) [] h = refl
drain_heap-length (suc fuel) (s ∷ heap) h =
    let r = pop_heap s heap in
    let e = pop_refill-length s heap in
    omega (arith, e, drain_heap-length fuel (refill r.0.source r.1) (omega (arith, e, h)))

-- A heap of `n` entries is drained in `n` turns: what holds of all that leaves it holds of all its
-- entries.
pub drain_heap-back {κ} :
    (P : MergeEntry → Type κ) (fuel : ℕ) (heap : List Slot)
    → length (heap_entries heap) ≤ fuel
    → All P (drain_heap fuel heap)
    → All (SlotAll P) heap
drain_heap-back P zero [] h ps = tt
drain_heap-back P zero (s ∷ heap) h ps = absurd (omega arith)
drain_heap-back P (suc fuel) [] h ps = tt
drain_heap-back P (suc fuel) (s ∷ heap) h (p, ps) =
    let r = pop_heap s heap in
    let bound : length (heap_entries (refill r.0.source r.1)) ≤ fuel =
      omega (arith, pop_refill-length s heap, h) in
    let (qs, rest) =
      refill-back P r.0.source r.1 (drain_heap-back P fuel (refill r.0.source r.1) bound ps) in
    back-All (SlotAll P) s heap (p, qs) rest

pub drain_heap-cons :
    (fuel : ℕ) (heap : List Slot)
    → length (heap_entries heap) ≤ fuel
    → 0 < length (heap_entries heap)
    → (x : MergeEntry) × ((xs : List MergeEntry) × (drain_heap fuel heap ≡ x ∷ xs))
drain_heap-cons zero heap h k = absurd (omega arith)
drain_heap-cons (suc fuel) [] h k = absurd (omega arith)
drain_heap-cons (suc fuel) (s ∷ heap) h k = (_, (_, refl))

abbrev pub Ordered : Slot → Type 0
Ordered t = IsSorted pops_before (slot_entries t)

pub refill-Ordered :
    (s : Source) (heap : List Slot)
    → IsSorted pops_before (source_entries s)
    → All Ordered heap
    → All Ordered (refill s heap)
unfolding refill
refill-Ordered s heap h hs = from s.epoch s.rest heap h hs
  where
    from :
        (epoch : ℕ) (rest : List (Key × List ℕ)) (heap : List Slot)
        → IsSorted pops_before (entries_from epoch rest)
        → All Ordered heap
        → All Ordered (refill_from epoch rest heap)
    from epoch [] heap h hs = hs
    from epoch ((k, v) ∷ rest) heap h hs = (h, hs)

pub drain_heap-All {κ} :
    (P : MergeEntry → Type κ) (fuel : ℕ) (heap : List Slot)
    → All (SlotAll P) heap
    → All P (drain_heap fuel heap)
drain_heap-All P zero heap h = tt
drain_heap-All P (suc fuel) [] h = tt
drain_heap-All P (suc fuel) (s ∷ heap) (h, hs) =
    let r = pop_heap s heap in
    let ((p, ps), rest) = pop_heap-All (SlotAll P) s heap h hs in
    (p, drain_heap-All P fuel (refill r.0.source r.1) (refill-All P r.0.source r.1 ps rest))

-- A slot whose first entry is not before an entry has none that is.
none_before :
    (m : MergeEntry) (ts : List Slot)
    → All (NotBefore m) ts
    → All Ordered ts
    → All (SlotAll (λ (e : MergeEntry). pops_before e m ≡ false)) ts
none_before m [] h o = tt
none_before m (t ∷ ts) (h, hs) ((o, o'), os) =
    ((h, all_after (source_entries t.source) o), none_before m ts hs os)
  where
    all_after :
        (es : List MergeEntry)
        → All (λ (e : MergeEntry). pops_before e t.entry ≡ false) es
        → All (λ (e : MergeEntry). pops_before e m ≡ false) es
    all_after [] k = tt
    all_after (e ∷ es) (k, ks) = (pops_before-false_trans e t.entry m k h, all_after es ks)

-- The entries leave the heap in order.
pub drain_heap-IsSorted :
    (fuel : ℕ) (heap : List Slot) → All Ordered heap → IsSorted pops_before (drain_heap fuel heap)
drain_heap-IsSorted zero heap h = tt
drain_heap-IsSorted (suc fuel) [] h = tt
drain_heap-IsSorted (suc fuel) (s ∷ heap) (h, hs) =
    let r = pop_heap s heap in
    let ((p, ps), rest) = pop_heap-All Ordered s heap h hs in
    let later = none_before r.0.entry r.1 (pop_heap-least s heap) rest in
    (
      drain_heap-All (λ (e : MergeEntry). pops_before e r.0.entry ≡ false) fuel
          (refill r.0.source r.1)
          (refill-All (λ (e : MergeEntry). pops_before e r.0.entry ≡ false) r.0.source r.1 p later),
      drain_heap-IsSorted fuel (refill r.0.source r.1) (refill-Ordered r.0.source r.1 ps rest),
    )
