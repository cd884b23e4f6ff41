-- ===== src/Merge/Heap.antt =====
-- src/db/merge/merge.cc: what leaves the heap and what comes to it.
use hedge_db.Base.{
  ℕ, ◌+◌, ◌≡◌, refl, sym, ap, List, [], ◌∷◌, ◌++◌, length, length-append, true, false, All,
  Bool-cases, inl, inr, arith,
}
use mathlib.Core.Path.{subst}
use hedge_db.Key.{Key}
use hedge_db.Memtable.Entry.{MemtableEntry, memtable_lt, memtable_lt_asymm, memtable_lt-false_trans}
use hedge_db.Merge.Deduplicator.{MergeEntry}
use hedge_db.Merge.Run.{Source, Slot, pops_before, pop_heap, refill, refill_from}

-- The order of the heap is the order of a table's entries.
abbrev as_memtable : MergeEntry → MemtableEntry
as_memtable e = record { key = e.key; seq = e.epoch; value = e.value }

pub pops_before_asymm : (a b : MergeEntry) → pops_before a b ≡ true → pops_before b a ≡ false
unfolding pops_before memtable_lt
pops_before_asymm a b h = memtable_lt_asymm (as_memtable a) (as_memtable b) h

pub pops_before-false_trans :
    (a b c : MergeEntry)
    → pops_before a b ≡ false
    → pops_before b c ≡ false
    → pops_before a c ≡ false
unfolding pops_before memtable_lt
pops_before-false_trans a b c h k =
    memtable_lt-false_trans (as_memtable a) (as_memtable b) (as_memtable c) h k

abbrev pub entries_from : ℕ → List (Key × List ℕ) → List MergeEntry
entries_from epoch [] = []
entries_from epoch ((k, v) ∷ rest) =
    record { key = k; value = v; epoch = epoch } ∷ entries_from epoch rest

-- What a source has still to give, a slot with its source, and a heap.
abbrev pub source_entries : Source → List MergeEntry
source_entries s = entries_from s.epoch s.rest

abbrev pub slot_entries : Slot → List MergeEntry
slot_entries s = s.entry ∷ source_entries s.source

abbrev pub heap_entries : List Slot → List MergeEntry
heap_entries [] = []
heap_entries (s ∷ ss) = slot_entries s ++ heap_entries ss

abbrev pub all_entries : List Source → List MergeEntry
all_entries [] = []
all_entries (s ∷ ss) = source_entries s ++ all_entries ss

abbrev pub SlotAll {κ} : (MergeEntry → Type κ) → Slot → Type κ
SlotAll P t = All P (slot_entries t)

pop_heap-later :
    (s t : Slot) (ts : List Slot)
    → pops_before (pop_heap t ts).0.entry s.entry ≡ true
    → pop_heap s (t ∷ ts) ≡ ((pop_heap t ts).0, s ∷ (pop_heap t ts).1)
unfolding pop_heap
pop_heap-later s t ts h = rw h refl

pop_heap-first :
    (s t : Slot) (ts : List Slot)
    → pops_before (pop_heap t ts).0.entry s.entry ≡ false
    → pop_heap s (t ∷ ts) ≡ (s, t ∷ ts)
unfolding pop_heap
pop_heap-first s t ts h = rw h refl

pop_heap-one : (s : Slot) → pop_heap s [] ≡ (s, [])
unfolding pop_heap
pop_heap-one s = refl

pub pop_heap-All {κ} :
    (P : Slot → Type κ) (s : Slot) (heap : List Slot)
    → P s
    → All P heap
    → P (pop_heap s heap).0 × All P (pop_heap s heap).1
unfolding pop_heap
pop_heap-All P s [] p ps = (p, tt)
pop_heap-All P s (t ∷ ts) p (q, qs) =
    let (a, rest) = pop_heap-All P t ts q qs in
    elim (Bool-cases (pops_before (pop_heap t ts).0.entry s.entry)) [
      | inl h ↦ rw h (a, (p, rest))
      | inr h ↦ rw h (p, (q, qs))
    ]

pub back-All {κ} :
    (P : Slot → Type κ) (s : Slot) (heap : List Slot)
    → P (pop_heap s heap).0
    → All P (pop_heap s heap).1
    → P s × All P heap
unfolding pop_heap
back-All P s [] p ps = (p, tt)
back-All P s (t ∷ ts) p ps = elim (Bool-cases (pops_before (pop_heap t ts).0.entry s.entry)) [
  | inl h ↦
      let (q, (k, ks)) : P (pop_heap t ts).0 × (P s × All P (pop_heap t ts).1) =
        (rw h at p, rw h at ps) in
      (k, back-All P t ts q ks)
  | inr h ↦ let (q, ks) : P s × (P t × All P ts) = (rw h at p, rw h at ps) in (q, ks)
]

abbrev pub NotBefore : MergeEntry → Slot → Type 0
NotBefore m t = pops_before t.entry m ≡ false

further :
    (a m : MergeEntry) (ts : List Slot)
    → pops_before m a ≡ false
    → All (NotBefore m) ts
    → All (NotBefore a) ts
further a m [] h hs = tt
further a m (t ∷ ts) h (k, hs) = (pops_before-false_trans t.entry m a k h, further a m ts h hs)

pops_before_irrefl : (a : MergeEntry) → pops_before a a ≡ false
pops_before_irrefl a = elim (Bool-cases (pops_before a a)) [
  | inl h ↦ pops_before_asymm a a h
  | inr h ↦ h
]

-- No slot that stays has an entry that goes before the top.
pub pop_heap-least :
    (s : Slot) (heap : List Slot) → All (NotBefore (pop_heap s heap).0.entry) (pop_heap s heap).1
unfolding pop_heap
pop_heap-least s [] = tt
pop_heap-least s (t ∷ ts) =
    let m = (pop_heap t ts).0.entry in
    elim (Bool-cases (pops_before m s.entry)) [
      | inl h ↦ rw h (pops_before_asymm m s.entry h, pop_heap-least t ts)
      | inr h ↦
          let (k, ks) = back-All (NotBefore m) t ts (pops_before_irrefl m) (pop_heap-least t ts) in
          rw h (further s.entry m (t ∷ ts) h (k, ks))
    ]

abbrev popped_length : Slot × List Slot → ℕ
popped_length r = length (slot_entries r.0) + length (heap_entries r.1)

pub refill-entries :
    (s : Source) (heap : List Slot)
    → heap_entries (refill s heap) ≡ source_entries s ++ heap_entries heap
unfolding refill
refill-entries s heap = from s.epoch s.rest heap
  where
    from :
        (epoch : ℕ) (rest : List (Key × List ℕ)) (heap : List Slot)
        → heap_entries (refill_from epoch rest heap) ≡ entries_from epoch rest ++ heap_entries heap
    from epoch [] heap = refl
    from epoch ((k, v) ∷ rest) heap = refl

pop_heap-length :
    (s : Slot) (heap : List Slot)
    → popped_length (pop_heap s heap) ≡ length (heap_entries (s ∷ heap))
pop_heap-length s [] =
    subst (λ (r : Slot × List Slot). popped_length r ≡ length (heap_entries (s ∷ [])))
      (sym (pop_heap-one s)) (sym (length-append (slot_entries s) []))
pop_heap-length s (t ∷ ts) =
    let r = pop_heap t ts in
    let Goal : Slot × List Slot → Type 0 =
      (λ (r : Slot × List Slot). popped_length r ≡ length (heap_entries (s ∷ t ∷ ts))) in
    elim (Bool-cases (pops_before r.0.entry s.entry)) [
      | inl h ↦ subst Goal (sym (pop_heap-later s t ts h)) (
          omega (
            arith,
            pop_heap-length t ts,
            length-append (slot_entries s) (heap_entries r.1),
            length-append (slot_entries s) (heap_entries (t ∷ ts)),
          ))
      | inr h ↦
          subst Goal (sym (pop_heap-first s t ts h))
            (sym (length-append (slot_entries s) (heap_entries (t ∷ ts))))
    ]

pub pop_refill-length :
    (s : Slot) (heap : List Slot)
    → length (heap_entries (refill (pop_heap s heap).0.source (pop_heap s heap).1)) + 1
      ≡ length (heap_entries (s ∷ heap))
pop_refill-length s heap =
    let r = pop_heap s heap in
    omega (
      arith,
      pop_heap-length s heap,
      ap length (refill-entries r.0.source r.1),
      length-append (source_entries r.0.source) (heap_entries r.1),
    )

pub refill-back {κ} :
    (P : MergeEntry → Type κ) (s : Source) (heap : List Slot)
    → All (SlotAll P) (refill s heap)
    → All P (source_entries s) × All (SlotAll P) heap
unfolding refill
refill-back P s heap h = from s.epoch s.rest heap h
  where
    from :
        (epoch : ℕ) (rest : List (Key × List ℕ)) (heap : List Slot)
        → All (SlotAll P) (refill_from epoch rest heap)
        → All P (entries_from epoch rest) × All (SlotAll P) heap
    from epoch [] heap h = (tt, h)
    from epoch ((k, v) ∷ rest) heap h = h

pub refill-All {κ} :
    (P : MergeEntry → Type κ) (s : Source) (heap : List Slot)
    → All P (source_entries s)
    → All (SlotAll P) heap
    → All (SlotAll P) (refill s heap)
unfolding refill
refill-All P s heap h hs = from s.epoch s.rest heap h hs
  where
    from :
        (epoch : ℕ) (rest : List (Key × List ℕ)) (heap : List Slot)
        → All P (entries_from epoch rest)
        → All (SlotAll P) heap
        → All (SlotAll P) (refill_from epoch rest heap)
    from epoch [] heap h hs = hs
    from epoch ((k, v) ∷ rest) heap h hs = (h, hs)
