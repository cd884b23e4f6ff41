-- ===== src/Memtable/Drain.antt =====
-- src/db/merge/sst_stream.h: what a scan of a memtable meets.
use hedge_db.Base.{
  ==_iff, lt→ltb, ℕ, zero, suc, ◌+◌, ◌≤◌, ◌<◌, ◌≡◌, ◌≢◌, refl, ◌∙◌, ap, List, [], ◌∷◌, length, true,
  false, ◌==◌, if◌then◌else◌, arith, All, Bool-cases, inl, inr, le→ltb,
}
use hedge_db.Key.{Key, key_eq}
use hedge_db.Key.Order.{key_eq_refl}
use hedge_db.Memtable.Entry.{MemtableEntry, key_eq-ne}
use hedge_db.Memtable.Skiplist.{SkiplistOps}
use hedge_db.Memtable.Cursor.{
  MemtableCursor, skip_invisible, skip_duplicate_keys, is_eof, pop_front, drain,
}
use hedge_db.Memtable.Skiplist.{insert_entry}
use hedge_db.Memtable.Replay.{acquire_snapshot}
use hedge_db.Memtable.Table.{Memtable, wrapper}

-- The first entry of each run of entries of one key, behind an entry of the key `k`.
abbrev pub firsts_after : Key → List MemtableEntry → List MemtableEntry
firsts_after k [] = []
firsts_after k (x ∷ xs) =
    let same = firsts_after k xs in
    let other = firsts_after x.key xs in if key_eq x.key k then same else x ∷ other

abbrev pub firsts : List MemtableEntry → List MemtableEntry
firsts [] = []
firsts (x ∷ xs) = x ∷ firsts_after x.key xs

abbrev IsVisible : ℕ → MemtableEntry → Type 0
IsVisible max_seq x = x.seq ≤ max_seq

not_end : (n : ℕ) → (n + 1 == 0) ≡ false
not_end n = ground arith

not_zero : (n : ℕ) → (suc n == 0) ≡ false
not_zero n = ground arith

skip_invisible-visible :
    (max_seq : ℕ) (it : List MemtableEntry)
    → All (IsVisible max_seq) it
    → skip_invisible 0 max_seq it ≡ it
unfolding skip_invisible
skip_invisible-visible max_seq [] h = refl
skip_invisible-visible max_seq (x ∷ it) (h, hs) =
    rw (not_end (length it), le→ltb max_seq x.seq h) refl

drain-firsts_after :
    (fuel : ℕ) (k : Key) (it : List MemtableEntry) (max_seq epoch : ℕ)
    → All (IsVisible max_seq) it
    → length it < fuel
    → drain fuel (record {
      it = skip_duplicate_keys 0 k it;
      end_count = 0;
      max_seq = max_seq;
      epoch = epoch;
    })
      ≡ firsts_after k it
unfolding drain is_eof pop_front skip_duplicate_keys
drain-firsts_after zero k it max_seq epoch h short = absurd (omega arith)
drain-firsts_after (suc fuel) k [] max_seq epoch h short = refl
drain-firsts_after (suc fuel) k (x ∷ it) max_seq epoch (h, hs) short =
    elim (Bool-cases (key_eq x.key k)) [
      | inl same ↦
          rw (not_end (length it), same)
            (drain-firsts_after (suc fuel) k it max_seq epoch hs (omega arith))
      | inr differ ↦
          rw
            (
              not_end (length it),
              differ,
              not_zero (length it),
              skip_invisible-visible max_seq it hs,
            )
            (ap (λ (r : List MemtableEntry). x ∷ r)
              (drain-firsts_after fuel x.key it max_seq epoch hs (omega arith)))
    ]

-- A scan that sees every entry and runs to the end of the list meets the first entry of each run of
-- one key and nothing else.
pub drain-firsts :
    (it : List MemtableEntry) (max_seq epoch : ℕ)
    → All (λ (x : MemtableEntry). x.seq ≤ max_seq) it
    → drain (suc (length it)) (record { it = it; end_count = 0; max_seq = max_seq; epoch = epoch })
      ≡ firsts it
unfolding drain is_eof pop_front
drain-firsts [] max_seq epoch h = refl
drain-firsts (x ∷ it) max_seq epoch (h, hs) =
    rw (not_zero (length it), skip_invisible-visible max_seq it hs)
      (ap (λ (r : List MemtableEntry). x ∷ r)
        (drain-firsts_after (suc (length it)) x.key it max_seq epoch hs (omega arith)))

-- Where the key of the front has an older entry that is visible too, and the next key's newest entry
-- is invisible, `pop_front` stops at that entry.
pub pop_front-invisible :
    (c : MemtableCursor) (x y z : MemtableEntry) (rest : List MemtableEntry)
    → c.it ≡ x ∷ y ∷ z ∷ rest
    → c.end_count ≤ length rest
    → y.key ≡ x.key
    → y.seq ≤ c.max_seq
    → z.key ≢ x.key
    → c.max_seq < z.seq
    → (pop_front c).it ≡ z ∷ rest
unfolding pop_front skip_invisible skip_duplicate_keys
pop_front-invisible c x y z rest at inside same visible other invisible =
    rw
      (
        at,
        before_end (suc (length rest)) (omega arith),
        le→ltb c.max_seq y.seq visible,
        before_end (suc (length rest)) (omega arith),
        ap (λ (k : Key). key_eq k x.key) same ∙ key_eq_refl x.key,
        before_end (length rest) inside,
        key_eq-ne z.key x.key other,
      )
      refl
  where
    before_end : (n : ℕ) → c.end_count ≤ n → (n + 1 == c.end_count) ≡ false
    before_end n h = ground arith

module _ (ops : SkiplistOps) where
  -- The first write after a snapshot is entered into the list with the snapshot's own number, and so a
  -- cursor with that number stops at it, while a cursor with a smaller one goes on behind it.
  pub acquire_snapshot-next_write :
      (m : Memtable) (key : Key) (value : List ℕ) (end_count n : ℕ) (rest : List MemtableEntry)
      → length rest + 1 ≢ end_count
      → n < (acquire_snapshot m).seq_nr
      → let seq_nr = (acquire_snapshot m).seq_nr in
        let e : MemtableEntry = record { key = key; seq = seq_nr; value = value } in
        let r = insert_entry ops true key value (wrapper m) in
        ((r.1 ≡ (true, seq_nr)) × (r.0.entries ≡ ops.add e m.table.entries))
        × ((skip_invisible end_count seq_nr (e ∷ rest) ≡ e ∷ rest)
            × (skip_invisible end_count n (e ∷ rest) ≡ skip_invisible end_count n rest))
  unfolding skip_invisible acquire_snapshot insert_entry
  acquire_snapshot-next_write m key value end_count n rest inside below = (
    (refl, refl),
    (
      rw (not_last, le→ltb m.seq_nr m.seq_nr (omega arith)) refl,
      rw (not_last, lt→ltb n m.seq_nr below) refl,
    ),
  )
    where
      not_last : (length rest + 1 == end_count) ≡ false
      not_last = elim (Bool-cases (length rest + 1 == end_count)) [
        | inl last ↦ absurd (inside ((==_iff (length rest + 1) end_count).0 last))
        | inr before ↦ before
      ]
