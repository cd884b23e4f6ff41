-- ===== src/Memtable/Reads.antt =====
-- src/db/memtable.cc: what `get` gives after `put_async` and after a flush has begun.
use hedge_db.Base.{
  ◌&&◌, ltb, ℕ, ◌+◌, ◌-◌, ◌^◌, ◌<◌, ◌≡◌, refl, ◌∙◌, ap, List, [], ◌∷◌, ◌++◌, Bool, true, false,
  ◌==◌, if◌then◌else◌, Option, some, none, All, All-append, arith, le→ltb, Bool-cases, inl, inr,
}
use hedge_db.Base.Status.{Expected}
use hedge_db.Key.{Key, key_eq}
use hedge_db.Value.{Value, value_from_span}
use hedge_db.Memtable.Skiplist.{SkiplistOps, insert_entry, get_value, from_bound}
use hedge_db.Memtable.Lookup.{IsWrapper, get_value-insert_entry, insert_entry-IsWrapper}
use hedge_db.Memtable.Table.{
  flush_then, Memtable, WriteBuffer, flush, insert_pending, newest_first, get_from, get, found_or,
  parsed, with_entries, wrapper,
}

-- The entries of the table are in order with sequence numbers that were given, and the epochs of the
-- pending flushes too.
pub record IsMemtable (m : Memtable) : Type 0 where
  pub entries : IsWrapper (wrapper m)
  pub epochs : All (λ (p : ℕ × WriteBuffer). p.0 < m.flush_epoch) m.pending_flushes

pub insert_pending-last :
    (epoch : ℕ) (b : WriteBuffer) (ps : List (ℕ × WriteBuffer))
    → All (λ (p : ℕ × WriteBuffer). p.0 < epoch) ps
    → insert_pending epoch b ps ≡ ps ++ (epoch, b) ∷ []
unfolding insert_pending
insert_pending-last epoch b [] h = refl
insert_pending-last epoch b ((e, b') ∷ ps) (h, hs) =
    rw (le→ltb epoch e (omega arith), different)
      (ap (λ (r : List (ℕ × WriteBuffer)). (e, b') ∷ r) (insert_pending-last epoch b ps hs))
  where
    different : (epoch == e) ≡ false
    different = ground arith

raise :
    (epoch : ℕ) (ps : List (ℕ × WriteBuffer))
    → All (λ (p : ℕ × WriteBuffer). p.0 < epoch) ps
    → All (λ (p : ℕ × WriteBuffer). p.0 < epoch + 1) ps
raise epoch [] h = tt
raise epoch (p ∷ ps) (h, hs) = (omega arith, raise epoch ps hs)

epochs-after :
    (epoch : ℕ) (b : WriteBuffer) (ps : List (ℕ × WriteBuffer))
    → All (λ (p : ℕ × WriteBuffer). p.0 < epoch) ps
    → All (λ (p : ℕ × WriteBuffer). p.0 < epoch + 1) (insert_pending epoch b ps)
epochs-after epoch b ps h = rw (insert_pending-last epoch b ps h) (
    All-append (λ (p : ℕ × WriteBuffer). p.0 < epoch + 1) ps ((epoch, b) ∷ []) (raise epoch ps h)
      (omega arith, tt))

newest_first-append :
    (ps : List (ℕ × WriteBuffer)) (epoch : ℕ) (b : WriteBuffer)
    → newest_first (ps ++ (epoch, b) ∷ []) ≡ b ∷ newest_first ps
unfolding newest_first
newest_first-append [] epoch b = refl
newest_first-append ((e, b') ∷ ps) epoch b =
    ap (λ (r : List WriteBuffer). r ++ b' ∷ []) (newest_first-append ps epoch b)

-- Where a slot is free and the pipelined table is there, `_flush` does not wait.
pub flush_then-ready :
    {A : Type 0} (again : Memtable → Option A) (m : Memtable)
    → (ltb 0 m.pending_flush_slots && m.pipelined) ≡ true
    → flush_then again m ≡ again (flush m)
flush_then-ready again m h = rw h refl

-- A flush that ends its waits goes on.
pub flush_then-some :
    {A : Type 0} (again : Memtable → Option A) (m : Memtable) (r : A)
    → flush_then again m ≡ some r
    → again (flush m) ≡ some r
flush_then-some again m r h = goes_on (ltb 0 m.pending_flush_slots && m.pipelined) h
  where
    goes_on : (b : Bool) → (if b then again (flush m) else none) ≡ some r → again (flush m) ≡ some r
    goes_on true h = h
    goes_on false h = absurd (cc)

module _ (ops : SkiplistOps) where
  get_value-empty : (key : Key) → get_value ops key [] ≡ none
  unfolding get_value from_bound
  get_value-empty key =
      rw (ops.lower_bound-lem (record { key = key; seq = 2 ^ 64 - 1; value = [] }) [] tt) refl

  -- The beginning of a flush changes no lookup, for a table in order.
  pub get-flush : (key : Key) (m : Memtable) → IsMemtable m → get ops key (flush m) ≡ get ops key m
  unfolding get flush get_from
  get-flush key m i =
      rw
        (
          get_value-empty key,
          insert_pending-last m.flush_epoch m.table m.pending_flushes i.epochs,
          newest_first-append m.pending_flushes m.flush_epoch m.table,
        )
        refl

  pub flush-IsMemtable : (m : Memtable) → IsMemtable m → IsMemtable (flush m)
  unfolding flush
  flush-IsMemtable m i = record {
    entries = record { sorted = tt; given = tt; counter = i.entries.counter };
    epochs = epochs-after m.flush_epoch m.table m.pending_flushes i.epochs;
  }

  -- What a lookup gives behind a write of `bytes` under `key`.
  abbrev pub overwritten : Key → List ℕ → Memtable → Key → Expected (Option Value)
  overwritten key bytes m k = if key_eq key k then parsed (value_from_span bytes) else get ops k m

  pub overwritten-twice :
      (key : Key) (bytes : List ℕ) (m m₁ : Memtable) (k : Key)
      → get ops k m₁ ≡ overwritten key bytes m k
      → overwritten key bytes m₁ k ≡ overwritten key bytes m k
  overwritten-twice key bytes m m₁ k h = elim (Bool-cases (key_eq key k)) [
    | inl same ↦ rw same refl
    | inr differ ↦ rw differ (h ∙ rw differ refl)
  ]

  abbrev pub with_entry : Key → List ℕ → Memtable → Memtable
  with_entry key bytes m = with_entries m (insert_entry ops true key bytes (wrapper m)).0

  pub get-with_entry :
      (key : Key) (bytes : List ℕ) (m : Memtable) (k : Key)
      → IsMemtable m
      → m.seq_nr + 1 < 2 ^ 64
      → get ops k (with_entry key bytes m) ≡ overwritten key bytes m k
  unfolding get
  get-with_entry key bytes m k i h =
      rw (get_value-insert_entry ops key k bytes (wrapper m) i.entries h)
        (by_key (key_eq key k) refl)
    where
      by_key :
          (same : Bool)
          → key_eq key k ≡ same
          → found_or
              (get_from ops k (newest_first m.pending_flushes))
              (if same then some bytes else get_value ops k m.table.entries)
            ≡ (if same
                then parsed (value_from_span bytes)
                else found_or
                    (get_from ops k (newest_first m.pending_flushes))
                    (get_value ops k m.table.entries))
      by_key true e = refl
      by_key false e = refl

  pub with_entry-IsMemtable :
      (fits : Bool) (key : Key) (bytes : List ℕ) (m : Memtable)
      → IsMemtable m
      → m.seq_nr + 1 < 2 ^ 64
      → IsMemtable (with_entries m (insert_entry ops fits key bytes (wrapper m)).0)
  with_entry-IsMemtable fits key bytes m i h = record {
    entries = insert_entry-IsWrapper ops fits key bytes (wrapper m) i.entries h;
    epochs = i.epochs;
  }
