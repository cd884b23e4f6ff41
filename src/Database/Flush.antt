-- ===== src/Database/Flush.antt =====
-- src/db/database.cc and src/db/memtable.cc: a flush that is published changes no lookup.
use hedge_db.Base.{
  ℕ, ◌^◌, ◌≤◌, ◌≡◌, ◌≢◌, refl, List, [], ◌∷◌, length, Bool, true, false, ◌==◌, ==_iff, Option, some,
  none, All,
}
use hedge_db.Base.Status.{Expected, ok}
use hedge_db.Key.{Key}
use hedge_db.Value.{Value}
use hedge_db.Memtable.Entry.{MemtableEntry}
use hedge_db.Memtable.Lookup.{IsWrapper}
use hedge_db.Memtable.Table.{Memtable, WriteBuffer, erase_pending}
use hedge_db.Sst.File.{FileOps}
use hedge_db.Sst.Export.{FilterOps}
use hedge_db.Sst.Flush.{IsWritable}
use hedge_db.Sst.Partitions.{partition_for}
use hedge_db.SstManager.Publish.{IsReadable, Initialised}
use hedge_db.Sst.Placed.{IsPlaced}
use hedge_db.Database.{Database}

-- What a later place gives, where an earlier one has nothing.
abbrev or_next : Expected (Option Value) → Option Value → Expected (Option Value)
or_next later none = later
or_next later (some v) = ok (some v)

erase_pending-none :
    (epoch : ℕ) (ps : List (ℕ × WriteBuffer))
    → All (λ (p : ℕ × WriteBuffer). epoch ≢ p.0) ps
    → erase_pending epoch ps ≡ ps
unfolding erase_pending
erase_pending-none epoch [] h = refl
erase_pending-none epoch ((e, b) ∷ ps) (h, hs) =
    rw (differ (epoch == e) refl, erase_pending-none epoch ps hs) refl
  where
    differ : (t : Bool) → (epoch == e) ≡ t → (epoch == e) ≡ false
    differ true same = absurd (h ((==_iff epoch e).0 same))
    differ false other = other

pub erase_pending-first :
    (epoch : ℕ) (b : WriteBuffer) (ps : List (ℕ × WriteBuffer))
    → All (λ (p : ℕ × WriteBuffer). epoch ≢ p.0) ps
    → erase_pending epoch ((epoch, b) ∷ ps) ≡ ps
unfolding erase_pending
erase_pending-first epoch b ps h = rw ((==_iff epoch epoch).1 refl) (erase_pending-none epoch ps h)

module _ {F Q : Type 0} (ops : FileOps F) (filter : FilterOps Q) (xxh64 : List ℕ → ℕ → ℕ)
    (keys_per_page : ℕ) where
  -- A pending table that can be flushed: it is the oldest, its entries are in order, can be read and fit
  -- their pages.
  pub record IsOldest (epoch : ℕ) (table : WriteBuffer) (rest : List (ℕ × WriteBuffer))
      (db : Database F Q) : Type 0 where
    pub pending : db.memtable.pending_flushes ≡ (epoch, table) ∷ rest
    pub later : All (λ (p : ℕ × WriteBuffer). epoch ≢ p.0) rest
    pub entries : IsWrapper (record { entries = table.entries; seq_nr = db.memtable.seq_nr })
    pub writable : All (IsWritable xxh64) table.entries
    pub readable : All (λ (it : MemtableEntry). IsReadable it.value) table.entries
    pub exponent : db.num_partition_exponent ≤ 16
    -- Its filters are not too large, and no entry's partition hangs on the memory behind the key.
    pub few : length table.entries ≤ 2 ^ 53
    pub placed :
        All (λ (it : MemtableEntry). IsPlaced db.num_partition_exponent it.key) table.entries
    pub partitions :
        Initialised ops xxh64 keys_per_page filter.may_contain
          (partition_for db.num_partition_exponent [])
          db.sorted_indices
