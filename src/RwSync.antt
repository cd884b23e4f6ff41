-- ===== src/RwSync.antt =====
-- src/async/rw_sync.h: the lock between writers and the flusher, as interleavings of the atomic
-- operations of its threads. The orders that the source asks for (a fence between the store of a
-- counter and the load of `_frozen`, seq_cst elsewhere) are those under which an interleaving says
-- what each load sees.
pub mod Safety
pub mod Shared
use hedge_db.Base.{
  ℕ, zero, suc, ◌≡◌, refl, Bool, true, false, ◌==◌, if◌then◌else◌, ltb, List, [], ◌∷◌, ◌||◌,
}

-- Where a thread stands in `acquire_writer` and `release`.
pub data Pc : Type 0 where
  idle announced refused writing : Pc

-- `slot` gives each thread its `this_thread_idx`; `counters` is what each `_counters[i].c` holds.
pub record RwSync : Type 0 where
  pub frozen : Bool
  pub counters : ℕ → ℕ
  pub pcs : ℕ → Pc

-- `_frozen(false)` and counters of zero.
abbrev pub rw_sync : RwSync
rw_sync = record { frozen = false; counters = λ i. 0; pcs = λ t. idle }

abbrev pub set {ℓ} : {A : Type ℓ} → ℕ → A → (ℕ → A) → ℕ → A
set i a f j = if j == i then a else f j

-- `_frozen.load()`, and what the thread does next.
unfoldable pub check_frozen : ℕ → RwSync → RwSync
check_frozen t s = record s { pcs = set t (if s.frozen then refused else writing) s.pcs }

unfoldable pub freeze_writes : RwSync → RwSync
freeze_writes s = record s { frozen = true }

module _ (slot : ℕ → ℕ) where
  -- `counter.store(1)`.
  unfoldable pub announce : ℕ → RwSync → RwSync
  announce t s = record s { counters = set (slot t) 1 s.counters; pcs = set t announced s.pcs }

  -- `counter.store(0)`: the thread backs off, or `release`.
  unfoldable pub store_zero : ℕ → RwSync → RwSync
  store_zero t s = record s { counters = set (slot t) 0 s.counters; pcs = set t idle s.pcs }

  -- One atomic operation of one thread.
  pub data Step : RwSync → RwSync → Type 0 where
    announcing : (t : ℕ) (s : RwSync) → s.pcs t ≡ idle → Step s (announce t s)
    checking : (t : ℕ) (s : RwSync) → s.pcs t ≡ announced → Step s (check_frozen t s)
    backing_off : (t : ℕ) (s : RwSync) → s.pcs t ≡ refused → Step s (store_zero t s)
    releasing : (t : ℕ) (s : RwSync) → s.pcs t ≡ writing → Step s (store_zero t s)
    freezing : (s : RwSync) → Step s (freeze_writes s)

  pub data Steps : RwSync → RwSync → Type 0 where
    stop : (s : RwSync) → Steps s s
    step : {s s₁ s₂ : RwSync} → Step s s₁ → Steps s₁ s₂ → Steps s s₂

  -- `any_active_writer` that gives false: the counters of some slots are read one after the other
  -- and are all zero, and the other threads go on between two reads.
  pub data Drained : List ℕ → RwSync → RwSync → Type 0 where
    no_more : {s s₁ : RwSync} → Steps s s₁ → Drained [] s s₁
    read_zero :
        {i : ℕ} {is : List ℕ} {s s₁ s₂ : RwSync}
        → Steps s s₁
        → s₁.counters i ≡ 0
        → Drained is s₁ s₂
        → Drained (i ∷ is) s s₂
