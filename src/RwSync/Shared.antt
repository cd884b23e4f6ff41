-- ===== src/RwSync/Shared.antt =====
-- src/async/rw_sync.h: what happens where two threads use one slot, which the file's comment allows.
use hedge_db.Base.{ℕ, ◌≡◌, ◌≢◌, refl, true, false, ◌==◌, ==_iff, [], ◌∷◌, arith}
use hedge_db.RwSync.{
  writing, RwSync, rw_sync, announce, check_frozen, store_zero, freeze_writes, Steps, announcing,
  checking, releasing, freezing, stop, step, Drained, no_more, read_zero,
}

module _ (slot : ℕ → ℕ) (t u : ℕ) (differ : t ≢ u) (shared : slot t ≡ slot u) where
  -- Both threads enter, the first one leaves, the flusher freezes.
  abbrev both_in : RwSync
  both_in = check_frozen u (announce slot u (check_frozen t (announce slot t rw_sync)))

  abbrev first_out : RwSync
  first_out = freeze_writes (store_zero slot t both_in)

  tt_same : (t == t) ≡ true
  tt_same = ground arith

  uu_same : (u == u) ≡ true
  uu_same = ground arith

  ut_differ : (u == t) ≡ false
  ut_differ = ground (arith, differ)

  tu_differ : (t == u) ≡ false
  tu_differ = ground (arith, differ)

  slot_same : (slot u == slot t) ≡ true
  slot_same = ground (arith, shared)

  enters : Steps slot rw_sync first_out
  unfolding announce check_frozen store_zero freeze_writes
  enters = step (announcing t rw_sync refl) (
      step (checking t _ (rw tt_same refl)) (
        step (announcing u _ (rw ut_differ refl)) (
          step (checking u _ (rw uu_same refl)) (
            step (releasing t both_in (rw (tu_differ, tt_same) refl))
              (step (freezing _) (stop _))))))

  -- Two threads that share a slot: the flusher freezes the object and reads the counter of their slot
  -- as zero while the second thread still writes.
  pub shared-unsafe :
      (s : RwSync) × (Steps slot rw_sync s
        × ((s.frozen ≡ true) × (Drained slot (slot t ∷ []) s s × (s.pcs u ≡ writing))))
  unfolding announce check_frozen store_zero freeze_writes
  shared-unsafe = (
    first_out,
    (
      enters,
      (
        refl,
        (
          read_zero (stop first_out) (rw ((==_iff (slot t) (slot t)).1 refl) refl)
              (no_more (stop first_out)),
          rw (ut_differ, uu_same) refl,
        ),
      ),
    ),
  )
