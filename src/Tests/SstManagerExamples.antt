-- ===== src/Tests/SstManagerExamples.antt =====
-- The levels at concrete states: src/db/sst_manager.cc.
use hedge_db.Base.{
  ℕ, ◌<◌, ◌≡◌, refl, List, [], ◌∷◌, inl, ◌==◌, if◌then◌else◌, true, false, Option, some, none,
  arith,
}
use hedge_db.SstManager.Backpressure.{
  Backpressure, plus, minus, threshold, IsGated, update_all, update_all-IsGated, update_all-stuck,
}
use hedge_db.SstManager.Compaction.{
  pickable_for_compaction, in_compaction, States, store, set_compaction_state,
  skip_non_pickable_ssts, mark, Picking, emit, buckets_loop, create_buckets_from_level,
}
use hedge_db.SstManager.Pick.{Good, create_buckets_from_level-Good}
use hedge_db.SstManager.Fuel.{buckets_loop-fuel}

abbrev open_gate : Backpressure
open_gate = record { pending_count = 0; applied = false }

abbrev after_flush : Backpressure
after_flush = update_all (some 1) 1 (plus 3 ∷ minus 2 ∷ []) open_gate

update_all-IsGated_example :
    IsGated (some 1) 1 after_flush
    × (after_flush.pending_count < threshold (some 1) 1 → after_flush.applied ≡ false)
unfolding threshold
update_all-IsGated_example =
    update_all-IsGated (some 1) 1 (plus 3 ∷ minus 2 ∷ []) open_gate (λ e. cc, λ e. omega arith)

update_all-stuck_example :
    (update_all (some 0) 3 (minus 4 ∷ []) record { pending_count = 4; applied = true }).applied
    ≡ true
unfolding threshold
update_all-stuck_example =
    update_all-stuck (some 0) 3 (minus 4 ∷ []) record { pending_count = 4; applied = true } refl
      (omega arith, tt) refl

-- The third table of four is in compaction.
abbrev four_states : States
four_states t = if t == 3 then in_compaction else pickable_for_compaction

abbrev no_buckets : Picking
no_buckets = record { states = four_states; out_buckets = [] }

create_buckets_from_level-Good_example :
    Good 2 3 four_states (create_buckets_from_level 2 3 (1 ∷ 2 ∷ 3 ∷ 4 ∷ []) no_buckets)
create_buckets_from_level-Good_example =
    create_buckets_from_level-Good 2 3 four_states (1 ∷ 2 ∷ 3 ∷ 4 ∷ []) no_buckets (omega arith)
      (
        (λ e. absurd (omega arith), (λ e. absurd (omega arith), (λ e. absurd (omega arith), tt))),
        (
          (λ e. absurd (omega arith), (λ e. absurd (omega arith), tt)),
          ((λ e. absurd (omega arith), tt), (tt, tt)),
        ),
      )
      record { sizes = tt; marked = tt; changed = λ t. inl refl }

buckets_loop-fuel_example :
    buckets_loop 2 3 3 (2 ∷ 3 ∷ 4 ∷ []) (1 ∷ []) no_buckets
    ≡ buckets_loop 2 3 9 (2 ∷ 3 ∷ 4 ∷ []) (1 ∷ []) no_buckets
buckets_loop-fuel_example =
    buckets_loop-fuel 2 3 3 9 (2 ∷ 3 ∷ 4 ∷ []) (1 ∷ []) no_buckets (omega arith) (omega arith)

abbrev buckets_of : Option Picking → List (List ℕ)
buckets_of (some p) = p.out_buckets
buckets_of none = []

-- One bucket of the first two tables; the last one is alone.
picked_buckets :
    buckets_of (create_buckets_from_level 2 3 (1 ∷ 2 ∷ 3 ∷ 4 ∷ []) no_buckets) ≡ (1 ∷ 2 ∷ []) ∷ []
unfolding create_buckets_from_level skip_non_pickable_ssts buckets_loop emit mark
    set_compaction_state store
picked_buckets = refl
