-- ===== src/SstManager/Fuel.antt =====
-- src/db/sst_manager.cc: the loop of `create_buckets_from_level` ends.
use hedge_db.Base.{
  ℕ, zero, suc, ◌+◌, ◌≤◌, ◌≡◌, refl, List, [], ◌∷◌, ◌++◌, length, ◌&&◌, ltb, Option, some, none,
  Bool-cases, inl, inr, arith,
}
use hedge_db.SstManager.Compaction.{
  is_pickable, skip_non_pickable_ssts, Picking, Rounds, restart_at, restart, emit, taken, round,
  buckets_loop,
}

-- Two bodies of the loop that agree on at most `n` tables.
abbrev Agree : ℕ → Rounds → Rounds → Type 0
Agree n f g =
    (ts candidates : List ℕ) (p : Picking) → length ts ≤ n → f ts candidates p ≡ g ts candidates p

module _ (n : ℕ) (f g : Rounds) (agree : Agree n f g) where
  same_restart_at :
      (ts : List ℕ) (p : Picking)
      → length ts ≤ n + 1
      → restart_at f (skip_non_pickable_ssts p.states ts) p
        ≡ restart_at g (skip_non_pickable_ssts p.states ts) p
  unfolding skip_non_pickable_ssts
  same_restart_at [] p h = refl
  same_restart_at (t ∷ ts) p h = elim (Bool-cases (is_pickable (p.states t))) [
    | inl pickable ↦ rw pickable (agree ts (t ∷ []) p (omega arith))
    | inr unpickable ↦ rw unpickable (same_restart_at ts p (omega arith))
  ]

  same_restart :
      (ts : List ℕ) (o : Option Picking) → length ts ≤ n + 1 → restart f ts o ≡ restart g ts o
  same_restart ts none h = refl
  same_restart ts (some p) h = same_restart_at ts p h

  module _ (min_merge_width max_merge_width : ℕ) where
    same_taken :
        (t : ℕ) (ts candidates : List ℕ) (p : Picking)
        → length ts ≤ n
        → taken min_merge_width max_merge_width f t ts candidates p
          ≡ taken min_merge_width max_merge_width g t ts candidates p
    same_taken t [] candidates p h =
        same_restart (t ∷ []) (emit min_merge_width max_merge_width candidates p) (omega arith)
    same_taken t (u ∷ us) candidates p h = agree (u ∷ us) candidates p h

    same_round :
        (t : ℕ) (ts candidates : List ℕ) (p : Picking)
        → length ts ≤ n
        → round min_merge_width max_merge_width f t ts candidates p
          ≡ round min_merge_width max_merge_width g t ts candidates p
    same_round t ts candidates p h =
        elim (Bool-cases (is_pickable (p.states t) && ltb (length candidates) max_merge_width)) [
          | inl take_it ↦ rw take_it (same_taken t ts (candidates ++ t ∷ []) p h)
          | inr leave_it ↦ rw leave_it (
              same_restart (t ∷ ts) (emit min_merge_width max_merge_width candidates p)
                (omega arith))
        ]

-- The loop makes no more turns than there are tables: any two bounds that are not smaller give the same
-- buckets.
pub buckets_loop-fuel :
    (min_merge_width max_merge_width fuel fuel' : ℕ) (ts candidates : List ℕ) (p : Picking)
    → length ts ≤ fuel
    → length ts ≤ fuel'
    → buckets_loop min_merge_width max_merge_width fuel ts candidates p
      ≡ buckets_loop min_merge_width max_merge_width fuel' ts candidates p
unfolding buckets_loop
buckets_loop-fuel least most zero zero ts candidates p h k = refl
buckets_loop-fuel least most zero (suc fuel') [] candidates p h k = refl
buckets_loop-fuel least most zero (suc fuel') (t ∷ ts) candidates p h k = absurd (omega arith)
buckets_loop-fuel least most (suc fuel) zero [] candidates p h k = refl
buckets_loop-fuel least most (suc fuel) zero (t ∷ ts) candidates p h k = absurd (omega arith)
buckets_loop-fuel least most (suc fuel) (suc fuel') [] candidates p h k = refl
buckets_loop-fuel least most (suc fuel) (suc fuel') (t ∷ ts) candidates p h k =
    same_round (length ts) (buckets_loop least most fuel) (buckets_loop least most fuel')
      (λ us cs q i. buckets_loop-fuel least most fuel fuel' us cs q (omega arith) (omega arith))
      least most t ts candidates p (omega arith)
