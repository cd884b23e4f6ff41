-- ===== src/SstManager/Pick.antt =====
-- src/db/sst_manager.cc: the loop of `create_buckets_from_level`.
use hedge_db.Base.{
  ℕ, zero, suc, ◌≤◌, ◌≡◌, ◌≢◌, refl, sym, ap, List, [], ◌∷◌, ◌++◌, append_assoc, length,
  length-append, true, ltb, leb, leb→le, ltb→lt, Option, some, All, All-append, Bool-cases, inl,
  inr, arith,
}
use mathlib.Core.Path.{subst}
use hedge_db.SstManager.Compaction.{
  CompactionProgressState, pickable_for_compaction, in_compaction, compacted, compaction_error,
  is_pickable, States, skip_non_pickable_ssts, Picking, with_bucket, Rounds, restart_at, restart,
  emit, taken, round, buckets_loop, create_buckets_from_level,
}
use hedge_db.SstManager.Buckets.{
  Distinct, IsPickable, InCompaction, Changed, Changed-trans, still_buckets, mark-picked,
}

is_pickable→pickable :
    (s : CompactionProgressState) → is_pickable s ≡ true → s ≡ pickable_for_compaction
is_pickable→pickable pickable_for_compaction h = refl
is_pickable→pickable in_compaction h = cc
is_pickable→pickable compacted h = cc
is_pickable→pickable compaction_error h = cc

Distinct-left : (ts us : List ℕ) → Distinct (ts ++ us) → Distinct ts
Distinct-left [] us d = tt
Distinct-left (t ∷ ts) us (d, ds) = (left ts us d, Distinct-left ts us ds)
  where
    left : (xs ys : List ℕ) → All (λ (u : ℕ). u ≢ t) (xs ++ ys) → All (λ (u : ℕ). u ≢ t) xs
    left [] ys h = tt
    left (x ∷ xs) ys (h, hs) = (h, left xs ys hs)

Distinct-right : (ts us : List ℕ) → Distinct (ts ++ us) → Distinct us
Distinct-right [] us d = d
Distinct-right (t ∷ ts) us (d, ds) = Distinct-right ts us ds

module _ (min_merge_width max_merge_width : ℕ) (before : States) where
  -- The buckets have as many tables as a merge may have, these are in compaction, and no other table's
  -- state is changed than that of tables that could be picked.
  pub record IsSound (p : Picking) : Type 0 where
    pub sizes :
        All
          (λ (b : List ℕ). (min_merge_width ≤ length b) × (length b ≤ max_merge_width))
          p.out_buckets
    pub marked : All (All (InCompaction p.states)) p.out_buckets
    pub changed : Changed before p.states

  abbrev pub Good : Option Picking → Type 0
  Good o = (p : Picking) × ((o ≡ some p) × IsSound p)

  abbrev Goes : Rounds → Type 0
  Goes next =
      (ts candidates : List ℕ) (p : Picking)
      → All (IsPickable p.states) candidates
      → Distinct (candidates ++ ts)
      → length candidates ≤ max_merge_width
      → IsSound p
      → Good (next ts candidates p)

  emit-Good :
      (candidates : List ℕ) (p : Picking)
      → All (IsPickable p.states) candidates
      → Distinct candidates
      → length candidates ≤ max_merge_width
      → IsSound p
      → Good (emit min_merge_width max_merge_width candidates p)
  unfolding emit
  emit-Good candidates p picks d n i = elim (Bool-cases (leb min_merge_width (length candidates))) [
    | inr few ↦ rw few (p, (refl, i))
    | inl enough ↦
        let (after, (e, (marked, c))) = mark-picked candidates p.states d picks in
        rw enough (
          record { states = after; out_buckets = p.out_buckets ++ candidates ∷ [] },
          (
            ap (with_bucket candidates p) e,
            record {
              sizes =
                  All-append
                    (λ (b : List ℕ). (min_merge_width ≤ length b) × (length b ≤ max_merge_width))
                    p.out_buckets (candidates ∷ []) i.sizes ((leb→le _ _ enough, n), tt);
              marked =
                  All-append (All (InCompaction after)) p.out_buckets (candidates ∷ [])
                    (still_buckets p.states after c p.out_buckets i.marked) (marked, tt);
              changed = Changed-trans before p.states after i.changed c;
            },
          ),
        )
  ]

  restart_at-Good :
      (next : Rounds) (ts : List ℕ) (p : Picking)
      → Goes next
      → 1 ≤ max_merge_width
      → Distinct ts
      → IsSound p
      → Good (restart_at next (skip_non_pickable_ssts p.states ts) p)
  unfolding skip_non_pickable_ssts
  restart_at-Good next [] p g h d i = (p, (refl, i))
  restart_at-Good next (t ∷ ts) p g h (d, ds) i = elim (Bool-cases (is_pickable (p.states t))) [
    | inl pickable ↦ rw pickable (g ts (t ∷ []) p (is_pickable→pickable _ pickable, tt) (d, ds) h i)
    | inr unpickable ↦ rw unpickable (restart_at-Good next ts p g h ds i)
  ]

  restart-Good :
      (next : Rounds) (ts : List ℕ) (o : Option Picking)
      → Goes next
      → 1 ≤ max_merge_width
      → Distinct ts
      → Good o
      → Good (restart next ts o)
  restart-Good next ts o g h d (p, (e, i)) =
      subst (λ (r : Option Picking). Good (restart next ts r)) (sym e)
        (restart_at-Good next ts p g h d i)

  taken-Good :
      (next : Rounds) (t : ℕ) (ts candidates : List ℕ) (p : Picking)
      → Goes next
      → 1 ≤ max_merge_width
      → All (IsPickable p.states) candidates
      → Distinct (candidates ++ ts)
      → length candidates ≤ max_merge_width
      → IsSound p
      → Good (taken min_merge_width max_merge_width next t ts candidates p)
  taken-Good next t [] candidates p g h picks d n i =
      restart-Good next (t ∷ []) (emit min_merge_width max_merge_width candidates p) g h (tt, tt)
        (emit-Good candidates p picks (Distinct-left candidates [] d) n i)
  taken-Good next t (u ∷ us) candidates p g h picks d n i = g (u ∷ us) candidates p picks d n i

  round-Good :
      (next : Rounds) (t : ℕ) (ts candidates : List ℕ) (p : Picking)
      → Goes next
      → 1 ≤ max_merge_width
      → All (IsPickable p.states) candidates
      → Distinct (candidates ++ t ∷ ts)
      → length candidates ≤ max_merge_width
      → IsSound p
      → Good (round min_merge_width max_merge_width next t ts candidates p)
  round-Good next t ts candidates p g h picks d n i =
      let left_behind : Good
          (restart next (t ∷ ts) (emit min_merge_width max_merge_width candidates p)) =
        restart-Good next (t ∷ ts) (emit min_merge_width max_merge_width candidates p) g h
          (Distinct-right candidates (t ∷ ts) d)
          (emit-Good candidates p picks (Distinct-left candidates (t ∷ ts) d) n i) in
      elim (Bool-cases (is_pickable (p.states t))) [
        | inr unpickable ↦ rw unpickable left_behind
        | inl pickable ↦ elim (Bool-cases (ltb (length candidates) max_merge_width)) [
          | inr full ↦ rw (pickable, full) left_behind
          | inl room ↦
              rw (pickable, room)
                (taken-Good next t ts (candidates ++ t ∷ []) p g h
                  (All-append (IsPickable p.states) candidates (t ∷ []) picks
                    (is_pickable→pickable _ pickable, tt))
                  (subst Distinct (sym (append_assoc candidates (t ∷ []) ts)) d)
                  (omega (arith, length-append candidates (t ∷ []), ltb→lt _ _ room)) i)
        ]
      ]

  buckets_loop-Good :
      (fuel : ℕ) → 1 ≤ max_merge_width → Goes (buckets_loop min_merge_width max_merge_width fuel)
  unfolding buckets_loop
  buckets_loop-Good zero h ts candidates p picks d n i = (p, (refl, i))
  buckets_loop-Good (suc fuel) h [] candidates p picks d n i = (p, (refl, i))
  buckets_loop-Good (suc fuel) h (t ∷ ts) candidates p picks d n i =
      round-Good (buckets_loop min_merge_width max_merge_width fuel) t ts candidates p
        (buckets_loop-Good fuel h) h picks d n i

  -- For a level whose tables are distinct and a width of at least one, the buckets are made without a
  -- throw. Each has between the least and the greatest number of tables, these are in compaction, and no
  -- other table's state is changed than that of tables that could be picked, if this holds of the
  -- buckets that were there.
  pub create_buckets_from_level-Good :
      (level : List ℕ) (p : Picking)
      → 1 ≤ max_merge_width
      → Distinct level
      → IsSound p
      → Good (create_buckets_from_level min_merge_width max_merge_width level p)
  unfolding create_buckets_from_level
  create_buckets_from_level-Good level p h d i =
      elim (Bool-cases (ltb (length level) min_merge_width)) [
        | inl short ↦ rw short (p, (refl, i))
        | inr long ↦ rw long (
            restart_at-Good (buckets_loop min_merge_width max_merge_width (length level)) level p
              (buckets_loop-Good (length level) h) h d i)
      ]
