-- ===== src/SstManager/Buckets.antt =====
-- src/db/sst_manager.cc: what `create_buckets_from_level` does to the tables of a level.
use hedge_db.Base.{
  ◌⊎◌, ℕ, ◌≡◌, ◌≢◌, refl, sym, ◌∙◌, ap, List, [], ◌∷◌, ◌==◌, ==_iff, some, All, Bool-cases, inl,
  inr,
}
use hedge_db.SstManager.Compaction.{
  CompactionProgressState, pickable_for_compaction, in_compaction, States, store,
  set_compaction_state, and_then, mark,
}

abbrev pub Distinct : List ℕ → Type 0
Distinct [] = Unit {0}
Distinct (t ∷ ts) = All (λ (u : ℕ). u ≢ t) ts × Distinct ts

abbrev pub IsPickable : States → ℕ → Type 0
IsPickable states t = states t ≡ pickable_for_compaction

abbrev pub InCompaction : States → ℕ → Type 0
InCompaction states t = states t ≡ in_compaction

-- Each table has its former state, or could be picked and is in compaction now.
abbrev pub Changed : States → States → Type 0
Changed before after = (t : ℕ) → (after t ≡ before t) ⊎ (IsPickable before t × InCompaction after t)

pub Changed-trans : (a b c : States) → Changed a b → Changed b c → Changed a c
Changed-trans a b c h k t = elim (k t) [
  | inl same ↦ elim (h t) [ inl same' ↦ inl (same ∙ same') | inr (p, i) ↦ inr (p, same ∙ i) ]
  | inr (p, i) ↦ elim (h t) [ inl same' ↦ inr (sym same' ∙ p, i) | inr (p', i') ↦ inr (p', i) ]
]

still_in : (a b : States) → Changed a b → (t : ℕ) → InCompaction a t → InCompaction b t
still_in a b h t i = elim (h t) [ inl same ↦ same ∙ i | inr (p, i') ↦ i' ]

still_all :
    (a b : States) → Changed a b → (ts : List ℕ) → All (InCompaction a) ts → All (InCompaction b) ts
still_all a b h [] i = tt
still_all a b h (t ∷ ts) (i, is') = (still_in a b h t i, still_all a b h ts is')

pub still_buckets :
    (a b : States)
    → Changed a b
    → (bs : List (List ℕ)) → All (All (InCompaction a)) bs
    → All (All (InCompaction b)) bs
still_buckets a b h [] i = tt
still_buckets a b h (t ∷ ts) (i, is') = (still_all a b h t i, still_buckets a b h ts is')

store-same : (t : ℕ) (s : CompactionProgressState) (states : States) → store t s states t ≡ s
unfolding store
store-same t s states = rw ((==_iff t t).1 refl) refl

store-other :
    (t u : ℕ) (s : CompactionProgressState) (states : States)
    → u ≢ t
    → store t s states u ≡ states u
unfolding store
store-other t u s states h = elim (Bool-cases (u == t)) [
  | inl same ↦ absurd (h ((==_iff u t).0 same))
  | inr differ ↦ rw differ refl
]

set_compaction_state-picked :
    (t : ℕ) (states : States)
    → IsPickable states t
    → set_compaction_state t in_compaction states ≡ some (store t in_compaction states)
unfolding set_compaction_state
set_compaction_state-picked t states h = rw h refl

store-Changed :
    (t : ℕ) (states : States) → IsPickable states t → Changed states (store t in_compaction states)
store-Changed t states h u = elim (Bool-cases (u == t)) [
  | inl same ↦
      let e : u ≡ t = (==_iff u t).0 same in
      inr (ap states e ∙ h, ap (store t in_compaction states) e ∙ store-same t in_compaction states)
  | inr differ ↦ inl (store-other t u in_compaction states (λ e. cc (differ, (==_iff u t).1 e)))
]

other_picks :
    (t : ℕ) (states : States) (ts : List ℕ)
    → All (λ (u : ℕ). u ≢ t) ts
    → All (IsPickable states) ts
    → All (IsPickable (store t in_compaction states)) ts
other_picks t states [] h p = tt
other_picks t states (u ∷ us) (h, hs) (p, ps) =
    (store-other t u in_compaction states h ∙ p, other_picks t states us hs ps)

-- Distinct tables that can be picked are put into compaction.
pub mark-picked :
    (ts : List ℕ) (states : States)
    → Distinct ts
    → All (IsPickable states) ts
    → (after : States) × ((mark ts states ≡ some after)
        × (All (InCompaction after) ts × Changed states after))
unfolding mark
mark-picked [] states d p = (states, (refl, (tt, λ t. inl refl)))
mark-picked (t ∷ ts) states (d, ds) (p, ps) =
    let states' = store t in_compaction states in
    let (after, (e, (i, c))) = mark-picked ts states' ds (other_picks t states ts d ps) in
    (
      after,
      (
        ap (and_then (mark ts)) (set_compaction_state-picked t states p) ∙ e,
        (
          (still_in states' after c t (store-same t in_compaction states), i),
          Changed-trans states states' after (store-Changed t states p) c,
        ),
      ),
    )
