-- ===== src/SstManager/Compaction.antt =====
-- src/db/sst.h and src/db/sst_manager.cc: the state of a sorted table in a compaction, and the choice
-- of the tables that are merged. A table is its address; a throw is `none`.
use hedge_db.Base.{
  ℕ, zero, suc, List, [], ◌∷◌, ◌++◌, length, Bool, true, false, not, ◌&&◌, ◌==◌, if◌then◌else◌, ltb,
  leb, Option, some, none,
}

pub data CompactionProgressState : Type 0 where
  pickable_for_compaction : CompactionProgressState
  in_compaction : CompactionProgressState
  compacted : CompactionProgressState
  compaction_error : CompactionProgressState

abbrev pub valid_transition : CompactionProgressState → CompactionProgressState → Bool
valid_transition pickable_for_compaction in_compaction = true
valid_transition pickable_for_compaction compaction_error = true
valid_transition in_compaction compacted = true
valid_transition in_compaction compaction_error = true
valid_transition compacted compaction_error = true
valid_transition _ _ = false

abbrev pub set_state_from :
    CompactionProgressState → CompactionProgressState → Option CompactionProgressState
set_state_from compaction_error new_state = some compaction_error
set_state_from curr_state new_state =
    if not (valid_transition curr_state new_state) then none else some new_state

abbrev pub is_pickable : CompactionProgressState → Bool
is_pickable pickable_for_compaction = true
is_pickable _ = false

abbrev pub States : Type 0
States = ℕ → CompactionProgressState

unfoldable pub store : ℕ → CompactionProgressState → States → States
store t state states u = if u == t then state else states u

abbrev pub stored : ℕ → States → Option CompactionProgressState → Option States
stored t states none = none
stored t states (some state) = some (store t state states)

unfoldable pub set_compaction_state : ℕ → CompactionProgressState → States → Option States
set_compaction_state t new_state states = stored t states (set_state_from (states t) new_state)

unfoldable pub skip_non_pickable_ssts : States → List ℕ → List ℕ
skip_non_pickable_ssts states [] = []
skip_non_pickable_ssts states (t ∷ ts) =
    let later = skip_non_pickable_ssts states ts in if is_pickable (states t) then t ∷ ts else later

-- The states of the tables and the buckets of the level.
pub record Picking : Type 0 where
  pub states : States
  pub out_buckets : List (List ℕ)

abbrev pub and_then : (States → Option States) → Option States → Option States
and_then f none = none
and_then f (some s) = f s

unfoldable pub mark : List ℕ → States → Option States
mark [] states = some states
mark (t ∷ ts) states = and_then (mark ts) (set_compaction_state t in_compaction states)

abbrev pub with_bucket : List ℕ → Picking → Option States → Option Picking
with_bucket candidates p none = none
with_bucket candidates p (some states) =
    some (record { states = states; out_buckets = p.out_buckets ++ candidates ∷ [] })

-- The loop's body where it goes on with what is left behind its place.
abbrev pub Rounds : Type 0
Rounds = List ℕ → List ℕ → Picking → Option Picking

abbrev pub restart_at : Rounds → List ℕ → Picking → Option Picking
restart_at next [] p = some p
restart_at next (t ∷ ts) p = next ts (t ∷ []) p

abbrev pub restart : Rounds → List ℕ → Option Picking → Option Picking
restart next ts none = none
restart next ts (some p) = restart_at next (skip_non_pickable_ssts p.states ts) p

module _ (min_merge_width max_merge_width : ℕ) where
  unfoldable pub emit : List ℕ → Picking → Option Picking
  emit candidates p =
      if leb min_merge_width (length candidates)
      then with_bucket candidates p (mark candidates p.states)
      else some p

  -- A table that is taken: the last one leads on to the emission.
  abbrev pub taken : Rounds → ℕ → List ℕ → List ℕ → Picking → Option Picking
  taken next t [] candidates p = restart next (t ∷ []) (emit candidates p)
  taken next t (u ∷ us) candidates p = next (u ∷ us) candidates p

  abbrev pub round : Rounds → ℕ → List ℕ → List ℕ → Picking → Option Picking
  round next t ts candidates p =
      if is_pickable (p.states t) && ltb (length candidates) max_merge_width
      then taken next t ts (candidates ++ t ∷ []) p
      else restart next (t ∷ ts) (emit candidates p)

  unfoldable pub buckets_loop : ℕ → List ℕ → List ℕ → Picking → Option Picking
  buckets_loop zero ts candidates p = some p
  buckets_loop (suc fuel) [] candidates p = some p
  buckets_loop (suc fuel) (t ∷ ts) candidates p = round (buckets_loop fuel) t ts candidates p

  unfoldable pub create_buckets_from_level : List ℕ → Picking → Option Picking
  create_buckets_from_level level p =
      if ltb (length level) min_merge_width
      then some p
      else restart_at (buckets_loop (length level)) (skip_non_pickable_ssts p.states level) p
