-- ===== src/SstManager/Lookup.antt =====
-- src/db/sst_manager.cc: `lookup_async` over the levels of a partition, and `push_new_ssts_to_l0`. A
-- partition is its levels, from the newest on; the map of partitions is a function, `none` for a
-- partition that is not there.
use hedge_db.Base.{
  ℕ, List, [], ◌∷◌, ◌++◌, Bool, true, false, not, ◌==◌, if◌then◌else◌, Option, some, none,
}
use hedge_db.Base.Status.{
  Expected, ok, err, error, Errc, key_not_found, generic_error, value_table_not_enough_space,
  deleted, busy, buffer_full, end_of_scan, skip, ◌>>=◌,
}
use hedge_db.Key.{Key}
use hedge_db.Value.{Value}
use hedge_db.Sst.File.{FileOps}
use hedge_db.Sst.Lookup.{Sst, lookup_async, probe_filter}

abbrev pub qf_seed : ℕ
qf_seed = 3735928559

abbrev pub is_key_not_found : Errc → Bool
is_key_not_found key_not_found = true
is_key_not_found generic_error = false
is_key_not_found value_table_not_enough_space = false
is_key_not_found deleted = false
is_key_not_found busy = false
is_key_not_found buffer_full = false
is_key_not_found end_of_scan = false
is_key_not_found skip = false

abbrev pub reversed : {A : Type 0} → List A → List A
reversed [] = []
reversed (x ∷ xs) = reversed xs ++ x ∷ []

abbrev pub Partitions : Type 0 → Type 0 → Type 0
Partitions F Q = ℕ → Option (List (List (Sst F Q)))

module _ {F Q : Type 0} (ops : FileOps F) (xxh64 : List ℕ → ℕ → ℕ) (keys_per_page : ℕ)
    (may_contain : Q → ℕ → Bool) where
  -- What one table's answer means for the search: a value ends it, and so does an error other than
  -- KEY_NOT_FOUND.
  abbrev pub answered : Expected (Option Value) → Expected Value → Expected (Option Value)
  answered later (ok v) = ok (some v)
  answered later (err e) =
      if is_key_not_found e.code
      then later
      else err (error "An error occurred while reading index at path ")

  -- The loop over the tables of a level, from the last on.
  unfoldable pub search_tables : Key → List (Sst F Q) → Expected (Option Value)
  search_tables key [] = ok none
  search_tables key (t ∷ ts) =
      let later = search_tables key ts in
      if not (probe_filter may_contain t (xxh64 key qf_seed))
      then later
      else answered later (lookup_async xxh64 ops keys_per_page key t)

  abbrev pub or_level : Expected Value → Option Value → Expected Value
  or_level later none = later
  or_level later (some v) = ok v

  unfoldable pub search_levels : Key → List (List (Sst F Q)) → Expected Value
  search_levels key [] = err (record { text = "Key not found"; code = key_not_found })
  search_levels key (level ∷ levels) =
      search_tables key (reversed level) >>= or_level (search_levels key levels)

  unfoldable pub acquire_partition_snapshot : ℕ → Partitions F Q → Expected (List (List (Sst F Q)))
  acquire_partition_snapshot id partitions = found (partitions id)
    where
      found : Option (List (List (Sst F Q))) → Expected (List (List (Sst F Q)))
      found none =
          err (record { text = "Partition not found in sorted indices"; code = key_not_found })
      found (some levels) = ok levels

  unfoldable pub manager_lookup : Key → ℕ → Partitions F Q → Expected Value
  manager_lookup key partition_id partitions =
      acquire_partition_snapshot partition_id partitions >>= search_levels key

-- A table goes behind the others of level 0. A partition that is not there, or without a level, has no
-- meaning in the source.
abbrev pub into_l0 :
    {F Q : Type 0} → Sst F Q → Option (List (List (Sst F Q))) → Option (List (List (Sst F Q)))
into_l0 t none = none
into_l0 t (some []) = some []
into_l0 t (some (l0 ∷ levels)) = some ((l0 ++ t ∷ []) ∷ levels)

unfoldable pub push_sst : {F Q : Type 0} → Sst F Q → Partitions F Q → Partitions F Q
push_sst t partitions id =
    if t.footer.upper_bound == id then into_l0 t (partitions id) else partitions id

unfoldable pub push_new_ssts_to_l0 :
    {F Q : Type 0} → List (Sst F Q) → Partitions F Q → Partitions F Q
push_new_ssts_to_l0 [] partitions = partitions
push_new_ssts_to_l0 (t ∷ ts) partitions = push_new_ssts_to_l0 ts (push_sst t partitions)
