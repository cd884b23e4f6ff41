-- ===== src/Merge/Deduplicator.antt =====
-- src/db/merge/merge_utils.h: `merge_entry_t` and `deduplicator`. A throw is `none`.
use hedge_db.Base.{ℕ, ◌+◌, Bool, true, false, not, if◌then◌else◌, Option, some, none, List}
use hedge_db.Key.{Key, key_eq}

pub record MergeEntry : Type 0 where
  pub key : Key
  pub value : List ℕ
  pub epoch : ℕ

pub record Deduplicator : Type 0 where
  pub to_be_checked_item : Option MergeEntry
  pub ready_item : Option MergeEntry
  pub deduplicated_keys : ℕ

abbrev pub deduplicator : Deduplicator
deduplicator = record { to_be_checked_item = none; ready_item = none; deduplicated_keys = 0 }

-- `push` where an item is to be checked.
abbrev pub push_checked : MergeEntry → MergeEntry → Deduplicator → Deduplicator
push_checked checked new_item d =
    if not (key_eq checked.key new_item.key)
    then record d { ready_item = some checked; to_be_checked_item = some new_item }
    else record d { deduplicated_keys = d.deduplicated_keys + 1 }

abbrev pub push_on : Option MergeEntry → MergeEntry → Deduplicator → Deduplicator
push_on none new_item d = record d { to_be_checked_item = some new_item }
push_on (some checked) new_item d = push_checked checked new_item d

unfoldable pub push : MergeEntry → Deduplicator → Deduplicator
push new_item d = push_on d.to_be_checked_item new_item d

abbrev pub is_some : Option MergeEntry → Bool
is_some none = false
is_some (some e) = true

unfoldable pub ready : Deduplicator → Bool
ready d = is_some d.ready_item

abbrev pub popped : Option MergeEntry → Deduplicator → Option (MergeEntry × Deduplicator)
popped none d = none
popped (some e) d = some (e, record d { ready_item = none })

unfoldable pub pop : Deduplicator → Option (MergeEntry × Deduplicator)
pop d = popped d.ready_item d

abbrev pub force_popped : Option MergeEntry → Deduplicator → Option (MergeEntry × Deduplicator)
force_popped none d = none
force_popped (some e) d = some (e, record d { to_be_checked_item = none })

unfoldable pub force_pop : Deduplicator → Option (MergeEntry × Deduplicator)
force_pop d = if ready d then none else force_popped d.to_be_checked_item d
