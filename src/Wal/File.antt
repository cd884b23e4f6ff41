-- ===== src/Wal/File.antt =====
-- src/db/wal.h and src/db/wal.cc: the log's files, and their replay. An exception is `none`.
use hedge_db.Base.{
  ℕ, zero, suc, List, [], ◌∷◌, ◌++◌, length, Bool, true, false, not, ltb, ◌==◌, ◌&&◌, if◌then◌else◌,
  Option, some, none, map,
}
use hedge_db.Base.Status.{Expected, Status, ok, err}
use hedge_db.Wal.Entry.{WalEntry, write_entry, read_entry}
use hedge_db.Base.Sort.{sort}

-- The fields of the directory's entries that `collect_wal_files` looks at.
pub record DirectoryEntry : Type 0 where
  pub name : List ℕ
  pub is_regular_file : Bool
  pub bytes : List ℕ

-- "log".
abbrev pub wal_file_prefix : List ℕ
wal_file_prefix = 108 ∷ 111 ∷ 103 ∷ []

unfoldable pub starts_with : List ℕ → List ℕ → Bool
starts_with [] name = true
starts_with (p ∷ prefix) [] = false
starts_with (p ∷ prefix) (c ∷ name) = let rest = starts_with prefix name in (c == p) && rest

-- The files with something to read, and of those the bytes.
unfoldable pub collect_wal_files : List DirectoryEntry → List (List ℕ)
collect_wal_files [] = []
collect_wal_files (f ∷ fs) =
    let files = collect_wal_files fs in
    if not f.is_regular_file
    then files
    else if length f.bytes == 0
    then files
    else if not (starts_with wal_file_prefix f.name)
    then files
    else f.bytes ∷ files

-- What the generator yields: after an error it yields no more.
abbrev pub yield_from :
    (List ℕ → List (Expected WalEntry)) → Expected (WalEntry × List ℕ) → List (Expected WalEntry)
yield_from next (ok r) = ok r.0 ∷ next r.1
yield_from next (err e) = err e ∷ []

-- The entries that were read, and whether there was an error.
unfoldable pub collect : List (Expected WalEntry) → List WalEntry × Bool
collect [] = ([], false)
collect (ok e ∷ rest) = let r = collect rest in (e ∷ r.0, r.1)
collect (err e ∷ rest) = let r = collect rest in (r.0, true)

abbrev pub before : WalEntry → WalEntry → Bool
before a b = ltb a.seq_nr b.seq_nr

-- The loop of `replay`, over a handler that changes a state and may ask to stop.
abbrev pub go_on {ℓ} : {S : Type ℓ} → (S → Option S) → Option (S × Bool) → Option S
go_on next none = none
go_on next (some (s, true)) = next s
go_on next (some (s, false)) = some s

unfoldable pub replay_entries {ℓ} :
    {S : Type ℓ} → (WalEntry → S → Option (S × Bool)) → List WalEntry → S → Option S
replay_entries on_entry [] s = some s
replay_entries on_entry (e ∷ es) s = go_on (replay_entries on_entry es) (on_entry e s)

-- `replay`; its status is that of no error whenever it returns.
abbrev pub replay_read {ℓ} :
    {S : Type ℓ} → (WalEntry → S → Option (S × Bool)) → S → Option (List WalEntry) → Option S
replay_read on_entry s none = none
replay_read on_entry s (some entries) = replay_entries on_entry entries s

-- A log: the bytes of one file for each thread.
abbrev pub update_nth : ℕ → (List ℕ → List ℕ × Status) → List (List ℕ) → List (List ℕ) × Status
update_nth n f [] = ([], ok tt)
update_nth zero f (x ∷ xs) = ((f x).0 ∷ xs, (f x).1)
update_nth (suc n) f (x ∷ xs) = (x ∷ (update_nth n f xs).0, (update_nth n f xs).1)

unfoldable pub reset : List (List ℕ) → List (List ℕ)
reset files = map (λ (file : List ℕ). []) files

module _ (xxh64 : List ℕ → ℕ → ℕ) where
  unfoldable pub read_loop : ℕ → List ℕ → List (Expected WalEntry)
  read_loop zero pos = []
  read_loop (suc fuel) [] = []
  read_loop (suc fuel) (b ∷ pos) = yield_from (read_loop fuel) (read_entry xxh64 (b ∷ pos))

  -- `read_wal_file_generator`: an entry takes bytes, so no more turns are made than there are bytes.
  unfoldable pub read_wal_file_generator : List ℕ → List (Expected WalEntry)
  read_wal_file_generator buffer = read_loop (length buffer) buffer

  unfoldable pub read_files : List (List ℕ) → List (Expected WalEntry)
  read_files [] = []
  read_files (file ∷ files) = read_wal_file_generator file ++ read_files files

  unfoldable pub read_all_entries : List (List ℕ) → Option (List WalEntry)
  read_all_entries files =
      let r = collect (read_files files) in if r.1 then none else some (sort before r.0)

  unfoldable pub replay {ℓ} :
      {S : Type ℓ} → (WalEntry → S → Option (S × Bool)) → List DirectoryEntry → S → Option S
  replay on_entry directory s =
      let files = collect_wal_files directory in
      if length files == 0 then some s else replay_read on_entry s (read_all_entries files)

  unfoldable pub append :
      (List ℕ → List ℕ → List ℕ × Option ℕ) → ℕ → WalEntry → List (List ℕ) → List (List ℕ) × Status
  append pwritev2 thread_idx e files =
      update_nth thread_idx (λ file. write_entry xxh64 pwritev2 file e) files
