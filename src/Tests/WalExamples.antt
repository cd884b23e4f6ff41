-- ===== src/Tests/WalExamples.antt =====
-- src/db/wal.cc at concrete inputs.
use hedge_db.Base.{
  ℕ, ◌+◌, ◌≡◌, ◌↔◌, refl, sym, ap, List, [], ◌∷◌, ◌++◌, Bool, true, arith, Option, some, none,
  length, take, take_all, All,
}
use hedge_db.Base.Status.{ok}
use hedge_db.Base.Sort.{IsSorted}
use mathlib.Core.List.{Perm}
use hedge_db.Bytes.{to_le}
use hedge_db.Key.{encode_key_size}
use hedge_db.Wal.Entry.{WalEntry, entry_bytes, covered_bytes, checksum, write_entry, read_entry}
use hedge_db.Wal.File.{
  DirectoryEntry, collect_wal_files, starts_with, replay, replay_entries, before, read_loop,
}
use hedge_db.Wal.Format.{Parsed, read_entry_iff}
use hedge_db.Wal.Read.{IsLoggable}
use hedge_db.Wal.Loop.{file_bytes, read_loop-fuel}
use hedge_db.Wal.Replay.{replay-appended, replay-torn, all_entries, all_bytes, write_entry-ok}

abbrev pub no_hash : List ℕ → ℕ → ℕ
no_hash bytes seed = length bytes + seed

abbrev pub whole_write : List ℕ → List ℕ → List ℕ × Option ℕ
whole_write file bytes = (file ++ bytes, some (length bytes))

abbrev first_entry : WalEntry
first_entry = record { seq_nr = 2; key = 7 ∷ []; value = 1 ∷ 5 ∷ [] }

abbrev second_entry : WalEntry
second_entry = record { seq_nr = 1; key = 8 ∷ 9 ∷ []; value = 2 ∷ [] }

abbrev pub one_file : List (List WalEntry)
one_file = (first_entry ∷ second_entry ∷ []) ∷ []

first_entry-IsLoggable : IsLoggable first_entry
first_entry-IsLoggable = record {
  seq_nr = omega arith;
  key = (omega arith, omega arith);
  value = omega arith;
}

pub one_file-IsLoggable : All IsLoggable (first_entry ∷ second_entry ∷ [])
one_file-IsLoggable = (
  first_entry-IsLoggable,
  (record { seq_nr = omega arith; key = (omega arith, omega arith); value = omega arith }, tt),
)

-- The file log.0.0, and a file that is no log.
abbrev pub log_directory : List DirectoryEntry
log_directory =
    record {
      name = 108 ∷ 111 ∷ 103 ∷ 46 ∷ 48 ∷ 46 ∷ 48 ∷ [];
      is_regular_file = true;
      bytes = file_bytes no_hash (first_entry ∷ second_entry ∷ []);
    }
    ∷ record { name = 109 ∷ []; is_regular_file = true; bytes = 1 ∷ [] }
    ∷ []

pub log_directory-bytes : collect_wal_files log_directory ≡ all_bytes no_hash one_file
unfolding collect_wal_files starts_with entry_bytes covered_bytes to_le encode_key_size checksum
log_directory-bytes = refl

-- A handler that counts the entries.
abbrev counting : WalEntry → ℕ → Option (ℕ × Bool)
counting e n = some (n + 1, true)

replay-appended_example :
    (es : List WalEntry) × ((replay no_hash counting log_directory 0 ≡ replay_entries counting es 0)
      × (Perm es (all_entries one_file) × IsSorted before es))
replay-appended_example =
    replay-appended no_hash counting 0 log_directory one_file (one_file-IsLoggable, tt)
      log_directory-bytes

abbrev torn_directory : List DirectoryEntry
torn_directory =
    record {
      name = 108 ∷ 111 ∷ 103 ∷ [];
      is_regular_file = true;
      bytes = file_bytes no_hash [] ++ take 9 (entry_bytes no_hash first_entry);
    }
    ∷ []

replay-torn_example : replay no_hash counting torn_directory 0 ≡ none
unfolding collect_wal_files starts_with entry_bytes covered_bytes to_le encode_key_size checksum
replay-torn_example =
    replay-torn no_hash counting 0 torn_directory [] [] [] 9 first_entry tt first_entry-IsLoggable
      (omega arith) (omega arith) refl

write_entry-ok_example :
    (write_entry no_hash whole_write (1 ∷ []) first_entry).0
    ≡ (1 ∷ []) ++ entry_bytes no_hash first_entry
unfolding write_entry entry_bytes covered_bytes to_le encode_key_size checksum
write_entry-ok_example =
    write_entry-ok no_hash whole_write
      (λ file bytes n e.
        let same : length bytes ≡ n = cc in
        ap (λ (bs : List ℕ). file ++ bs) (sym (take_all n bytes (omega (arith, same)))))
      (1 ∷ []) first_entry refl

read_entry_iff_example :
    (read_entry no_hash (entry_bytes no_hash first_entry) ≡ ok (first_entry, []))
    ↔ Parsed no_hash (entry_bytes no_hash first_entry) first_entry []
read_entry_iff_example = read_entry_iff no_hash (entry_bytes no_hash first_entry) first_entry []

read_loop-fuel_example :
    read_loop no_hash 40 (1 ∷ 2 ∷ 3 ∷ []) ≡ read_loop no_hash 3 (1 ∷ 2 ∷ 3 ∷ [])
read_loop-fuel_example = read_loop-fuel no_hash 40 3 (1 ∷ 2 ∷ 3 ∷ []) (omega arith) (omega arith)
