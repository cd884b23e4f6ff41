-- ===== src/Wal/Replay.antt =====
-- src/db/wal.cc: what `append` keeps in the files and `replay` hands on.
use hedge_db.Base.{
  ℕ, suc, ◌≤◌, ◌<◌, ◌≡◌, refl, sym, ◌∙◌, ap, List, [], ◌∷◌, ◌++◌, length, take, Bool, true, false,
  ◌==◌, if◌then◌else◌, Option, some, none, ==_iff, arith, All, append_assoc, append-nil, map,
  Bool-cases, Option-cases, take_all, inl, inr,
}
use hedge_db.Base.Status.{Expected, ok, err, Error}
use hedge_db.Base.Sort.{sort, sort-Perm, sort-IsSorted, IsSorted}
use mathlib.Core.List.{Perm}
use hedge_db.Wal.Entry.{WalEntry, entry_bytes, write_entry}
use hedge_db.Wal.File.{
  read_all_entries, read_files, collect, before, replay, replay_entries, replay_read,
  collect_wal_files, read_wal_file_generator, DirectoryEntry, read_loop,
}
use hedge_db.Wal.Read.{IsLoggable}
use hedge_db.Wal.Loop.{
  file_bytes, oks, read_wal_file_generator-append, read_wal_file_generator-torn,
}

-- The entries of several files, in the order of the files.
abbrev pub all_entries : List (List WalEntry) → List WalEntry
all_entries [] = []
all_entries (es ∷ files) = es ++ all_entries files

collect-oks : (es : List WalEntry) → collect (oks es) ≡ (es, false)
unfolding collect
collect-oks [] = refl
collect-oks (e ∷ es) = rw (collect-oks es) refl

oks-append : (es fs : List WalEntry) → oks (es ++ fs) ≡ oks es ++ oks fs
oks-append [] fs = refl
oks-append (e ∷ es) fs = ap (λ (r : List (Expected WalEntry)). ok e ∷ r) (oks-append es fs)

collect-err : (xs ys : List (Expected WalEntry)) (x : Error) → (collect (xs ++ err x ∷ ys)).1 ≡ true
unfolding collect
collect-err [] ys x = refl
collect-err (ok e ∷ xs) ys x = collect-err xs ys x
collect-err (err y ∷ xs) ys x = refl

pub before-asymm : (a b : WalEntry) → before a b ≡ true → before b a ≡ false
before-asymm a b h = ground arith

pub before_trans : (a b c : WalEntry) → before a b ≡ false → before b c ≡ false → before a c ≡ false
before_trans a b c h k = ground arith

suc-==_zero : (n : ℕ) → (suc n == 0) ≡ false
suc-==_zero n = ground arith

module _ (xxh64 : List ℕ → ℕ → ℕ) where
  abbrev pub all_bytes : List (List WalEntry) → List (List ℕ)
  all_bytes files = map (file_bytes xxh64) files

  read_file :
      (es : List WalEntry)
      → All IsLoggable es
      → read_wal_file_generator xxh64 (file_bytes xxh64 es) ≡ oks es
  unfolding read_wal_file_generator read_loop
  read_file es l =
      ap (read_wal_file_generator xxh64) (sym (append-nil (file_bytes xxh64 es)))
      ∙ read_wal_file_generator-append xxh64 es [] l
      ∙ append-nil (oks es)

  read_files-all_bytes :
      (files : List (List WalEntry))
      → All (All IsLoggable) files
      → read_files xxh64 (all_bytes files) ≡ oks (all_entries files)
  unfolding read_files
  read_files-all_bytes [] l = refl
  read_files-all_bytes (es ∷ files) (l, ls) =
      rw (read_file es l, read_files-all_bytes files ls) (sym (oks-append es (all_entries files)))

  read_all_entries-all_bytes :
      (files : List (List WalEntry))
      → All (All IsLoggable) files
      → read_all_entries xxh64 (all_bytes files) ≡ some (sort before (all_entries files))
  unfolding read_all_entries
  read_all_entries-all_bytes files l =
      rw (read_files-all_bytes files l, collect-oks (all_entries files)) refl

  replay-files {ℓ} :
      {S : Type ℓ} (on_entry : WalEntry → S → Option (S × Bool)) (s : S)
      (files : List (List WalEntry))
      → All (All IsLoggable) files
      → (if length (all_bytes files) == 0
          then some s
          else replay_read on_entry s (read_all_entries xxh64 (all_bytes files)))
        ≡ replay_entries on_entry (sort before (all_entries files)) s
  unfolding replay_entries sort
  replay-files on_entry s [] l = refl
  replay-files on_entry s (es ∷ files) l =
      rw (suc-==_zero (length (all_bytes files)), read_all_entries-all_bytes (es ∷ files) l) refl

  pub replay-sorted {ℓ} :
      {S : Type ℓ} (on_entry : WalEntry → S → Option (S × Bool)) (s : S)
      (directory : List DirectoryEntry) (files : List (List WalEntry))
      → All (All IsLoggable) files
      → collect_wal_files directory ≡ all_bytes files
      → replay xxh64 on_entry directory s
        ≡ replay_entries on_entry (sort before (all_entries files)) s
  unfolding replay
  replay-sorted on_entry s directory files l same = rw same (replay-files on_entry s files l)

  -- The replay of files to which only entries were appended hands on each of these entries once, by
  -- rising sequence numbers, if the entries fit the format.
  pub replay-appended {ℓ} :
      {S : Type ℓ} (on_entry : WalEntry → S → Option (S × Bool)) (s : S)
      (directory : List DirectoryEntry) (files : List (List WalEntry))
      → All (All IsLoggable) files
      → collect_wal_files directory ≡ all_bytes files
      → (es : List WalEntry) × ((replay xxh64 on_entry directory s ≡ replay_entries on_entry es s)
          × (Perm es (all_entries files) × IsSorted before es))
  unfolding replay
  replay-appended on_entry s directory files l same = (
    sort before (all_entries files),
    (
      replay-sorted on_entry s directory files l same,
      (
        sort-Perm before (all_entries files),
        sort-IsSorted before before-asymm before_trans (all_entries files),
      ),
    ),
  )

  read_files-append :
      (fs gs : List (List ℕ))
      → read_files xxh64 (fs ++ gs) ≡ read_files xxh64 fs ++ read_files xxh64 gs
  unfolding read_files
  read_files-append [] gs = refl
  read_files-append (f ∷ fs) gs =
      ap (λ (r : List (Expected WalEntry)). read_wal_file_generator xxh64 f ++ r)
        (read_files-append fs gs)
      ∙ sym (
          append_assoc (read_wal_file_generator xxh64 f) (read_files xxh64 fs)
            (read_files xxh64 gs))

  read_files-torn :
      (fs gs : List (List ℕ)) (es : List WalEntry) (n : ℕ) (e : WalEntry)
      → All IsLoggable es
      → IsLoggable e
      → 1 ≤ n
      → n < length (entry_bytes xxh64 e)
      → read_all_entries xxh64 (fs ++ (file_bytes xxh64 es ++ take n (entry_bytes xxh64 e)) ∷ gs)
        ≡ none
  unfolding read_all_entries read_files
  read_files-torn fs gs es n e ls l h k =
      let torn_file = file_bytes xxh64 es ++ take n (entry_bytes xxh64 e) in
      let (x, read) = read_wal_file_generator-torn xxh64 es n e ls l h k in
      let flag : (collect (read_files xxh64 (fs ++ torn_file ∷ gs))).1 ≡ true =
        rw (read_files-append fs (torn_file ∷ gs), read)
          (ap (λ (r : List (Expected WalEntry)). (collect r).1)
              {x = read_files xxh64 fs ++ ((oks es ++ err x ∷ []) ++ read_files xxh64 gs)}
              {y = (read_files xxh64 fs ++ oks es) ++ err x ∷ read_files xxh64 gs}
              (simp append_assoc)
            ∙ collect-err (read_files xxh64 fs ++ oks es) (read_files xxh64 gs) x) in
      rw flag refl

  -- One file whose last entry was cut short behind its first byte makes the replay of all files throw,
  -- if the file's entries fit the format.
  pub replay-torn {ℓ} :
      {S : Type ℓ} (on_entry : WalEntry → S → Option (S × Bool)) (s : S)
      (directory : List DirectoryEntry) (fs gs : List (List ℕ)) (es : List WalEntry) (n : ℕ)
      (e : WalEntry)
      → All IsLoggable es
      → IsLoggable e
      → 1 ≤ n
      → n < length (entry_bytes xxh64 e)
      → collect_wal_files directory
        ≡ fs ++ (file_bytes xxh64 es ++ take n (entry_bytes xxh64 e)) ∷ gs
      → replay xxh64 on_entry directory s ≡ none
  unfolding replay
  replay-torn on_entry s directory fs gs es n e ls l h k same =
      rw (same, read_files-torn fs gs es n e ls l h k, some_file fs) refl
    where
      some_file :
          (xs : List (List ℕ))
          → (length (xs ++ (file_bytes xxh64 es ++ take n (entry_bytes xxh64 e)) ∷ gs) == 0) ≡ false
      some_file [] = suc-==_zero (length gs)
      some_file (x ∷ xs) =
          suc-==_zero (length (xs ++ (file_bytes xxh64 es ++ take n (entry_bytes xxh64 e)) ∷ gs))

  -- `_write_entry` says that all is well only if the whole entry stands behind the file's bytes, when
  -- the system call appends as many bytes as it says.
  pub write_entry-ok :
      (pwritev2 : List ℕ → List ℕ → List ℕ × Option ℕ)
      → ((file bytes : List ℕ) (n : ℕ)
          → (pwritev2 file bytes).1 ≡ some n
          → (pwritev2 file bytes).0 ≡ file ++ take n bytes)
      → (file : List ℕ) (e : WalEntry) → (write_entry xxh64 pwritev2 file e).1 ≡ ok tt
      → (write_entry xxh64 pwritev2 file e).0 ≡ file ++ entry_bytes xxh64 e
  unfolding write_entry
  write_entry-ok pwritev2 appends file e h =
      let res = pwritev2 file (entry_bytes xxh64 e) in
      elim (Option-cases res.1) [
        | inl failed ↦ cc (rw failed at h)
        | inr (n, wrote) ↦
            let h' = rw wrote at h in
            elim (Bool-cases (n == length (entry_bytes xxh64 e))) [
              | inl whole ↦
                  appends file (entry_bytes xxh64 e) n wrote
                  ∙ ap (λ (bs : List ℕ). file ++ bs)
                      (take_all n (entry_bytes xxh64 e) (omega (arith, (==_iff _ _).0 whole)))
              | inr part ↦ cc (rw part at h')
            ]
      ]
