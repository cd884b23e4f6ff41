-- ===== src/Wal/Loop.antt =====
-- src/db/wal.cc: what the generator yields from a file.
use hedge_db.Base.{
  ℕ, zero, suc, ◌≤◌, ◌<◌, ◌≡◌, refl, ◌∙◌, ap, List, [], ◌∷◌, ◌++◌, length, take, arith, All,
  append_assoc, map, length-take,
}
use hedge_db.Base.Status.{Expected, ok, err, Error}
use hedge_db.Wal.Entry.{WalEntry, entry_bytes, read_entry}
use hedge_db.Wal.Read.{IsLoggable, read_entry-entry_bytes, read_entry-shorter, read_entry-torn}
use hedge_db.Wal.File.{read_loop, read_wal_file_generator, yield_from}

abbrev pub oks : List WalEntry → List (Expected WalEntry)
oks es = map (λ (e : WalEntry). ok e) es

module _ (xxh64 : List ℕ → ℕ → ℕ) where
  -- The bytes of a file to which entries were appended.
  abbrev pub file_bytes : List WalEntry → List ℕ
  file_bytes [] = []
  file_bytes (e ∷ es) = entry_bytes xxh64 e ++ file_bytes es

  read_loop-ok :
      (fuel : ℕ) (pos : List ℕ) (e : WalEntry) (rest : List ℕ)
      → read_entry xxh64 pos ≡ ok (e, rest)
      → read_loop xxh64 (suc fuel) pos ≡ ok e ∷ read_loop xxh64 fuel rest
  unfolding read_loop
  read_loop-ok fuel [] e rest h = absurd (omega (arith, read_entry-shorter xxh64 [] e rest h))
  read_loop-ok fuel (b ∷ pos) e rest h = rw h refl

  -- The loop makes no more turns than there are bytes: two bounds that are not smaller give the same.
  pub read_loop-fuel :
      (f g : ℕ) (pos : List ℕ)
      → length pos ≤ f
      → length pos ≤ g
      → read_loop xxh64 f pos ≡ read_loop xxh64 g pos
  unfolding read_loop
  read_loop-fuel zero zero pos h k = refl
  read_loop-fuel zero (suc g) [] h k = refl
  read_loop-fuel zero (suc g) (b ∷ pos) h k = absurd (omega arith)
  read_loop-fuel (suc f) zero [] h k = refl
  read_loop-fuel (suc f) zero (b ∷ pos) h k = absurd (omega arith)
  read_loop-fuel (suc f) (suc g) [] h k = refl
  read_loop-fuel (suc f) (suc g) (b ∷ pos) h k =
      go (read_loop-fuel f g) (read_entry xxh64 (b ∷ pos)) refl
    where
      go :
          ((rest : List ℕ)
            → length rest ≤ f
            → length rest ≤ g
            → read_loop xxh64 f rest ≡ read_loop xxh64 g rest)
          → (r : Expected (WalEntry × List ℕ)) → read_entry xxh64 (b ∷ pos) ≡ r
          → yield_from (read_loop xxh64 f) r ≡ yield_from (read_loop xxh64 g) r
      go later (err x) same = refl
      go later (ok (e, rest)) same =
          ap (λ (r : List (Expected WalEntry)). ok e ∷ r)
            (later rest (omega (arith, read_entry-shorter xxh64 (b ∷ pos) e rest same))
              (omega (arith, read_entry-shorter xxh64 (b ∷ pos) e rest same)))

  -- An entry that is wrong ends the reading of the file.
  pub read_wal_file_generator-err :
      (pos : List ℕ) (x : Error)
      → 1 ≤ length pos
      → read_entry xxh64 pos ≡ err x
      → read_wal_file_generator xxh64 pos ≡ err x ∷ []
  unfolding read_wal_file_generator read_loop
  read_wal_file_generator-err [] x h wrong = absurd (omega arith)
  read_wal_file_generator-err (b ∷ pos) x h wrong = rw wrong refl

  -- The generator yields what was appended, then what it yields from the rest.
  pub read_wal_file_generator-append :
      (es : List WalEntry) (rest : List ℕ)
      → All IsLoggable es
      → read_wal_file_generator xxh64 (file_bytes es ++ rest)
        ≡ oks es ++ read_wal_file_generator xxh64 rest
  unfolding read_wal_file_generator
  read_wal_file_generator-append [] rest l = refl
  read_wal_file_generator-append (e ∷ es) rest (l, ls) =
      let tail = file_bytes es ++ rest in
      let read = read_entry-entry_bytes xxh64 e l tail in
      let shorter = read_entry-shorter xxh64 (entry_bytes xxh64 e ++ tail) e tail read in
      ap (λ (bs : List ℕ). read_loop xxh64 (length bs) bs)
        (append_assoc (entry_bytes xxh64 e) (file_bytes es) rest)
      ∙ read_loop-fuel _ (suc (length (entry_bytes xxh64 e ++ tail))) (entry_bytes xxh64 e ++ tail)
          (omega arith) (omega arith)
      ∙ read_loop-ok (length (entry_bytes xxh64 e ++ tail)) _ e tail read
      ∙ ap (λ (r : List (Expected WalEntry)). ok e ∷ r)
          (read_loop-fuel _ (length tail) tail (omega (arith, shorter)) (omega arith)
            ∙ read_wal_file_generator-append es rest ls)

  -- A file whose last entry was cut short.
  pub read_wal_file_generator-torn :
      (es : List WalEntry) (n : ℕ) (e : WalEntry)
      → All IsLoggable es
      → IsLoggable e
      → 1 ≤ n
      → n < length (entry_bytes xxh64 e)
      → (x : Error) × (read_wal_file_generator xxh64 (file_bytes es ++ take n (entry_bytes xxh64 e))
          ≡ oks es ++ err x ∷ [])
  read_wal_file_generator-torn es n e ls l some_bytes short =
      let (x, torn) = read_entry-torn xxh64 n e l short in
      (
        x,
        read_wal_file_generator-append es (take n (entry_bytes xxh64 e)) ls
            ∙ ap (λ (r : List (Expected WalEntry)). oks es ++ r)
                (read_wal_file_generator-err (take n (entry_bytes xxh64 e)) x
                  (omega (arith, length-take n (entry_bytes xxh64 e))) torn),
      )
