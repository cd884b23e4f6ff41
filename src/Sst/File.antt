-- ===== src/Sst/File.antt =====
-- What the store asks of a file: `write`, `read` and `pread` at an offset, and others. `none` is a
-- negative result. The kernel's part is an interface, and its laws are what a regular file does.
use hedge_db.Base.{
  ℕ, ap₂, arith, length-append, take-append, drop-append, drop-drop, ◌+◌, ◌≤◌, ◌≡◌, refl, sym, ◌∙◌,
  ap, List, [], ◌∷◌, ◌++◌, length, take, drop, Option, some, Bool, false, append_assoc,
}

pub record FileOps (F : Type 0) : Type 0 where
  pub write : F → List ℕ → ℕ → F × Option ℕ
  pub read : F → ℕ → ℕ → Option (List ℕ)
  pub file_size : F → ℕ
  -- `ftruncate` and `fdatasync`, each with whether its result is negative.
  pub truncate : F → ℕ → F × Bool
  pub datasync : F → F × Bool

-- A write inside the file or at its end replaces the bytes that are there, appends the rest and reports
-- how many it wrote; a read inside the file gives the bytes that are there; `ftruncate` to a length
-- that is not greater cuts the file off; to sync a file leaves its bytes.
pub record FileLaws {F : Type 0} (ops : FileOps F) : Type 0 where
  pub bytes : F → List ℕ
  pub written :
      (f : F) (bs : List ℕ) (off : ℕ)
      → off ≤ length (bytes f)
      → bytes (ops.write f bs off).0
        ≡ take off (bytes f) ++ (bs ++ drop (off + length bs) (bytes f))
  pub reported :
      (f : F) (bs : List ℕ) (off : ℕ)
      → off ≤ length (bytes f)
      → (ops.write f bs off).1 ≡ some (length bs)
  pub reading :
      (f : F) (n off : ℕ)
      → off + n ≤ length (bytes f)
      → ops.read f n off ≡ some (take n (drop off (bytes f)))
  pub sized : (f : F) → ops.file_size f ≡ length (bytes f)
  pub truncated : (f : F) (n : ℕ) → n ≤ length (bytes f) → (ops.truncate f n).1 ≡ false
  pub kept : (f : F) (n : ℕ) → n ≤ length (bytes f) → bytes (ops.truncate f n).0 ≡ take n (bytes f)
  pub synced : (f : F) → (ops.datasync f).1 ≡ false
  pub unchanged : (f : F) → bytes (ops.datasync f).0 ≡ bytes f

-- The laws, and the bytes that the file had when it was opened: it is preallocated.
pub record FileView {F : Type 0} (ops : FileOps F) : Type 0 where
  pub laws : FileLaws ops
  pub before : List ℕ

abbrev pub view_of : {F : Type 0} → (ops : FileOps F) → FileLaws ops → F → FileView ops
view_of ops laws f = record { laws = laws; before = laws.bytes f }

abbrev pub concat : List (List ℕ) → List ℕ
concat [] = []
concat (p ∷ ps) = p ++ concat ps

pub concat-append : (ps qs : List (List ℕ)) → concat (ps ++ qs) ≡ concat ps ++ concat qs
concat-append [] qs = refl
concat-append (p ∷ ps) qs = rw (concat-append ps qs) (sym (append_assoc p (concat ps) (concat qs)))

module _ {F : Type 0} (ops : FileOps F) (view : FileView ops) where
  -- Some bytes were written from the file's start, and those behind them are as they were.
  abbrev pub Holds : F → List ℕ → Type 0
  Holds f w = view.laws.bytes f ≡ w ++ drop (length w) view.before

  module _ (f : F) (w bs : List ℕ) (off : ℕ) (h : Holds f w) (at_end : off ≡ length w) where
    inside : off ≤ length (view.laws.bytes f)
    inside = omega (arith, at_end, ap length h, length-append w (drop (length w) view.before))

    pub written-Holds : Holds (ops.write f bs off).0 (w ++ bs)
    written-Holds =
        view.laws.written f bs off inside
        ∙ ap₂ (λ (l r : List ℕ). l ++ (bs ++ r))
            (ap (take off) h ∙ take-append off w (drop (length w) view.before) at_end)
            (ap (drop (off + length bs)) h
              ∙ sym (drop-drop off (length bs) (w ++ drop (length w) view.before))
              ∙ ap (drop (length bs)) (drop-append off w (drop (length w) view.before) at_end)
              ∙ drop-drop (length w) (length bs) view.before
              ∙ ap (λ (n : ℕ). drop n view.before) (sym (length-append w bs)))
        ∙ sym (append_assoc w bs (drop (length (w ++ bs)) view.before))

    pub reported_at : (ops.write f bs off).1 ≡ some (length bs)
    reported_at = view.laws.reported f bs off inside
