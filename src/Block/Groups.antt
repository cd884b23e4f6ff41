-- ===== src/Block/Groups.antt =====
-- src/db/block.cc: the groups of a block's entries. Each starts with an entry whose key is whole, and
-- the trailer has the offset of each.
use hedge_db.Base.{
  ℕ, ◌+◌, ◌*◌, ◌%◌, ◌^◌, ◌≤◌, ◌<◌, ◌≡◌, refl, sym, ◌∙◌, ap, ap₂, List, [], ◌∷◌, ◌++◌, length, Bool,
  true, false, ==_iff, if◌then◌else◌, append_assoc, arith, length-append,
}
use hedge_db.Base.Bits.{and_mask}
use native.Mathlib.Nat.{mul-add-mod_self_right, mul-mod_left, mod-eq_of_lt}
use hedge_db.Key.{Key}
use hedge_db.Block.Sequence.{last_of, Entry, is_restart, entry_bytes, all_bytes, restarts}

pub all_bytes-append :
    (g idx : ℕ) (prev : Key) (xs ys : List Entry)
    → all_bytes g idx prev (xs ++ ys)
      ≡ all_bytes g idx prev xs ++ all_bytes g (idx + length xs) (last_of prev xs) ys
all_bytes-append g idx prev [] ys = ap (λ (i : ℕ). all_bytes g i prev ys) (omega arith)
all_bytes-append g idx prev ((k, v) ∷ xs) ys =
    let first = entry_bytes g idx prev (k, v) in
    ap (λ (bs : List ℕ). first ++ bs) (all_bytes-append g (idx + 1) k xs ys)
    ∙ sym (append_assoc first (all_bytes g (idx + 1) k xs) _)
    ∙ ap (λ (i : ℕ). (first ++ all_bytes g (idx + 1) k xs) ++ all_bytes g i (last_of k xs) ys)
        {x = idx + 1 + length xs} (omega arith)

abbrev with_start : Bool → ℕ → List ℕ → List ℕ
with_start b o os = if b then o ∷ os else os

with_start-append :
    (b : Bool) (o : ℕ) (xs ys : List ℕ) → with_start b o (xs ++ ys) ≡ with_start b o xs ++ ys
with_start-append true o xs ys = refl
with_start-append false o xs ys = refl

pub restarts-append :
    (g idx pos : ℕ) (prev : Key) (xs ys : List Entry)
    → restarts g idx pos prev (xs ++ ys)
      ≡ restarts g idx pos prev xs
        ++ restarts g
            (idx + length xs)
            (pos + length (all_bytes g idx prev xs))
            (last_of prev xs)
            ys
restarts-append g idx pos prev [] ys =
    ap₂ (λ (i p : ℕ). restarts g i p prev ys) (omega arith) (omega arith)
restarts-append g idx pos prev ((k, v) ∷ xs) ys =
    let first = entry_bytes g idx prev (k, v) in
    let start = is_restart g idx in
    ap (with_start start (pos % 2 ^ 16)) (restarts-append g (idx + 1) (pos + length first) k xs ys)
    ∙ with_start-append start (pos % 2 ^ 16) (restarts g (idx + 1) (pos + length first) k xs) _
    ∙ ap₂ (λ (i p : ℕ). restarts g idx pos prev ((k, v) ∷ xs) ++ restarts g i p (last_of k xs) ys)
        (omega arith) (omega (arith, length-append first (all_bytes g (idx + 1) k xs)))

-- The index of an entry in the group of a number.
module _ (w n : ℕ) where
  pub is_restart-first : is_restart (2 ^ w) (n * 2 ^ w) ≡ true
  is_restart-first = rw (and_mask w (n * 2 ^ w)) ((==_iff _ 0).1 (mul-mod_left n (2 ^ w)))

  pub is_restart-inner : (j : ℕ) → 1 ≤ j → j < 2 ^ w → is_restart (2 ^ w) (n * 2 ^ w + j) ≡ false
  is_restart-inner j h k =
      rw (and_mask w (n * 2 ^ w + j), mul-add-mod_self_right n (2 ^ w) j, mod-eq_of_lt k)
        (ground arith)

  -- No entry of a group but the first has an offset.
  restarts-inner :
      (j pos : ℕ) (prev : Key) (xs : List Entry)
      → 1 ≤ j
      → j + length xs ≤ 2 ^ w
      → restarts (2 ^ w) (n * 2 ^ w + j) pos prev xs ≡ []
  restarts-inner j pos prev [] h k = refl
  restarts-inner j pos prev ((key, v) ∷ xs) h k =
      let idx = n * 2 ^ w + j in
      let p = pos + length (entry_bytes (2 ^ w) idx prev (key, v)) in
      ap (λ (b : Bool). with_start b (pos % 2 ^ 16) (restarts (2 ^ w) (idx + 1) p key xs))
        (is_restart-inner j h (omega arith))
      ∙ ap (λ (i : ℕ). restarts (2 ^ w) i p key xs) {x = idx + 1} {y = n * 2 ^ w + (j + 1)}
          (omega arith)
      ∙ restarts-inner (j + 1) p key xs (omega arith) (omega arith)

  -- A group has the offset of its place.
  pub restarts-group :
      (pos : ℕ) (prev k : Key) (v : List ℕ) (xs : List Entry)
      → length xs + 1 ≤ 2 ^ w
      → restarts (2 ^ w) (n * 2 ^ w) pos prev ((k, v) ∷ xs) ≡ (pos % 2 ^ 16) ∷ []
  restarts-group pos prev k v xs h =
      let idx = n * 2 ^ w in
      let p = pos + length (entry_bytes (2 ^ w) idx prev (k, v)) in
      ap (λ (b : Bool). with_start b (pos % 2 ^ 16) (restarts (2 ^ w) (idx + 1) p k xs))
        is_restart-first
      ∙ ap (λ (os : List ℕ). (pos % 2 ^ 16) ∷ os)
          (restarts-inner 1 p k xs (omega arith) (omega arith))
