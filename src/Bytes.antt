-- ===== src/Bytes.antt =====
-- Memory as bytes: unsigned integers in little-endian order, as `memcpy` and the typed stores of
-- src/db/block.cc and src/db/wal.cc lay them out, and a region of memory that is written in order.
use hedge_db.Base.{
  ℕ, zero, suc, ◌+◌, ◌*◌, ◌/◌, ◌%◌, ◌^◌, ◌≤◌, ◌<◌, ◌≡◌, refl, ap, List, [], ◌∷◌, ◌++◌, arith,
  length, length-append, length-take, length-drop, take, drop,
}
use native.Mathlib.Nat.{pow-suc}

abbrev pub IsByte : ℕ → Type 0
IsByte b = b < 256

-- The `n` bytes of an unsigned integer, lowest first; what does not fit is cut off.
unfoldable pub to_le : ℕ → ℕ → List ℕ
to_le zero x = []
to_le (suc n) x = (x % 256) ∷ to_le n (x / 256)

unfoldable pub of_le : List ℕ → ℕ
of_le [] = 0
of_le (b ∷ bs) = b + 256 * of_le bs

pub length-to_le : (n x : ℕ) → length (to_le n x) ≡ n
unfolding to_le
length-to_le zero x = refl
length-to_le (suc n) x = ap suc (length-to_le n (x / 256))

-- A value that fits in `n` bytes is loaded as it was stored.
pub of_le-to_le : (n x : ℕ) → x < 256 ^ n → of_le (to_le n x) ≡ x
unfolding to_le of_le
of_le-to_le zero x h = omega arith
of_le-to_le (suc n) x h = omega (arith, of_le-to_le n (x / 256) (omega (arith, pow-suc 256 n)))

-- A region that is written from its base on: the bytes before the head, and those behind it.
pub record Region : Type 0 where
  pub done : List ℕ
  pub free : List ℕ

-- A store at the head, which moves behind what was stored.
abbrev pub store : List ℕ → Region → Region
store bs r = record { done = r.done ++ bs; free = drop (length bs) r.free }

-- All bytes of the region, from its base.
abbrev pub contents : Region → List ℕ
contents r = r.done ++ r.free

-- The head is set to an offset from the base.
abbrev pub seek : ℕ → Region → Region
seek offset r = record { done = take offset (contents r); free = drop offset (contents r) }

abbrev pub size : Region → ℕ
size r = length r.done + length r.free

-- A store that fits keeps the region's size.
pub size-store : (bs : List ℕ) (r : Region) → length bs ≤ length r.free → size (store bs r) ≡ size r
size-store bs r h = omega (arith, length-append r.done bs, length-drop (length bs) r.free)

pub size-seek : (n : ℕ) (r : Region) → size (seek n r) ≡ size r
size-seek n r =
    omega
      (arith, length-take n (contents r), length-drop n (contents r), length-append r.done r.free)
