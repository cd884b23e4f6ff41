-- ===== src/Varint/Encode.antt =====
-- src/db/varint.h: what `unsafe_varint` writes, and its length against `varint_length`.
use hedge_db.Base.{
  ℕ, zero, suc, ◌+◌, ◌/◌, ◌%◌, ◌^◌, ◌≤◌, ◌<◌, ◌≡◌, refl, List, [], ◌∷◌, arith, length, All,
}
use hedge_db.Base.Bits.{or_top_bit, pow_pos, div_digit}
use native.Mathlib.Bridge.{le_prop}
use native.Mathlib.Nat.{pow-suc}
use hedge_db.Base.Order.{lt_wf}
use hedge_db.Varint.{unsafe_varint_loop, unsafe_varint, bit_width_loop, bit_width, varint_length}
use mathlib.Core.Logic.{dif_pos, dif_neg}
use mathlib.Core.WellFounded.{Acc}
use native.Mathlib.Decide.{dec_le, dec_lt}

abbrev pub IsByte : ℕ → Type 0
IsByte b = b < 256

-- The bytes of a number, as a relation: seven bits in each, and the top bit on all but the last.
pub data Groups : ℕ → List ℕ → Type 0 where
  last : (v : ℕ) → v < 128 → Groups v (v ∷ [])
  more : (v : ℕ) (bs : List ℕ) → 128 ≤ v → Groups (v / 128) bs → Groups v ((v % 128 + 128) ∷ bs)

unsafe_varint_loop-Groups : (v : ℕ) (w : Acc ◌<◌ v) → Groups v (unsafe_varint_loop v w)
unfolding unsafe_varint_loop
unsafe_varint_loop-Groups v (Acc.intro _ smaller) = elim (dec_le 128 v) [
  | yes h ↦
      rw (dif_pos _ le_prop h, or_top_bit v)
        (Groups.more v _ h (unsafe_varint_loop-Groups (v / 128) (smaller _ _)))
  | no h ↦ rw (dif_neg _ h, byte h) (Groups.last v (omega arith))
]
  where
    byte : ¬ (128 ≤ v) → v % 256 ≡ v
    byte h = omega arith

pub unsafe_varint-Groups : (v : ℕ) → Groups v (unsafe_varint v)
unfolding unsafe_varint
unsafe_varint-Groups v = unsafe_varint_loop-Groups v (lt_wf.apply v)

pub Groups-IsByte : {v : ℕ} {bs : List ℕ} → Groups v bs → All IsByte bs
Groups-IsByte (last v h) = omega arith
Groups-IsByte (more v bs h g) = (omega arith, Groups-IsByte g)

-- The number of binary digits, as a relation.
data Width : ℕ → ℕ → Type 0 where
  none : (v : ℕ) → v ≡ 0 → Width v 0
  digit : (v n : ℕ) → 0 < v → Width (v / 2) n → Width v (suc n)

bit_width_loop-Width : (v : ℕ) (w : Acc ◌<◌ v) → Width v (bit_width_loop v w)
unfolding bit_width_loop
bit_width_loop-Width v (Acc.intro _ smaller) = elim (dec_lt 0 v) [
  | yes h ↦ rw (dif_pos _ le_prop h) (digit v _ h (bit_width_loop-Width (v / 2) (smaller _ _)))
  | no h ↦ rw (dif_neg _ h) (none v (omega arith))
]

bit_width-Width : (v : ℕ) → Width v (bit_width v)
unfolding bit_width
bit_width-Width v = bit_width_loop-Width v (lt_wf.apply v)

Width-half : {v n : ℕ} → Width v n → 0 < v → (m : ℕ) × (n ≡ suc m) × Width (v / 2) m
Width-half (none v e) h = absurd (omega arith)
Width-half (digit v n p w) h = (n, refl, w)

Width-le : {v n : ℕ} → Width v n → (k : ℕ) → v < 2 ^ k → n ≤ k
Width-le (none v e) k h = omega arith
Width-le (digit v n p w) zero h = absurd (omega arith)
Width-le (digit v n p w) (suc k) h = omega (arith, Width-le w k (omega (arith, pow-suc 2 k)))

Width-halves :
    (k : ℕ) {v n : ℕ} → Width v n → 2 ^ k ≤ v → (m : ℕ) × (n ≡ k + m) × Width (v / 2 ^ k) m
Width-halves zero {v} {n} w h = (n, omega arith, rw whole w)
  where
    whole : v / 2 ^ 0 ≡ v
    whole = omega arith
Width-halves (suc k) {v} {n} w h =
    let (m, e, w') = Width-half w (omega (arith, pow_pos k, pow-suc 2 k)) in
    let (j, e', w'') = Width-halves k w' (omega (arith, pow-suc 2 k)) in
    (j, omega arith, rw (div_digit v k) w'')

Groups-length :
    {v : ℕ} {bs : List ℕ} → Groups v bs → {n : ℕ} → Width v n → 0 < v → length bs ≡ (n + 6) / 7
Groups-length (last v h) {n} w p =
    let (m, e, w') = Width-half w p in omega (arith, Width-le w 7 (omega arith))
Groups-length (more v bs h g) {n} w p =
    let (m, e, w') = Width-halves 7 w h in omega (arith, Groups-length g w' (omega arith))

Groups-length_small : {v : ℕ} {bs : List ℕ} → Groups v bs → v < 128 → length bs ≡ 1
Groups-length_small (last v h) p = refl
Groups-length_small (more v bs h g) p = absurd (omega arith)

-- `varint_length` is the number of bytes that `unsafe_varint` writes.
pub length-unsafe_varint : (v : ℕ) → length (unsafe_varint v) ≡ varint_length v
unfolding varint_length
length-unsafe_varint zero = Groups-length_small (unsafe_varint-Groups 0) (omega arith)
length-unsafe_varint (suc v) =
    ground (arith, Groups-length (unsafe_varint-Groups (suc v)) (bit_width-Width (suc v)))

Groups-length-le : (k : ℕ) {v : ℕ} {bs : List ℕ} → Groups v bs → v < 128 ^ suc k → length bs ≤ suc k
Groups-length-le k (last v h) p = omega arith
Groups-length-le zero (more v bs h g) p = absurd (omega arith)
Groups-length-le (suc k) (more v bs h g) p =
    omega (arith, Groups-length-le k g (omega (arith, pow-suc 128 (suc k))))

-- A number below 128^(k+1) takes k+1 bytes at most.
pub length-unsafe_varint-le : (k v : ℕ) → v < 128 ^ suc k → length (unsafe_varint v) ≤ suc k
length-unsafe_varint-le k v h = Groups-length-le k (unsafe_varint-Groups v) h
