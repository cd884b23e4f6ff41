-- ===== src/Sst/FilterSize.antt =====
-- src/db/index_ops.cc: the size that `create_qf_for_key_count` asks for, and the filter that it gets.
use hedge_db.Base.{
  List, ◌<◌, sym, ℕ, zero, suc, ◌+◌, ◌*◌, ◌/◌, ◌^◌, ◌≤◌, ◌≡◌, inl, inr, Bool-cases, true, ltb,
  ltb→lt, ltb→le, lt→ltb, arith,
}
use hedge_db.Base.Status.{ok}
use hedge_db.Key.{Key}
use hedge_db.Sst.Export.{FilterOps, create_qf_for_key_count, slot_bits, qf_bits_per_key}
use hedge_db.SstManager.Lookup.{qf_seed}
use mathlib.Core.Path.{subst}

-- What qf.h says of a filter: one of 2^q places can be made for q and r of at least one bit and 64 bits
-- together, given the memory; while it is not full it takes a hash, and it never denies one that it took.
-- `free` is the number of places that are left.
pub record FilterKeeps {Q : Type 0} (filter : FilterOps Q) (xxh64 : List ℕ → ℕ → ℕ) : Type 0 where
  pub free : Q → ℕ
  pub init :
      (q r : ℕ)
      → 1 ≤ q
      → 1 ≤ r
      → q + r ≤ 64
      → (f : Q) × ((filter.make q r ≡ ok f) × (2 ^ q ≤ free f))
  pub taken : (key : Key) (f : Q) → free f ≤ free (filter.insert key f) + 1
  pub inserted :
      (key : Key) (f : Q)
      → 1 ≤ free f
      → filter.may_contain (filter.insert key f) (xxh64 key qf_seed) ≡ true
  pub kept :
      (key : Key) (f : Q) (hash : ℕ)
      → filter.may_contain f hash ≡ true
      → filter.may_contain (filter.insert key f) hash ≡ true

twice : (s k : ℕ) → s * 2 ^ suc k ≡ s * 2 * 2 ^ k
twice s k = grind arith

-- The loop ends with a power of two that is not less than the slots, and with no greater one than needed.
slot_bits-enough :
    (fuel slots s : ℕ) → slots ≤ s * 2 ^ fuel → slots ≤ s * 2 ^ slot_bits fuel slots s
unfolding slot_bits
slot_bits-enough zero slots s h = h
slot_bits-enough (suc fuel) slots s h = elim (Bool-cases (ltb s slots)) [
  | inl less ↦ rw less (
      subst (λ (n : ℕ). slots ≤ n) (sym (twice s _))
        (slot_bits-enough fuel slots (s * 2) (subst (λ (n : ℕ). slots ≤ n) (twice s fuel) h)))
  | inr enough ↦ rw enough (omega (arith, ltb→le s slots enough))
]

slot_bits-least : (fuel slots s k : ℕ) → slots ≤ s * 2 ^ k → slot_bits fuel slots s ≤ k
unfolding slot_bits
slot_bits-least zero slots s k h = omega arith
slot_bits-least (suc fuel) slots s zero h = elim (Bool-cases (ltb s slots)) [
  | inl less ↦ absurd (omega (arith, ltb→lt s slots less, h))
  | inr enough ↦ rw enough (omega arith)
]
slot_bits-least (suc fuel) slots s (suc k) h = elim (Bool-cases (ltb s slots)) [
  | inl less ↦ rw less (
      omega
        (arith, slot_bits-least fuel slots (s * 2) k (subst (λ (n : ℕ). slots ≤ n) (twice s k) h)))
  | inr enough ↦ rw enough (omega arith)
]

slot_bits-positive : (fuel slots s : ℕ) → s < slots → 1 ≤ slot_bits (suc fuel) slots s
unfolding slot_bits
slot_bits-positive fuel slots s h = rw (lt→ltb s slots h) (omega arith)

module _ {Q : Type 0} (filter : FilterOps Q) (xxh64 : List ℕ → ℕ → ℕ)
    (keeps : FilterKeeps filter xxh64) where
  -- For as many keys as there are, and not more than 2^53, a filter can be made that takes them all.
  pub create_qf-free :
      (n : ℕ)
      → 1 ≤ n
      → n ≤ 2 ^ 53
      → (f : Q) × ((create_qf_for_key_count filter n ≡ ok f) × (n ≤ keeps.free f))
  unfolding create_qf_for_key_count
  create_qf-free n some_key few =
      let slots = (n * 4 + 2) / 3 in
      let q = slot_bits 64 slots 1 in
      let small : slots ≤ 1 * 2 ^ 54 = omega arith in
      let large : slots ≤ 1 * 2 ^ 64 = omega arith in
      let enough = slot_bits-enough 64 slots 1 large in
      let (f, (made, free)) =
        keeps.init q qf_bits_per_key (slot_bits-positive 63 slots 1 (omega arith)) (omega arith)
          (omega (arith, slot_bits-least 64 slots 1 54 small)) in
      (f, (made, omega (arith, enough, free)))
