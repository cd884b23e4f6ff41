-- ===== src/SstManager/Backpressure.antt =====
-- src/db/sst_manager.cc: `_update_pending_compactions_counter`, the gate that holds writes back.
use hedge_db.Base.{
  ℕ, ◌+◌, ◌-◌, ◌*◌, ◌^◌, ◌≤◌, ◌<◌, ◌≡◌, Bool, true, false, not, ◌&&◌, if◌then◌else◌, ltb, Option,
  some, none, List, [], ◌∷◌, Bool-cases, inl, inr, arith,
}

pub record Backpressure : Type 0 where
  pub pending_count : ℕ
  pub applied : Bool

-- The argument `count`: tables that are taken on and tables that are done.
pub data Count : Type 0 where
  plus : ℕ → Count
  minus : ℕ → Count

-- A count below zero fails an assertion of the source.
abbrev pub counted : Count → ℕ → ℕ
counted (plus n) pending = pending + n
counted (minus n) pending = pending - n

abbrev pub Fits : Count → ℕ → Type 0
Fits (plus n) pending = Unit {0}
Fits (minus n) pending = n ≤ pending

-- The source's assertion holds at each call.
abbrev pub IsCounted : List Count → ℕ → Type 0
IsCounted [] pending = Unit {0}
IsCounted (c ∷ cs) pending = Fits c pending × IsCounted cs (counted c pending)

-- The flag after a call, from the flag before it.
unfoldable pub gate : ℕ → ℕ → Bool → Bool
gate threshold pending applied =
    if not applied && ltb threshold pending
    then true
    else if applied && ltb pending threshold
    then false
    else applied

gate-IsGated :
    (t p : ℕ) (applied : Bool)
    → (gate t p applied ≡ true → t ≤ p) × (gate t p applied ≡ false → p ≤ t)
unfolding gate
gate-IsGated t p true = ground arith
gate-IsGated t p false = ground arith

gate-drained : (t p : ℕ) (applied : Bool) → p < t → gate t p applied ≡ false
unfolding gate
gate-drained t p true h = ground arith
gate-drained t p false h = ground arith

gate-stuck : (p : ℕ) (applied : Bool) → applied ≡ true → gate 0 p applied ≡ true
unfolding gate
gate-stuck p true h = ground arith
gate-stuck p false h = cc

module _ (ssts_in_l0_block_write_threshold : Option ℕ) (num_partition_exponent : ℕ) where
  abbrev pub scaled : Option ℕ → ℕ
  scaled none = 2 ^ 63 - 1
  scaled (some t) = t * 2 ^ num_partition_exponent

  unfoldable pub threshold : ℕ
  threshold = scaled ssts_in_l0_block_write_threshold

  unfoldable pub update_pending_compactions_counter : Count → Backpressure → Backpressure
  update_pending_compactions_counter count s =
      let pending = counted count s.pending_count in
      record { pending_count = pending; applied = gate threshold pending s.applied }

  -- Where writes are held back, the threshold is reached; elsewhere it is not passed.
  abbrev pub IsGated : Backpressure → Type 0
  IsGated s =
      (s.applied ≡ true → threshold ≤ s.pending_count)
      × (s.applied ≡ false → s.pending_count ≤ threshold)

  abbrev pub update_all : List Count → Backpressure → Backpressure
  update_all [] s = s
  update_all (c ∷ cs) s = update_all cs (update_pending_compactions_counter c s)

  rest :
      (c : Count) (cs : List Count) (s : Backpressure)
      → IsCounted cs (counted c s.pending_count)
      → IsCounted cs (update_pending_compactions_counter c s).pending_count
  unfolding update_pending_compactions_counter
  rest c cs s h = h

  update_pending_compactions_counter-IsGated :
      (count : Count) (s : Backpressure) → IsGated (update_pending_compactions_counter count s)
  unfolding update_pending_compactions_counter
  update_pending_compactions_counter-IsGated count s =
      gate-IsGated threshold (counted count s.pending_count) s.applied

  -- After any calls, the threshold is reached if writes are held back and not passed if they are not,
  -- where this is so before them; and if fewer tables are pending than the threshold, writes go on.
  pub update_all-IsGated :
      (counts : List Count) (s : Backpressure)
      → IsGated s
      → IsGated (update_all counts s)
        × ((update_all counts s).pending_count < threshold → (update_all counts s).applied ≡ false)
  update_all-IsGated [] s g = (g, λ h. below s g h)
    where
      below : (s : Backpressure) → IsGated s → s.pending_count < threshold → s.applied ≡ false
      below s (reached, passed) h = elim (Bool-cases s.applied) [
        | inl on ↦ absurd (omega (arith, reached on, h))
        | inr off ↦ off
      ]
  update_all-IsGated (c ∷ cs) s g =
      update_all-IsGated cs (update_pending_compactions_counter c s)
        (update_pending_compactions_counter-IsGated c s)

  still_applied :
      (c : Count) (s : Backpressure)
      → threshold ≡ 0
      → s.applied ≡ true
      → (update_pending_compactions_counter c s).applied ≡ true
  unfolding update_pending_compactions_counter
  still_applied c s h e = rw h (gate-stuck (counted c s.pending_count) s.applied e)

  -- With a threshold of zero, writes that are held back stay so after any calls that never subtract more
  -- than is pending.
  pub update_all-stuck :
      (counts : List Count) (s : Backpressure)
      → threshold ≡ 0
      → IsCounted counts s.pending_count
      → s.applied ≡ true
      → (update_all counts s).applied ≡ true
  update_all-stuck [] s h k e = e
  update_all-stuck (c ∷ cs) s h (k, ks) e =
      update_all-stuck cs (update_pending_compactions_counter c s) h (rest c cs s ks)
        (still_applied c s h e)
