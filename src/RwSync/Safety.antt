-- ===== src/RwSync/Safety.antt =====
-- src/async/rw_sync.h: no writer holds an object whose writers were seen to be gone after the freeze.
use hedge_db.Base.{
  ℕ, ◌≡◌, ◌≢◌, refl, sym, ap, ◌∙◌, true, ◌==◌, ==_iff, List, [], ◌∷◌, Bool-cases, inl, inr, ◌⊎◌,
  All, All-get_elem, get_elem?, some,
}
use hedge_db.RwSync.{
  Pc, idle, announced, writing, RwSync, rw_sync, set, announce, check_frozen, store_zero,
  freeze_writes, Step, Steps, announcing, checking, backing_off, releasing, freezing, stop, step,
  Drained, no_more, read_zero,
}

set-same {ℓ} : {A : Type ℓ} (i : ℕ) (a : A) (f : ℕ → A) → set i a f i ≡ a
set-same i a f = rw ((==_iff i i).1 refl) refl

set-other {ℓ} : {A : Type ℓ} (i j : ℕ) (a : A) (f : ℕ → A) → j ≢ i → set i a f j ≡ f j
set-other i j a f h = elim (Bool-cases (j == i)) [
  | inl same ↦ absurd (h ((==_iff j i).0 same))
  | inr differ ↦ rw differ refl
]

equal-cases : (i j : ℕ) → (i ≡ j) ⊎ (i ≢ j)
equal-cases i j = elim (Bool-cases (i == j)) [
  | inl same ↦ inl ((==_iff i j).0 same)
  | inr differ ↦ inr (λ same. cc (differ, (==_iff i j).1 same))
]

moved :
    (t u : ℕ) (p : Pc) (s : RwSync) → s.pcs t ≢ writing → p ≢ writing → set u p s.pcs t ≢ writing
moved t u p s q n e = elim (equal-cases t u) [
  | inl same ↦ n (sym (set-same u p s.pcs) ∙ ap (set u p s.pcs) (sym same) ∙ e)
  | inr differ ↦ q (sym (set-other u t p s.pcs differ) ∙ e)
]

module _ (slot : ℕ → ℕ) (own : (t u : ℕ) → slot t ≡ slot u → t ≡ u) where
  -- A thread that is not idle has announced itself in its own counter.
  abbrev IsAnnounced : RwSync → Type 0
  IsAnnounced s = (t : ℕ) → s.pcs t ≢ idle → s.counters (slot t) ≡ 1

  announce-IsAnnounced : (t : ℕ) (s : RwSync) → IsAnnounced s → IsAnnounced (announce slot t s)
  unfolding announce
  announce-IsAnnounced t s h u busy = elim (equal-cases u t) [
    | inl same ↦ rw (sym same) (set-same (slot u) 1 s.counters)
    | inr differ ↦
        set-other (slot t) (slot u) 1 s.counters (λ e. differ (own u t e))
        ∙ h u (λ e. busy (set-other t u announced s.pcs differ ∙ e))
  ]

  check_frozen-IsAnnounced :
      (t : ℕ) (s : RwSync) → s.pcs t ≡ announced → IsAnnounced s → IsAnnounced (check_frozen t s)
  unfolding check_frozen
  check_frozen-IsAnnounced t s at h u busy = elim (equal-cases u t) [
    | inl same ↦ h u (λ e. cc (at, ap s.pcs same, e))
    | inr differ ↦ h u (λ e. busy (set-other t u _ s.pcs differ ∙ e))
  ]

  store_zero-IsAnnounced : (t : ℕ) (s : RwSync) → IsAnnounced s → IsAnnounced (store_zero slot t s)
  unfolding store_zero
  store_zero-IsAnnounced t s h u busy = elim (equal-cases u t) [
    | inl same ↦ absurd (busy (rw same (set-same t idle s.pcs)))
    | inr differ ↦
        set-other (slot t) (slot u) 0 s.counters (λ e. differ (own u t e))
        ∙ h u (λ e. busy (set-other t u idle s.pcs differ ∙ e))
  ]

  Step-IsAnnounced : {s s' : RwSync} → Step slot s s' → IsAnnounced s → IsAnnounced s'
  unfolding freeze_writes
  Step-IsAnnounced (announcing t s at) h = announce-IsAnnounced t s h
  Step-IsAnnounced (checking t s at) h = check_frozen-IsAnnounced t s at h
  Step-IsAnnounced (backing_off t s at) h = store_zero-IsAnnounced t s h
  Step-IsAnnounced (releasing t s at) h = store_zero-IsAnnounced t s h
  Step-IsAnnounced (freezing s) h = h

  Steps-IsAnnounced : {s s' : RwSync} → Steps slot s s' → IsAnnounced s → IsAnnounced s'
  Steps-IsAnnounced (stop s) h = h
  Steps-IsAnnounced (step one more) h = Steps-IsAnnounced more (Step-IsAnnounced one h)

  -- A frozen object that a thread does not write to.
  abbrev IsQuiet : ℕ → RwSync → Type 0
  IsQuiet t s = (s.frozen ≡ true) × (s.pcs t ≢ writing)

  Step-IsQuiet : {s s' : RwSync} (t : ℕ) → Step slot s s' → IsQuiet t s → IsQuiet t s'
  unfolding announce check_frozen store_zero freeze_writes
  Step-IsQuiet t (announcing u s at) (f, q) = (f, moved t u announced s q (λ e. cc))
  Step-IsQuiet t (checking u s at) (f, q) = (f, moved t u _ s q (λ e. cc (rw f at e)))
  Step-IsQuiet t (backing_off u s at) (f, q) = (f, moved t u idle s q (λ e. cc))
  Step-IsQuiet t (releasing u s at) (f, q) = (f, moved t u idle s q (λ e. cc))
  Step-IsQuiet t (freezing s) (f, q) = (refl, q)

  Steps-IsQuiet : {s s' : RwSync} (t : ℕ) → Steps slot s s' → IsQuiet t s → IsQuiet t s'
  Steps-IsQuiet t (stop s) q = q
  Steps-IsQuiet t (step one more) q = Steps-IsQuiet t more (Step-IsQuiet t one q)

  Step-frozen : {s s' : RwSync} → Step slot s s' → s.frozen ≡ true → s'.frozen ≡ true
  unfolding announce check_frozen store_zero freeze_writes
  Step-frozen (announcing u s at) f = f
  Step-frozen (checking u s at) f = f
  Step-frozen (backing_off u s at) f = f
  Step-frozen (releasing u s at) f = f
  Step-frozen (freezing s) f = refl

  Steps-frozen : {s s' : RwSync} → Steps slot s s' → s.frozen ≡ true → s'.frozen ≡ true
  Steps-frozen (stop s) f = f
  Steps-frozen (step one more) f = Steps-frozen more (Step-frozen one f)

  Drained-IsQuiet_kept :
      {is : List ℕ} {s s' : RwSync} (t : ℕ) → Drained slot is s s' → IsQuiet t s → IsQuiet t s'
  Drained-IsQuiet_kept t (no_more more) q = Steps-IsQuiet t more q
  Drained-IsQuiet_kept t (read_zero more zero_read rest) q =
      Drained-IsQuiet_kept t rest (Steps-IsQuiet t more q)

  zero-IsQuiet :
      (t : ℕ) (s : RwSync) → IsAnnounced s → s.frozen ≡ true → s.counters (slot t) ≡ 0 → IsQuiet t s
  zero-IsQuiet t s h f z = (f, λ e. cc (z, h t (λ e'. cc (e, e'))))

  Drained-IsQuiet :
      {is : List ℕ} {s s' : RwSync}
      → IsAnnounced s
      → s.frozen ≡ true
      → Drained slot is s s'
      → All (λ (i : ℕ). (t : ℕ) → slot t ≡ i → IsQuiet t s') is
  Drained-IsQuiet h f (no_more more) = tt
  Drained-IsQuiet h f (read_zero {i} {is} {s} {s₁} {s₂} more zero_read rest) = (
    λ t own_slot. Drained-IsQuiet_kept t rest (
        zero-IsQuiet t s₁ (Steps-IsAnnounced more h) (Steps-frozen more f)
          (ap s₁.counters own_slot ∙ zero_read)),
    Drained-IsQuiet (Steps-IsAnnounced more h) (Steps-frozen more f) rest,
  )

  All-IsQuiet :
      {s s' : RwSync} (is : List ℕ)
      → Steps slot s s'
      → All (λ (i : ℕ). (t : ℕ) → slot t ≡ i → IsQuiet t s) is
      → All (λ (i : ℕ). (t : ℕ) → slot t ≡ i → s'.pcs t ≢ writing) is
  All-IsQuiet [] more q = tt
  All-IsQuiet (i ∷ is) more (q, qs) =
      (λ t own_slot. (Steps-IsQuiet t more (q t own_slot)).1, All-IsQuiet is more qs)

  -- From a state that a new lock reaches and that is frozen: once the counters of some slots have
  -- been read as zero, one after the other, no thread of one of these slots writes, then or later, if
  -- no two threads share a slot.
  pub Drained-no_writer :
      (is : List ℕ) (s s' s'' : RwSync)
      → Steps slot rw_sync s
      → s.frozen ≡ true
      → Drained slot is s s'
      → Steps slot s' s''
      → (k t : ℕ) → get_elem? is k ≡ some (slot t)
      → s''.pcs t ≢ writing
  Drained-no_writer is s s' s'' reached f drained more k t at =
      All-get_elem (λ (i : ℕ). (t : ℕ) → slot t ≡ i → s''.pcs t ≢ writing) is k (slot t)
        (All-IsQuiet is more
          (Drained-IsQuiet (Steps-IsAnnounced reached (λ t busy. absurd (busy refl))) f drained))
        at t refl
