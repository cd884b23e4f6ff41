-- ===== src/Merge/Epoch.antt =====
-- src/db/merge/merge.cc: the epoch of the merged file.
use hedge_db.Base.{
  ℕ, ◌≤◌, ◌≡◌, List, [], ◌∷◌, true, false, ltb, All, zero, suc, some, get_elem?, refl, sym,
  Bool-cases, inl, inr, arith, ltb→le, ltb→lt,
}
use mathlib.Core.Path.{subst}
use hedge_db.Merge.Run.{max_element}

least_first :
    (m k : ℕ) → m ≤ k → (es : List ℕ) → All (λ (e : ℕ). k ≤ e) es → All (λ (e : ℕ). m ≤ e) es
least_first m k h [] hs = tt
least_first m k h (e ∷ es) (i, is) = (omega arith, least_first m k h es is)

abbrev pub IsLeast : ℕ → List ℕ → Type 0
IsLeast m es = All (λ (e : ℕ). m ≤ e) es × ((i : ℕ) × (get_elem? es i ≡ some m))

behind_first :
    (largest e : ℕ) (es : List ℕ) {m : ℕ}
    → (i : ℕ) × (get_elem? (largest ∷ es) i ≡ some m)
    → (i : ℕ) × (get_elem? (largest ∷ e ∷ es) i ≡ some m)
behind_first largest e es (zero, h) = (0, h)
behind_first largest e es (suc i, h) = (suc (suc i), h)

step_to :
    (largest e : ℕ) (es : List ℕ)
    → ltb e largest ≡ true
    → max_element largest (e ∷ es) ≡ max_element e es
unfolding max_element
step_to largest e es h = rw h refl

step_over :
    (largest e : ℕ) (es : List ℕ)
    → ltb e largest ≡ false
    → max_element largest (e ∷ es) ≡ max_element largest es
unfolding max_element
step_over largest e es h = rw h refl

only : (largest : ℕ) → max_element largest [] ≡ largest
unfolding max_element
only largest = refl

-- The epoch that the merge takes is an epoch of one of its files, and none of them has a smaller one.
pub max_element-IsLeast :
    (largest : ℕ) (es : List ℕ) → IsLeast (max_element largest es) (largest ∷ es)
max_element-IsLeast largest [] =
    subst (λ (m : ℕ). IsLeast m (largest ∷ [])) (sym (only largest)) ((omega arith, tt), (0, refl))
max_element-IsLeast largest (e ∷ es) =
    let Goal : ℕ → Type 0 = λ m. IsLeast m (largest ∷ e ∷ es) in
    elim (Bool-cases (ltb e largest)) [
      | inl less ↦
          let ((h, hs), (i, at_i)) = max_element-IsLeast e es in
          let first : max_element e es ≤ largest = omega (arith, h, ltb→lt e largest less) in
          subst Goal (sym (step_to largest e es less)) ((first, (h, hs)), (suc i, at_i))
      | inr more ↦
          let ((h, hs), m) = max_element-IsLeast largest es in
          let second : max_element largest es ≤ e = omega (arith, h, ltb→le e largest more) in
          subst Goal (sym (step_over largest e es more))
            ((h, (second, hs)), behind_first largest e es m)
    ]
