-- ===== src/Sst/SuperIndex.antt =====
-- src/db/sst.cc: the super index changes no page that is found.
use hedge_db.Base.{
  ℕ, zero, suc, ◌+◌, ◌*◌, ◌-◌, ◌%◌, ◌/◌, ◌≤◌, ◌<◌, ◌≡◌, refl, ◌∙◌, ap, ◌⊎◌, inl, inr, min, List, [],
  ◌∷◌, length, length-drop, take, drop, true, false, ◌==◌, ltb, if◌then◌else◌, some, none, All,
  Bool-cases, ltb→lt, ltb→le, arith,
}
use hedge_db.Key.{Key, key_lt}
use hedge_db.Key.Order.{key_lt_trans}
use native.Mathlib.Nat.{div-add-mod', mod-lt, div-mul-le_self, div-eq_of_lt-le, add-mul}
use hedge_db.Utils.{ceil}
use hedge_db.Sst.PageId.{lower_bound, nth, super_keys, find_between}

-- Keys rise, without a repetition.
abbrev pub Rising : List Key → Type 0
Rising [] = Unit {0}
Rising (k ∷ ks) = All (λ (k' : Key). key_lt k k' ≡ true) ks × Rising ks

pub lower_bound-le_length : (ks : List Key) (key : Key) → lower_bound ks key ≤ length ks
unfolding lower_bound
lower_bound-le_length [] key = omega arith
lower_bound-le_length (k ∷ ks) key = elim (Bool-cases (key_lt k key)) [
  | inl h ↦ rw h (omega (arith, lower_bound-le_length ks key))
  | inr h ↦ rw h (omega arith)
]

-- The keys in front of the lower bound are less, and the one at it is not.
pub nth-before :
    (ks : List Key) (key : Key) (i : ℕ) → i < lower_bound ks key → key_lt (nth ks i) key ≡ true
unfolding lower_bound
nth-before [] key i h = absurd (omega arith)
nth-before (k ∷ ks) key zero h = elim (Bool-cases (key_lt k key)) [
  | inl less ↦ less
  | inr not_less ↦ absurd (let h' : 0 < 0 = rw not_less at h in omega arith)
]
nth-before (k ∷ ks) key (suc i) h = elim (Bool-cases (key_lt k key)) [
  | inl less ↦
      nth-before ks key i (let h' : suc i < suc (lower_bound ks key) = rw less at h in omega arith)
  | inr not_less ↦ absurd (let h' : suc i < 0 = rw not_less at h in omega arith)
]

pub nth-at :
    (ks : List Key) (key : Key)
    → lower_bound ks key < length ks
    → key_lt (nth ks (lower_bound ks key)) key ≡ false
unfolding lower_bound
nth-at [] key h = absurd (omega arith)
nth-at (k ∷ ks) key h = elim (Bool-cases (key_lt k key)) [
  | inl less ↦ rw less (
      nth-at ks key
        (let h' : suc (lower_bound ks key) < suc (length ks) = rw less at h in omega arith))
  | inr not_less ↦ rw not_less not_less
]

-- A key that is not less is not in front of the lower bound.
pub lower_bound-le :
    (ks : List Key) (key : Key) (i : ℕ)
    → key_lt (nth ks i) key ≡ false
    → i < length ks
    → lower_bound ks key ≤ i
lower_bound-le ks key i h k = elim (Bool-cases (ltb i (lower_bound ks key))) [
  | inl before ↦ cc (h, nth-before ks key i (ltb→lt i (lower_bound ks key) before))
  | inr after ↦ ltb→le i (lower_bound ks key) after
]

All-nth :
    (k : Key) (ks : List Key) (i : ℕ)
    → All (λ (k' : Key). key_lt k k' ≡ true) ks
    → i < length ks
    → key_lt k (nth ks i) ≡ true
All-nth k [] i h l = absurd (omega arith)
All-nth k (k' ∷ ks) zero (h, hs) l = h
All-nth k (k' ∷ ks) (suc i) (h, hs) l = All-nth k ks i hs (omega arith)

-- In keys that rise, all in front of one that is less are less.
nth-less :
    (ks : List Key) (key : Key) (p q : ℕ)
    → Rising ks
    → p ≤ q
    → q < length ks
    → key_lt (nth ks q) key ≡ true
    → key_lt (nth ks p) key ≡ true
nth-less [] key p q r h l less = absurd (omega arith)
nth-less (k ∷ ks) key zero zero r h l less = less
nth-less (k ∷ ks) key zero (suc q) (a, r) h l less =
    key_lt_trans k (nth ks q) key (All-nth k ks q a (omega arith)) less
nth-less (k ∷ ks) key (suc p) zero r h l less = absurd (omega arith)
nth-less (k ∷ ks) key (suc p) (suc q) (a, r) h l less =
    nth-less ks key p q r (omega arith) (omega arith) less

pub lower_bound-gt :
    (ks : List Key) (key : Key) (q : ℕ)
    → Rising ks
    → q < length ks
    → key_lt (nth ks q) key ≡ true
    → q < lower_bound ks key
unfolding lower_bound
lower_bound-gt [] key q r l less = absurd (omega arith)
lower_bound-gt (k ∷ ks) key zero (a, r) l less = rw less (omega arith)
lower_bound-gt (k ∷ ks) key (suc q) (a, r) l less =
    rw (nth-less (k ∷ ks) key 0 (suc q) (a, r) (omega arith) l less)
      (omega (arith, lower_bound-gt ks key q r (omega arith) less))

-- A search behind keys that are less, and one that ends behind the lower bound.
lower_bound-drop :
    (ks : List Key) (key : Key) (b : ℕ)
    → b ≤ lower_bound ks key
    → b + lower_bound (drop b ks) key ≡ lower_bound ks key
unfolding lower_bound
lower_bound-drop ks key zero h = omega arith
lower_bound-drop [] key (suc b) h = absurd (omega arith)
lower_bound-drop (k ∷ ks) key (suc b) h = elim (Bool-cases (key_lt k key)) [
  | inl less ↦ rw less (
      omega (
        arith,
        lower_bound-drop ks key b
            (let h' : suc b ≤ suc (lower_bound ks key) = rw less at h in omega arith),
      ))
  | inr not_less ↦ absurd (let h' : suc b ≤ 0 = rw not_less at h in omega arith)
]

lower_bound-take :
    (ks : List Key) (key : Key) (n : ℕ)
    → (lower_bound ks key < n) ⊎ (length ks ≤ n)
    → lower_bound (take n ks) key ≡ lower_bound ks key
unfolding lower_bound
lower_bound-take [] key zero h = refl
lower_bound-take (k ∷ ks) key zero h = absurd (omega arith)
lower_bound-take [] key (suc n) h = refl
lower_bound-take (k ∷ ks) key (suc n) h = elim (Bool-cases (key_lt k key)) [
  | inl less ↦ rw less (ap suc (lower_bound-take ks key n (shorter (rw less at h))))
  | inr not_less ↦ rw not_less refl
]
  where
    shorter :
        (suc (lower_bound ks key) < suc n) ⊎ (suc (length ks) ≤ suc n)
        → (lower_bound ks key < n) ⊎ (length ks ≤ n)
    shorter (inl h) = inl (omega arith)
    shorter (inr h) = inr (omega arith)

module _ (keys_per_page : ℕ) where
  pub length-super_keys :
      (ks : List Key) (i count : ℕ) → length (super_keys keys_per_page ks i count) ≡ count
  unfolding super_keys
  length-super_keys ks i zero = refl
  length-super_keys ks i (suc count) = ap suc (length-super_keys ks (i + 1) count)

  abbrev pub last_of_page : List Key → ℕ → ℕ
  last_of_page ks i = min ((i + 1) * keys_per_page - 1) (length ks - 1)

  pub nth-super_keys :
      (ks : List Key) (i count j : ℕ)
      → j < count
      → nth (super_keys keys_per_page ks i count) j ≡ nth ks (last_of_page ks (i + j))
  unfolding super_keys
  nth-super_keys ks i zero j h = absurd (omega arith)
  nth-super_keys ks i (suc count) zero h =
      ap (λ (p : ℕ). nth ks (last_of_page ks p)) {x = i} {y = i + 0} (omega arith)
  nth-super_keys ks i (suc count) (suc j) h =
      nth-super_keys ks (i + 1) count j (omega arith)
      ∙ ap (λ (p : ℕ). nth ks (last_of_page ks p)) {x = i + 1 + j} {y = i + suc j} (omega arith)

pub ceil-bounds : (len n : ℕ) → 1 ≤ n → (len ≤ ceil len n * n) × (ceil len n * n < len + n)
unfolding ceil
ceil-bounds len n h = (
  omega (arith, div-add-mod' (len + n - 1) n, mod-lt (len + n - 1) h),
  omega (arith, div-mul-le_self (len + n - 1) n),
)

-- The last page is what is left of the keys.
pub ceil-last : (len n : ℕ) → 1 ≤ n → 1 ≤ len % n → (ceil len n - 1) * n + len % n ≡ len
ceil-last len n h k =
    let next : (len + n - 1) / n ≡ len / n + 1 =
      div-eq_of_lt-le n (omega (arith, add-mul (len / n) 1 n, div-add-mod' len n)) (
        omega (
          arith,
          add-mul (len / n + 1) 1 n,
          add-mul (len / n) 1 n,
          div-add-mod' len n,
          mod-lt len h,
        )) in
    ap (λ (c : ℕ). (c - 1) * n + len % n) {x = ceil len n} {y = len / n + 1} (unfold ceil in next)
    ∙ ap (λ (c : ℕ). c * n + len % n) {x = len / n + 1 - 1} {y = len / n} (omega arith)
    ∙ div-add-mod' len n

pub find_between-lower_bound :
    (n : ℕ) (ks : List Key) (key : Key) (b e : ℕ)
    → b ≤ lower_bound ks key
    → (lower_bound ks key < e) ⊎ (length ks ≤ e)
    → find_between n ks key b e
      ≡ (if lower_bound ks key == length ks then none else some (lower_bound ks key))
find_between-lower_bound n ks key b e h k =
    ap (λ (it : ℕ). if it == length ks then none else some it)
      (ap (λ (m : ℕ). b + m) (lower_bound-take (drop b ks) key (e - b) (inside k))
        ∙ lower_bound-drop ks key b h)
  where
    inside :
        (lower_bound ks key < e) ⊎ (length ks ≤ e)
        → (lower_bound (drop b ks) key < e - b) ⊎ (length (drop b ks) ≤ e - b)
    inside (inl less) = inl (omega (arith, lower_bound-drop ks key b h))
    inside (inr all) = inr (omega (arith, length-drop b ks))
