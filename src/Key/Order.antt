-- ===== src/Key/Order.antt =====
-- include/key.h: the order of keys is total, and its equality is that of the bytes.
use mathlib.Core.Path.{subst}
use hedge_db.Base.{ℕ, ◌<◌, ◌⊎◌, inl, inr, ◌≡◌, ◌≢◌, refl, [], ◌∷◌, arith, true, false, ◌↔◌}
use Prim.Native.Nat.{Ordering}
use hedge_db.Key.{Key, key_compare, key_lt, key_eq, is_lt, is_eq}

abbrev pub flip : Ordering → Ordering
flip Ordering.lt = Ordering.gt
flip Ordering.eq = Ordering.eq
flip Ordering.gt = Ordering.lt

pub key_compare-flip : (a b : Key) → key_compare b a ≡ flip (key_compare a b)
unfolding key_compare
key_compare-flip [] [] = refl
key_compare-flip [] (y ∷ ys) = refl
key_compare-flip (x ∷ xs) [] = refl
key_compare-flip (x ∷ xs) (y ∷ ys) = ground (arith, key_compare-flip xs ys)

pub key_compare_refl : (a : Key) → key_compare a a ≡ Ordering.eq
unfolding key_compare
key_compare_refl [] = refl
key_compare_refl (x ∷ xs) = ground (arith, key_compare_refl xs)

pub key_compare-eq : (a b : Key) → key_compare a b ≡ Ordering.eq → a ≡ b
unfolding key_compare
key_compare-eq [] [] h = refl
key_compare-eq [] (y ∷ ys) h = cc
key_compare-eq (x ∷ xs) [] h = cc
key_compare-eq (x ∷ xs) (y ∷ ys) h = ground (arith, key_compare-eq xs ys)

pub key_compare_trans :
    (a b c : Key)
    → key_compare a b ≡ Ordering.lt
    → key_compare b c ≡ Ordering.lt
    → key_compare a c ≡ Ordering.lt
unfolding key_compare
key_compare_trans [] [] c h k = cc
key_compare_trans [] (y ∷ ys) [] h k = cc
key_compare_trans [] (y ∷ ys) (z ∷ zs) h k = refl
key_compare_trans (x ∷ xs) [] c h k = cc
key_compare_trans (x ∷ xs) (y ∷ ys) [] h k = cc
key_compare_trans (x ∷ xs) (y ∷ ys) (z ∷ zs) h k = ground (arith, key_compare_trans xs ys zs)

is_eq→eq : (o : Ordering) → is_eq o ≡ true → o ≡ Ordering.eq
is_eq→eq Ordering.lt h = cc
is_eq→eq Ordering.eq h = refl
is_eq→eq Ordering.gt h = cc

pub is_lt→lt : (o : Ordering) → is_lt o ≡ true → o ≡ Ordering.lt
is_lt→lt Ordering.lt h = refl
is_lt→lt Ordering.eq h = cc
is_lt→lt Ordering.gt h = cc

pub key_eq→eq : (a b : Key) → key_eq a b ≡ true → a ≡ b
unfolding key_eq
key_eq→eq a b h = key_compare-eq a b (is_eq→eq _ h)

pub key_eq_refl : (a : Key) → key_eq a a ≡ true
unfolding key_eq
key_eq_refl a = rw (key_compare_refl a) refl

pub key_eq_iff : (a b : Key) → (key_eq a b ≡ true) ↔ (a ≡ b)
key_eq_iff a b = (key_eq→eq a b, λ e. rw e (key_eq_refl b))

pub key_lt_irrefl : (a : Key) → key_lt a a ≡ false
unfolding key_lt
key_lt_irrefl a = rw (key_compare_refl a) refl

-- The order of keys is transitive.
pub key_lt_trans : (a b c : Key) → key_lt a b ≡ true → key_lt b c ≡ true → key_lt a c ≡ true
unfolding key_lt
key_lt_trans a b c h k = rw (key_compare_trans a b c (is_lt→lt _ h) (is_lt→lt _ k)) refl

pub key_lt_asymm : (a b : Key) → key_lt a b ≡ true → key_lt b a ≡ false
unfolding key_lt
key_lt_asymm a b h = rw (key_compare-flip a b, is_lt→lt _ h) refl

pub key_lt-ne : (a b : Key) → key_lt a b ≡ true → a ≢ b
key_lt-ne a b h e = cc (rw e at h, key_lt_irrefl b)

pub key_total : (a b : Key) → key_lt a b ≡ false → key_lt b a ≡ false → a ≡ b
unfolding key_lt
key_total a b h k = key_compare-eq a b (neither _ h (rw (key_compare-flip a b) at k))
  where
    neither : (o : Ordering) → is_lt o ≡ false → is_lt (flip o) ≡ false → o ≡ Ordering.eq
    neither Ordering.lt p q = cc
    neither Ordering.eq p q = refl
    neither Ordering.gt p q = cc

-- One key stands before another in the order of a dictionary: it is a proper beginning of the other, or
-- its byte is the smaller one where they first differ.
pub data Before : Key → Key → Type 0 where
  ends : (y : ℕ) (ys : Key) → Before [] (y ∷ ys)
  smaller : (x y : ℕ) (xs ys : Key) → x < y → Before (x ∷ xs) (y ∷ ys)
  shared : (x : ℕ) (xs ys : Key) → Before xs ys → Before (x ∷ xs) (x ∷ ys)

first_or_rest :
    (x y : ℕ) (xs ys : Key)
    → key_compare (x ∷ xs) (y ∷ ys) ≡ Ordering.lt
    → (x < y) ⊎ ((x ≡ y) × (key_compare xs ys ≡ Ordering.lt))
unfolding key_compare
first_or_rest x y xs ys h = ground (arith, h)

lt→Before : (a b : Key) → key_compare a b ≡ Ordering.lt → Before a b
unfolding key_compare
lt→Before [] [] h = cc
lt→Before [] (y ∷ ys) h = ends y ys
lt→Before (x ∷ xs) [] h = cc
lt→Before (x ∷ xs) (y ∷ ys) h = elim (first_or_rest x y xs ys h) [
  | inl less ↦ smaller x y xs ys less
  | inr (same, rest) ↦
      subst (λ (z : ℕ). Before (x ∷ xs) (z ∷ ys)) same (shared x xs ys (lt→Before xs ys rest))
]

Before→lt : (a b : Key) → Before a b → key_compare a b ≡ Ordering.lt
unfolding key_compare
Before→lt a b (ends y ys) = refl
Before→lt a b (smaller x y xs ys h) = ground (arith, h)
Before→lt a b (shared x xs ys h) = ground (arith, Before→lt xs ys h)

-- `operator<` holds between two keys just where one stands before the other in a dictionary.
pub key_lt_iff : (a b : Key) → (key_lt a b ≡ true) ↔ Before a b
unfolding key_lt
key_lt_iff a b = (λ h. lt→Before a b (is_lt→lt _ h), λ h. rw (Before→lt a b h) refl)
