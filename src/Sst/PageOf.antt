-- ===== src/Sst/PageOf.antt =====
-- src/db/sst.cc: the page in which a key of a table is looked up.
use hedge_db.Base.{
  ℕ, zero, suc, ◌≤◌, ◌≡◌, refl, ◌∙◌, ap, inl, inr, List, [], ◌∷◌, ◌++◌, length, map, true, false,
  All, Bool-cases, arith,
}
use hedge_db.Key.{Key, key_lt, key_eq}
use hedge_db.Key.Order.{key_lt_trans, key_lt_irrefl, key_eq→eq, key_total}
use hedge_db.Block.Sequence.{Entry, last_of}
use hedge_db.Block.Search.{lookup}
use hedge_db.Block.Find.{
  Ascending, Avoids, join, lookup-left, lookup-right, key_eq-lt, Ascending-right, All-left,
  All-right,
}
use hedge_db.Sst.PageId.{lower_bound}
use hedge_db.Sst.SuperIndex.{Rising}
use hedge_db.Sst.Table.{last_key}

-- The part of some sequences in which a key may be.
abbrev pub segment : List (List Entry) → ℕ → List Entry
segment [] i = []
segment (s ∷ ss) zero = s
segment (s ∷ ss) (suc i) = segment ss i

-- Each sequence has an entry.
abbrev pub Inhabited : List (List Entry) → Type 0
Inhabited segs = All (λ (s : List Entry). 1 ≤ length s) segs

-- All keys of a sequence that rises are at most its last key.
last-above :
    (prev : Key) (s : List Entry) (key : Key)
    → Ascending ((prev, []) ∷ s)
    → key_lt (last_of prev s) key ≡ true
    → key_lt prev key ≡ true
last-above prev [] key a h = h
last-above prev ((k, v) ∷ s) key ((b, bs), a) h = key_lt_trans prev k key b (last-above k s key a h)

differ : (a b : Key) → key_lt a b ≡ true → key_eq a b ≡ false
differ a b h = elim (Bool-cases (key_eq a b)) [
  | inl same ↦ absurd (cc (h, key_lt_irrefl b, ap (λ (k : Key). key_lt k b) (key_eq→eq a b same)))
  | inr other ↦ other
]

not_less_trans : (key l k : Key) → key_lt l key ≡ false → key_lt l k ≡ true → key_lt key k ≡ true
not_less_trans key l k h less = elim (Bool-cases (key_lt key l)) [
  | inl below ↦ key_lt_trans key l k below less
  | inr not_below ↦ ap (λ (x : Key). key_lt x k) (key_total key l not_below h) ∙ less
]

-- A sequence whose last key is less than a key does not have it.
Avoids-last :
    (s : List Entry) (key : Key) → Ascending s → key_lt (last_key s) key ≡ true → Avoids key s
Avoids-last [] key a h = tt
Avoids-last ((k, v) ∷ []) key a h = (differ k key h, tt)
Avoids-last ((k, v) ∷ (k', v') ∷ s) key (b, a) h = (
  differ k key (key_lt_trans k k' key b.0 (last-above k' s key a h)),
  Avoids-last ((k', v') ∷ s) key a h,
)

-- What stands behind a sequence is above its last key.
above-last :
    (s ys : List Entry)
    → 1 ≤ length s
    → Ascending (s ++ ys)
    → All (λ (y : Entry). key_lt (last_key s) y.0 ≡ true) ys
above-last [] ys i a = absurd (omega arith)
above-last ((k, v) ∷ []) ys i a = a.0
above-last ((k, v) ∷ x ∷ s) ys i a = above-last (x ∷ s) ys (omega arith) a.1

Avoids-not_less :
    (l key : Key) (ys : List Entry)
    → key_lt l key ≡ false
    → All (λ (y : Entry). key_lt l y.0 ≡ true) ys
    → Avoids key ys
Avoids-not_less l key [] h a = tt
Avoids-not_less l key ((k, v) ∷ ys) h (b, a) =
    (key_eq-lt key k (not_less_trans key l k h b), Avoids-not_less l key ys h a)

Ascending-left : (xs ys : List Entry) → Ascending (xs ++ ys) → Ascending xs
Ascending-left [] ys a = tt
Ascending-left (x ∷ xs) ys (b, a) =
    (All-left (λ (y : Entry). key_lt x.0 y.0 ≡ true) xs ys b, Ascending-left xs ys a)

-- In sequences that rise, a key is looked up in the one whose last key is the first that is not less.
pub lookup-join :
    (segs : List (List Entry)) (key : Key)
    → Inhabited segs
    → Ascending (join segs)
    → lookup key (join segs) ≡ lookup key (segment segs (lower_bound (map last_key segs) key))
unfolding lower_bound
lookup-join [] key i a = refl
lookup-join (s ∷ ss) key (i, is) a = elim (Bool-cases (key_lt (last_key s) key)) [
  | inl less ↦ rw less (
      lookup-right key s (join ss) (Avoids-last s key (Ascending-left s (join ss) a) less)
      ∙ lookup-join ss key is (Ascending-right s (join ss) a))
  | inr not_less ↦ rw not_less (
      lookup-left key s (join ss)
        (Avoids-not_less (last_key s) key (join ss) not_less (above-last s (join ss) i a)))
]

pub segment-All {κ} :
    (P : Entry → Type κ) (segs : List (List Entry)) (i : ℕ)
    → All P (join segs)
    → All P (segment segs i)
segment-All P [] i h = tt
segment-All P (s ∷ ss) zero h = All-left P s (join ss) h
segment-All P (s ∷ ss) (suc i) h = segment-All P ss i (All-right P s (join ss) h)

pub segment-Ascending :
    (segs : List (List Entry)) (i : ℕ) → Ascending (join segs) → Ascending (segment segs i)
segment-Ascending [] i h = tt
segment-Ascending (s ∷ ss) zero h = Ascending-left s (join ss) h
segment-Ascending (s ∷ ss) (suc i) h = segment-Ascending ss i (Ascending-right s (join ss) h)

last-All {κ} :
    (P : Key → Type κ) (s : List Entry)
    → 1 ≤ length s
    → All (λ (y : Entry). P y.0) s
    → P (last_key s)
last-All P [] i h = absurd (omega arith)
last-All P ((k, v) ∷ []) i (h, hs) = h
last-All P ((k, v) ∷ x ∷ s) i (h, hs) = last-All P (x ∷ s) (omega arith) hs

-- What all keys have, the last keys have.
pub last_keys-All {κ} :
    (P : Key → Type κ) (segs : List (List Entry))
    → Inhabited segs
    → All (λ (y : Entry). P y.0) (join segs)
    → All P (map last_key segs)
last_keys-All P [] i h = tt
last_keys-All P (s ∷ ss) (i, is) h =
    (last-All P s i (All-left _ s (join ss) h), last_keys-All P ss is (All-right _ s (join ss) h))

-- The last keys rise.
pub last_key-Rising :
    (segs : List (List Entry)) → Inhabited segs → Ascending (join segs) → Rising (map last_key segs)
last_key-Rising [] i a = tt
last_key-Rising (s ∷ ss) (i, is) a = (
  last_keys-All (λ (k : Key). key_lt (last_key s) k ≡ true) ss is (above-last s (join ss) i a),
  last_key-Rising ss is (Ascending-right s (join ss) a),
)
