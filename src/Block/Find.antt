-- ===== src/Block/Find.antt =====
-- src/db/block.cc: `block_decoder::find` among the groups of a block's entries.
use hedge_db.Base.{
  ℕ, zero, suc, ◌≤◌, ◌≡◌, refl, ◌∙◌, ap, ◌⊎◌, inl, inr, Bool-cases, List, [], ◌∷◌, ◌++◌, length,
  take, drop, true, false, if◌then◌else◌, arith, length-append, length-take, length-drop,
  take-append-drop, All,
}
use hedge_db.Key.{Key, key_lt, key_eq}
use hedge_db.Key.Order.{key_lt_trans, key_lt_irrefl, key_eq→eq}
use hedge_db.Block.Sequence.{Entry}
use hedge_db.Block.Search.{lookup}

-- Keys rise, without a repetition.
abbrev pub Ascending : List Entry → Type 0
Ascending [] = Unit {0}
Ascending (x ∷ xs) = All (λ (y : Entry). key_lt x.0 y.0 ≡ true) xs × Ascending xs

abbrev pub Avoids : Key → List Entry → Type 0
Avoids key kvs = All (λ (e : Entry). key_eq e.0 key ≡ false) kvs

pub key_eq-lt : (a b : Key) → key_lt a b ≡ true → key_eq b a ≡ false
key_eq-lt a b h = elim (Bool-cases (key_eq b a)) [
  | inl same ↦ absurd (cc (h, key_lt_irrefl a, ap (key_lt a) (key_eq→eq b a same)))
  | inr differ ↦ differ
]

pub lookup-left :
    (key : Key) (xs ys : List Entry) → Avoids key ys → lookup key (xs ++ ys) ≡ lookup key xs
lookup-left key [] [] h = refl
lookup-left key [] ((k, v) ∷ ys) (h, hs) = rw h (lookup-left key [] ys hs)
lookup-left key ((k, v) ∷ xs) ys h =
    ap (λ (r : List ℕ). if key_eq k key then v else r) (lookup-left key xs ys h)

pub lookup-right :
    (key : Key) (xs ys : List Entry) → Avoids key xs → lookup key (xs ++ ys) ≡ lookup key ys
lookup-right key [] ys h = refl
lookup-right key ((k, v) ∷ xs) ys (h, hs) = rw h (lookup-right key xs ys hs)

-- All keys behind one that is greater than the key are.
pub Avoids-above :
    (key k : Key) (v : List ℕ) (kvs : List Entry)
    → key_lt key k ≡ true
    → Ascending ((k, v) ∷ kvs)
    → Avoids key ((k, v) ∷ kvs)
Avoids-above key k v kvs h (a, as') = (key_eq-lt key k h, above kvs a)
  where
    above : (ys : List Entry) → All (λ (y : Entry). key_lt k y.0 ≡ true) ys → Avoids key ys
    above [] a = tt
    above ((k', v') ∷ ys) (a, as') = (key_eq-lt key k' (key_lt_trans key k k' h a), above ys as')

-- No key in front of one that is not greater than the key is the key.
pub Avoids-below :
    (key k : Key) (v : List ℕ) (xs ys : List Entry)
    → key_lt key k ≡ false
    → Ascending (xs ++ (k, v) ∷ ys)
    → Avoids key xs
Avoids-below key k v [] ys h a = tt
Avoids-below key k v ((k', v') ∷ xs) ys h (a, as') =
    (differ (Bool-cases (key_eq k' key)), Avoids-below key k v xs ys h as')
  where
    below :
        (zs : List Entry)
        → All (λ (y : Entry). key_lt k' y.0 ≡ true) (zs ++ (k, v) ∷ ys)
        → key_lt k' k ≡ true
    below [] (b, bs) = b
    below (z ∷ zs) (b, bs) = below zs bs

    differ : (key_eq k' key ≡ true) ⊎ (key_eq k' key ≡ false) → key_eq k' key ≡ false
    differ (inl same) =
        absurd (cc (h, below xs a, ap (λ (x : Key). key_lt x k) (key_eq→eq k' key same)))
    differ (inr other) = other

pub Ascending-right : (xs ys : List Entry) → Ascending (xs ++ ys) → Ascending ys
Ascending-right [] ys a = a
Ascending-right (x ∷ xs) ys (a, as') = Ascending-right xs ys as'

pub All-left {κ} : (P : Entry → Type κ) (xs ys : List Entry) → All P (xs ++ ys) → All P xs
All-left P [] ys h = tt
All-left P (x ∷ xs) ys (h, hs) = (h, All-left P xs ys hs)

pub All-right {κ} : (P : Entry → Type κ) (xs ys : List Entry) → All P (xs ++ ys) → All P ys
All-right P [] ys h = h
All-right P (x ∷ xs) ys (h, hs) = All-right P xs ys hs

abbrev pub join : List (List Entry) → List Entry
join [] = []
join (c ∷ gs) = c ++ join gs

-- Groups of a size, of which only the last may be shorter.
abbrev pub IsGrouped : ℕ → List (List Entry) → Type 0
IsGrouped g [] = Unit {0}
IsGrouped g (c ∷ gs) =
    (1 ≤ length c) × (length c ≤ g) × ((length c ≡ g) ⊎ (gs ≡ [])) × IsGrouped g gs

full_or_last :
    (g : ℕ) (kvs : List Entry) (gs : List (List Entry))
    → join gs ≡ drop g kvs
    → IsGrouped g gs
    → (length (take g kvs) ≡ g) ⊎ (gs ≡ [])
full_or_last g kvs [] j i = inr refl
full_or_last g kvs (c ∷ gs) j i =
    inl (
      omega
        (arith, i, ap length j, length-append c (join gs), length-drop g kvs, length-take g kvs))

-- Every sequence of entries falls into such groups.
pub groups :
    (fuel g : ℕ) (kvs : List Entry)
    → 1 ≤ g
    → length kvs ≤ fuel
    → (gs : List (List Entry)) × ((join gs ≡ kvs) × IsGrouped g gs)
groups zero g [] h k = ([], (refl, tt))
groups zero g (e ∷ kvs) h k = absurd (omega arith)
groups (suc fuel) g [] h k = ([], (refl, tt))
groups (suc fuel) g (e ∷ kvs) h k =
    let all = e ∷ kvs in
    let (gs, (j, i)) = groups fuel g (drop g all) h (omega (arith, length-drop g all)) in
    (
      take g all ∷ gs,
      (
        ap (λ (r : List Entry). take g all ++ r) j ∙ take-append-drop g all,
        (
          omega (arith, length-take g all),
          omega (arith, length-take g all),
          full_or_last g all gs j i,
          i,
        ),
      ),
    )
