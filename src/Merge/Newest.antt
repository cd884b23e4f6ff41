-- ===== src/Merge/Newest.antt =====
-- src/db/merge/merge.cc: the merged file has the newest entry of each key, by rising keys.
use hedge_db.Base.{
  ◌≤◌, ◌≡◌, refl, sym, ap, List, [], ◌∷◌, true, false, All, Bool-cases, inl, inr, arith, ltb→le,
}
use hedge_db.Base.Sort.{IsSorted}
use mathlib.Core.Path.{subst}
use mathlib.Core.List.{Mem, mem-cons_self, mem-cons_of_mem}
use hedge_db.Key.{Key, key_lt, key_eq}
use hedge_db.Key.Order.{key_lt_trans, key_total, key_eq_refl, key_eq→eq}
use hedge_db.Merge.Deduplicator.{MergeEntry}
use hedge_db.Merge.Run.{pops_before}
use hedge_db.Merge.Dedup.{firsts_after}

abbrev pub Ascending : List MergeEntry → Type 0
Ascending [] = Unit {0}
Ascending (x ∷ xs) = All (λ (y : MergeEntry). key_lt x.key y.key ≡ true) xs × Ascending xs

-- An entry's key is in a list with an epoch that is not smaller.
abbrev pub Covered : List MergeEntry → MergeEntry → Type 0
Covered ms e = (m : MergeEntry) × (Mem m ms × ((m.key ≡ e.key) × (e.epoch ≤ m.epoch)))

map_All {ℓ κ κ'} :
    {A : Type ℓ} (P : A → Type κ) (Q : A → Type κ') (f : (a : A) → P a → Q a) (xs : List A)
    → All P xs
    → All Q xs
map_All P Q f [] h = tt
map_All P Q f (x ∷ xs) (h, hs) = (f x h, map_All P Q f xs hs)

same_key-newer :
    (x y : MergeEntry)
    → key_eq x.key y.key ≡ true
    → pops_before y x ≡ false
    → (x.key ≡ y.key) × (y.epoch ≤ x.epoch)
unfolding pops_before
same_key-newer x y same h =
    let e = key_eq→eq x.key y.key same in (e, ltb→le _ _ (rw (sym e, key_eq_refl x.key) at h))

key_eq-flip : (a b : Key) → key_eq a b ≡ false → key_eq b a ≡ false
key_eq-flip a b h = elim (Bool-cases (key_eq b a)) [
  | inl same ↦ absurd (cc (h, key_eq_refl a, ap (key_eq a) (key_eq→eq b a same)))
  | inr differ ↦ differ
]

other_key-less :
    (x y : MergeEntry)
    → key_eq x.key y.key ≡ false
    → pops_before y x ≡ false
    → key_lt x.key y.key ≡ true
unfolding pops_before
other_key-less x y differ h = elim (Bool-cases (key_lt x.key y.key)) [
  | inl less ↦ less
  | inr k ↦
      let apart : key_lt y.key x.key ≡ false = rw (key_eq-flip x.key y.key differ) at h in
      absurd (cc (differ, key_eq_refl x.key, ap (key_eq x.key) (key_total x.key y.key k apart)))
]

firsts_after-same :
    (k : Key) (y : MergeEntry) (ys : List MergeEntry)
    → key_eq k y.key ≡ true
    → firsts_after k (y ∷ ys) ≡ firsts_after k ys
firsts_after-same k y ys h = rw h refl

firsts_after-other :
    (k : Key) (y : MergeEntry) (ys : List MergeEntry)
    → key_eq k y.key ≡ false
    → firsts_after k (y ∷ ys) ≡ y ∷ firsts_after y.key ys
firsts_after-other k y ys h = rw h refl

pub firsts_after-Covered :
    (x : MergeEntry) (xs : List MergeEntry)
    → IsSorted pops_before (x ∷ xs)
    → All (Covered (x ∷ firsts_after x.key xs)) (x ∷ xs)
firsts_after-Covered x [] h = ((x, (mem-cons_self, (refl, omega arith))), tt)
firsts_after-Covered x (y ∷ ys) ((h, hs), (k, ks)) =
    let Goal : List MergeEntry → Type 0 = λ ms. All (Covered (x ∷ ms)) (x ∷ y ∷ ys) in
    elim (Bool-cases (key_eq x.key y.key)) [
      | inl same ↦
          let (c, cs) = firsts_after-Covered x ys (hs, ks) in
          subst Goal (sym (firsts_after-same x.key y ys same))
            (c, ((x, (mem-cons_self, same_key-newer x y same h)), cs))
      | inr differ ↦
          let ms = y ∷ firsts_after y.key ys in
          subst Goal (sym (firsts_after-other x.key y ys differ)) (
            (x, (mem-cons_self, (refl, omega arith))),
            map_All (Covered ms) (Covered (x ∷ ms)) (λ e (m, (i, c)). (m, (mem-cons_of_mem x i, c)))
                (y ∷ ys) (firsts_after-Covered y ys (k, ks)),
          )
    ]

pub firsts_after-Ascending :
    (x : MergeEntry) (xs : List MergeEntry)
    → IsSorted pops_before (x ∷ xs)
    → Ascending (x ∷ firsts_after x.key xs)
firsts_after-Ascending x [] h = (tt, tt)
firsts_after-Ascending x (y ∷ ys) ((h, hs), (k, ks)) = elim (Bool-cases (key_eq x.key y.key)) [
  | inl same ↦ rw same (firsts_after-Ascending x ys (hs, ks))
  | inr differ ↦
      let less = other_key-less x y differ h in
      let (a, as') = firsts_after-Ascending y ys (k, ks) in
      let further =
        map_All (λ (m : MergeEntry). key_lt y.key m.key ≡ true)
          (λ (m : MergeEntry). key_lt x.key m.key ≡ true)
          (λ m l. key_lt_trans x.key y.key m.key less l) (firsts_after y.key ys) a in
      rw differ ((less, further), (a, as'))
]

pub firsts_after-All {κ} :
    (P : MergeEntry → Type κ) (k : Key) (xs : List MergeEntry)
    → All P xs
    → All P (firsts_after k xs)
firsts_after-All P k [] h = tt
firsts_after-All P k (x ∷ xs) (h, hs) = elim (Bool-cases (key_eq k x.key)) [
  | inl same ↦ rw same (firsts_after-All P k xs hs)
  | inr differ ↦ rw differ (h, firsts_after-All P x.key xs hs)
]
