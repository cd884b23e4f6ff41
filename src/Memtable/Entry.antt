-- ===== src/Memtable/Entry.antt =====
-- src/db/skiplist.h: `memtable_entry` and its order, by rising keys and, for one key, from the newest
-- to the oldest.
use hedge_db.Base.{
  ℕ, ◌<◌, ◌≡◌, ◌≢◌, refl, sym, ◌∙◌, ap, List, Bool, true, false, ltb, if◌then◌else◌, arith,
  Bool-cases, inl, inr, lt→ltb, ltb→lt, ltb→le,
}
use hedge_db.Key.{Key, key_lt, key_eq}
use hedge_db.Key.Order.{key_lt_trans, key_lt_irrefl, key_total, key_eq_refl, key_eq→eq}

pub record MemtableEntry : Type 0 where
  pub key : Key
  pub seq : ℕ
  pub value : List ℕ

-- `memtable_cmp`.
unfoldable pub memtable_lt : MemtableEntry → MemtableEntry → Bool
memtable_lt a b = if key_eq a.key b.key then ltb b.seq a.seq else key_lt a.key b.key

pub memtable_lt-same_key : (a b : MemtableEntry) → a.key ≡ b.key → memtable_lt a b ≡ ltb b.seq a.seq
unfolding memtable_lt
memtable_lt-same_key a b h = rw (h, key_eq_refl b.key) refl

pub key_eq-ne : (a b : Key) → a ≢ b → key_eq a b ≡ false
key_eq-ne a b h = elim (Bool-cases (key_eq a b)) [
  | inl same ↦ absurd (h (key_eq→eq a b same))
  | inr differ ↦ differ
]

pub memtable_lt-other_key :
    (a b : MemtableEntry) → a.key ≢ b.key → memtable_lt a b ≡ key_lt a.key b.key
unfolding memtable_lt
memtable_lt-other_key a b h = rw (key_eq-ne a.key b.key h) refl

-- What the order says, apart from its tests.
pub data IsBefore (a b : MemtableEntry) : Type 0 where
  smaller_key : key_lt a.key b.key ≡ true → IsBefore a b
  newer : a.key ≡ b.key → b.seq < a.seq → IsBefore a b

pub lt-IsBefore : (a b : MemtableEntry) → memtable_lt a b ≡ true → IsBefore a b
unfolding memtable_lt
lt-IsBefore a b h = elim (Bool-cases (key_eq a.key b.key)) [
  | inl same ↦ newer (key_eq→eq a.key b.key same) (ltb→lt _ _ (rw same at h))
  | inr differ ↦ smaller_key (rw differ at h)
]

pub before-lt : (a b : MemtableEntry) → IsBefore a b → memtable_lt a b ≡ true
before-lt a b (smaller_key h) =
    memtable_lt-other_key a b (λ e. cc (h, key_lt_irrefl b.key, ap (λ (k : Key). key_lt k b.key) e))
    ∙ h
before-lt a b (newer e h) = memtable_lt-same_key a b e ∙ lt→ltb b.seq a.seq h

IsBefore-trans : (a b c : MemtableEntry) → IsBefore a b → IsBefore b c → IsBefore a c
IsBefore-trans a b c (smaller_key h) (smaller_key k) =
    smaller_key (key_lt_trans a.key b.key c.key h k)
IsBefore-trans a b c (smaller_key h) (newer e k) = smaller_key (ap (key_lt a.key) (sym e) ∙ h)
IsBefore-trans a b c (newer e h) (smaller_key k) =
    smaller_key (ap (λ (x : Key). key_lt x c.key) e ∙ k)
IsBefore-trans a b c (newer e h) (newer e' k) = newer (e ∙ e') (omega arith)

pub memtable_lt_trans :
    (a b c : MemtableEntry)
    → memtable_lt a b ≡ true
    → memtable_lt b c ≡ true
    → memtable_lt a c ≡ true
memtable_lt_trans a b c h k =
    before-lt a c (IsBefore-trans a b c (lt-IsBefore a b h) (lt-IsBefore b c k))

IsBefore-irrefl : (a : MemtableEntry) → IsBefore a a → ⊥
IsBefore-irrefl a (smaller_key h) = cc (h, key_lt_irrefl a.key)
IsBefore-irrefl a (newer e h) = absurd (omega arith)

pub memtable_lt_asymm : (a b : MemtableEntry) → memtable_lt a b ≡ true → memtable_lt b a ≡ false
memtable_lt_asymm a b h = elim (Bool-cases (memtable_lt b a)) [
  | inl k ↦
      absurd (IsBefore-irrefl a (IsBefore-trans a b a (lt-IsBefore a b h) (lt-IsBefore b a k)))
  | inr k ↦ k
]

-- Two entries that the order does not tell apart have one key and one sequence number.
pub memtable_lt-total :
    (a b : MemtableEntry)
    → memtable_lt a b ≡ false
    → memtable_lt b a ≡ false
    → (a.key ≡ b.key) × (a.seq ≡ b.seq)
memtable_lt-total a b h k = elim (Bool-cases (key_eq a.key b.key)) [
  | inl same ↦
      let e = key_eq→eq a.key b.key same in
      (
        e,
        omega (
          arith,
          ltb→le _ _ (sym (memtable_lt-same_key a b e) ∙ h),
          ltb→le _ _ (sym (memtable_lt-same_key b a (sym e)) ∙ k),
        ),
      )
  | inr differ ↦
      let ne : a.key ≢ b.key =
        λ e. cc (differ, key_eq_refl b.key, ap (λ (x : Key). key_eq x b.key) e) in
      absurd (
        ne (
          key_total a.key b.key (sym (memtable_lt-other_key a b ne) ∙ h)
            (sym (memtable_lt-other_key b a (λ e. ne (sym e))) ∙ k)))
]

same-IsBefore :
    (a b c : MemtableEntry) → a.key ≡ b.key → a.seq ≡ b.seq → IsBefore a c → IsBefore b c
same-IsBefore a b c e f (smaller_key h) = smaller_key (ap (λ (k : Key). key_lt k c.key) (sym e) ∙ h)
same-IsBefore a b c e f (newer e' h) = newer (sym e ∙ e') (omega arith)

pub memtable_lt-false_trans :
    (a b c : MemtableEntry)
    → memtable_lt a b ≡ false
    → memtable_lt b c ≡ false
    → memtable_lt a c ≡ false
memtable_lt-false_trans a b c h k = elim (Bool-cases (memtable_lt a c)) [
  | inr apart ↦ apart
  | inl both ↦ elim (Bool-cases (memtable_lt b a)) [
    | inl before_a ↦ absurd (clash (memtable_lt_trans b a c before_a both))
    | inr not_before ↦
        let (e, f) = memtable_lt-total a b h not_before in
        absurd (clash (before-lt b c (same-IsBefore a b c e f (lt-IsBefore a c both))))
  ]
]
  where
    clash : memtable_lt b c ≡ true → ⊥
    clash both = cc (both, k)
