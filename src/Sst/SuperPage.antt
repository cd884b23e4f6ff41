-- ===== src/Sst/SuperPage.antt =====
-- src/db/sst.cc: `_find_page_id` with and without a super index.
use hedge_db.Base.{
  ℕ, zero, suc, ◌+◌, ◌*◌, ◌-◌, ◌%◌, ◌≤◌, ◌<◌, ◌≡◌, refl, sym, ◌∙◌, ap, ◌⊎◌, inl, inr, min, List,
  length, Bool, true, false, ◌==◌, ==_iff, if◌then◌else◌, some, none, Bool-cases, arith,
}
use native.Mathlib.Nat.{add-mul, mul-le-mul_right}
use hedge_db.Key.{Key, key_lt}
use hedge_db.Utils.{ceil}
use hedge_db.Sst.PageId.{
  lower_bound, nth, super_keys, create_super_index, find_between, range_end, find_page_id,
}
use hedge_db.Sst.SuperIndex.{
  Rising, lower_bound-le_length, nth-before, nth-at, lower_bound-le, lower_bound-gt,
  length-super_keys, last_of_page, nth-super_keys, ceil-bounds, ceil-last, find_between-lower_bound,
}

module _ (keys_per_page : ℕ) (ks : List Key) (key : Key) (page_size : 1 ≤ keys_per_page)
    (rising : Rising ks) where
  abbrev n : ℕ
  n = keys_per_page

  abbrev pages : ℕ
  pages = ceil (length ks) n

  abbrev supers : List Key
  supers = super_keys n ks 0 pages

  abbrev page : ℕ
  page = lower_bound supers key

  length-supers : length supers ≡ pages
  length-supers = length-super_keys n ks 0 pages

  nth-supers : (p : ℕ) → p < pages → nth supers p ≡ nth ks (last_of_page n ks p)
  nth-supers p h =
      nth-super_keys n ks 0 pages p h
      ∙ ap (λ (q : ℕ). nth ks (last_of_page n ks q)) {x = 0 + p} {y = p} (omega arith)

  some_key : 1 ≤ pages → 1 ≤ length ks
  some_key h = omega (arith, mul-le-mul_right n h, (ceil-bounds (length ks) n page_size).1)

  -- All keys of the pages in front of the one that is found are less than the key.
  page-begin : min (page * n) (length ks) ≤ lower_bound ks key
  page-begin = from page refl
    where
      from : (p : ℕ) → p ≡ page → min (p * n) (length ks) ≤ lower_bound ks key
      from zero h = omega (arith)
      from (suc p) h =
          let in_pages : suc p ≤ pages =
            omega (arith, h, lower_bound-le_length supers key, length-supers) in
          let less : key_lt (nth ks (last_of_page n ks p)) key ≡ true =
            ap (λ (k : Key). key_lt k key) (sym (nth-supers p in_pages))
            ∙ nth-before supers key p (omega (arith, h)) in
          let some = some_key (omega (arith, in_pages)) in
          omega (
            arith,
            add-mul p 1 n,
            some,
            lower_bound-gt ks key (last_of_page n ks p) rising (omega (arith, some)) less,
          )

  -- The last key of the page that is found is not less.
  page-found : page < pages → lower_bound ks key ≤ last_of_page n ks page
  page-found h =
      lower_bound-le ks key (last_of_page n ks page)
        (ap (λ (k : Key). key_lt k key) (sym (nth-supers page h))
          ∙ nth-at supers key (omega (arith, h, length-supers)))
        (omega (arith, some_key (omega (arith, h))))

  page-inside : page < pages → page * n ≤ length ks
  page-inside h =
      let before : page ≤ pages - 1 = omega (arith, h) in
      omega (
        arith,
        mul-le-mul_right n before,
        mul-le-mul_right n h,
        add-mul page 1 n,
        (ceil-bounds (length ks) n page_size).1,
        add-mul (pages - 1) 1 n,
        ap (λ (c : ℕ). c * n) {x = pages - 1 + 1} {y = pages} (omega (arith, h)),
      )

  page-end :
      page < pages
      → (lower_bound ks key < range_end n ks supers page) ⊎ (length ks ≤ range_end n ks supers page)
  page-end h =
      let found = page-found h in
      let full : lower_bound ks key < page * n + n =
        omega (arith, found, add-mul page 1 n, page_size) in
      elim (Bool-cases (page == length supers - 1)) [
        | inr inner ↦ rw inner (inl full)
        | inl last ↦ elim (Bool-cases (length ks % n == 0)) [
          | inl even ↦ rw (last, even) (inl full)
          | inr rest ↦
              let p : page ≡ pages - 1 =
                omega (arith, (==_iff page (length supers - 1)).0 last, length-supers) in
              let total = ap (λ (q : ℕ). q * n) p in
              rw (last, rest)
                (inr (
                  omega (
                    arith,
                    total,
                    ceil-last (length ks) n page_size (positive (length ks % n) rest),
                  )))
        ]
      ]
    where
      positive : (m : ℕ) → (m == 0) ≡ false → 1 ≤ m
      positive m h = ground arith

  found_with :
      (b : Bool)
      → (page == length supers) ≡ b
      → (if b then none else find_between n ks key (page * n) (range_end n ks supers page))
        ≡ (if lower_bound ks key == length ks then none else some (lower_bound ks key))
  found_with true h =
      let all : lower_bound ks key ≡ length ks = omega (
        arith,
        page-begin,
        ap (λ (q : ℕ). q * n) {x = page} {y = pages}
            (omega (arith, (==_iff page (length supers)).0 h, length-supers)),
        (ceil-bounds (length ks) n page_size).0,
        lower_bound-le_length ks key,
      ) in
      rw ((==_iff (lower_bound ks key) (length ks)).1 all) refl
  found_with false h =
      let inside = differ page (length supers) h (lower_bound-le_length supers key) in
      let in_pages : page < pages = omega (arith, inside, length-supers) in
      find_between-lower_bound n ks key (page * n) (range_end n ks supers page)
        (omega (arith, page-begin, page-inside in_pages)) (page-end in_pages)
    where
      differ : (a b : ℕ) → (a == b) ≡ false → a ≤ b → a < b
      differ a b h k = ground arith

  -- For keys that rise, the page that is found with the super index is the one that is found without
  -- it, whatever the number of keys that a page of the meta index has.
  pub find_page_id-create_super_index :
      find_page_id n ks (some (create_super_index n ks)) key ≡ find_page_id n ks none key
  unfolding find_page_id create_super_index
  find_page_id-create_super_index =
      found_with (page == length supers) refl
      ∙ sym (find_between-lower_bound n ks key 0 (length ks) (omega arith) (inr (omega arith)))
