-- ===== src/Sst/PageId.antt =====
-- src/db/sst.cc: `_find_page_id` and `find_range`; src/db/index_ops.cc: `create_super_index`. How many
-- keys a page of the meta index has, the page's size by `sizeof(key_t)`, is a parameter.
use hedge_db.Base.{
  ℕ, zero, suc, ◌+◌, ◌*◌, ◌-◌, ◌%◌, min, List, [], ◌∷◌, length, take, drop, not, ◌==◌, ltb,
  if◌then◌else◌, Option, some, none,
}
use hedge_db.Key.{Key, key_lt}
use hedge_db.Utils.{ceil}

-- std::lower_bound, on keys in order: how many stand before the first that is not less.
unfoldable pub lower_bound : List Key → Key → ℕ
lower_bound [] key = 0
lower_bound (k ∷ ks) key = let more = lower_bound ks key in if key_lt k key then suc more else 0

-- `meta_index[idx]`, which has no meaning out of range.
abbrev pub nth : List Key → ℕ → Key
nth [] i = []
nth (k ∷ ks) zero = k
nth (k ∷ ks) (suc i) = nth ks i

module _ (keys_per_page : ℕ) where
  -- The loop of `create_super_index`, from the page `i` on, over as many pages as `count`.
  unfoldable pub super_keys : List Key → ℕ → ℕ → List Key
  super_keys meta_index i zero = []
  super_keys meta_index i (suc count) =
      nth meta_index (min ((i + 1) * keys_per_page - 1) (length meta_index - 1))
      ∷ super_keys meta_index (i + 1) count

  unfoldable pub create_super_index : List Key → List Key
  create_super_index meta_index = super_keys meta_index 0 (ceil (length meta_index) keys_per_page)

  -- A table that is loaded has a super index if its meta index is large.
  unfoldable pub load_super_index : List Key → Option (List Key)
  load_super_index meta_index =
      if ltb (keys_per_page * 16) (length meta_index)
      then some (create_super_index meta_index)
      else none

  -- The search in the range of the meta index.
  abbrev pub find_between : List Key → Key → ℕ → ℕ → Option ℕ
  find_between meta_index key range_begin range_end =
      let it =
        range_begin
        + lower_bound (take (range_end - range_begin) (drop range_begin meta_index)) key in
      if it == length meta_index then none else some it

  abbrev pub range_end : List Key → List Key → ℕ → ℕ
  range_end meta_index super_index page =
      let last_page_size = length meta_index % keys_per_page in
      if page == length super_index - 1
      then (if not (last_page_size == 0)
          then page * keys_per_page + last_page_size
          else page * keys_per_page + keys_per_page)
      else page * keys_per_page + keys_per_page

  unfoldable pub find_page_id : List Key → Option (List Key) → Key → Option ℕ
  find_page_id meta_index none key = find_between meta_index key 0 (length meta_index)
  find_page_id meta_index (some super_index) key =
      let page = lower_bound super_index key in
      if page == length super_index
      then none
      else find_between meta_index key (page * keys_per_page)
          (range_end meta_index super_index page)

  pub record PageRange : Type 0 where
    pub first_page_id : ℕ
    pub last_page_id : ℕ

  abbrev upper_page : List Key → Option ℕ → ℕ
  upper_page meta_index none = length meta_index - 1
  upper_page meta_index (some id) = id

  abbrev pub last_page : List Key → Option (List Key) → Option Key → ℕ
  last_page meta_index super_index none = length meta_index - 1
  last_page meta_index super_index (some upper) =
      upper_page meta_index (find_page_id meta_index super_index upper)

  abbrev pub first_page : List Key → Option (List Key) → Option Key → Option ℕ
  first_page meta_index super_index none = some 0
  first_page meta_index super_index (some lower) = find_page_id meta_index super_index lower

  abbrev range_from : ℕ → Option ℕ → Option PageRange
  range_from last none = none
  range_from last (some first) = some (record { first_page_id = first; last_page_id = last })

  unfoldable pub find_range :
      List Key → Option (List Key) → Option Key → Option Key → Option PageRange
  find_range meta_index super_index lower upper =
      range_from (last_page meta_index super_index upper) (first_page meta_index super_index lower)
