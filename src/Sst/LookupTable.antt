-- ===== src/Sst/LookupTable.antt =====
-- src/db/sst.cc: what `lookup_async` finds in a table.
use hedge_db.Base.{
  ℕ, zero, suc, ◌+◌, ◌*◌, ◌≤◌, ◌<◌, ◌≡◌, refl, sym, ◌∙◌, ap, ap₂, ◌⊎◌, inl, inr, List, [], ◌∷◌,
  ◌++◌, length, length-append, append_assoc, map, take, drop, drop-drop, take-append, drop-append,
  Bool, true, false, ◌==◌, ==_iff, if◌then◌else◌, Option, some, none, All, arith,
}
use mathlib.Core.Path.{subst}
use hedge_db.Base.Status.{Expected, ok, ◌>>=◌}
use hedge_db.Key.{Key}
use hedge_db.Block.Encoder.{default_config}
use hedge_db.Block.Decoder.{block_decoder, sanity_check, find}
use hedge_db.Block.Sequence.{Entry, IsStorable}
use hedge_db.Block.Search.{lookup}
use hedge_db.Block.Find.{Ascending, join}
use hedge_db.Block.RoundTrip.{read_entries-push_all}
use hedge_db.Block.FindRoundTrip.{find-push_all}
use hedge_db.Block.Writing.{Stored, StoredAll}
use hedge_db.Sst.File.{FileOps, FileLaws, concat}
use hedge_db.Sst.PageId.{lower_bound, create_super_index, find_page_id}
use hedge_db.Sst.SuperIndex.{Rising, lower_bound-le_length, find_between-lower_bound}
use hedge_db.Sst.SuperPage.{find_page_id-create_super_index}
use hedge_db.Sst.Table.{last_key}
use hedge_db.Sst.PageOf.{
  segment, Inhabited, lookup-join, segment-All, segment-Ascending, last_key-Rising,
}
use hedge_db.Sst.Lookup.{
  Sst, page_size, value_found, find_checked, find_in_page, loaded, load_page, lookup_in,
  lookup_async,
}

abbrev pub IsPageSized : List ℕ → Type 0
IsPageSized p = length p ≡ page_size

abbrev pub page_at : List (List ℕ) → ℕ → List ℕ
page_at [] i = []
page_at (p ∷ ps) zero = p
page_at (p ∷ ps) (suc i) = page_at ps i

length-concat :
    (ps : List (List ℕ)) (i : ℕ)
    → All IsPageSized ps
    → i < length ps
    → i * page_size + page_size ≤ length (concat ps)
length-concat [] i h l = absurd (omega arith)
length-concat (p ∷ ps) zero (h, hs) l = omega (arith, h, length-append p (concat ps))
length-concat (p ∷ ps) (suc i) (h, hs) l =
    omega (arith, h, length-append p (concat ps), length-concat ps i hs (omega arith))

-- The bytes of a page among those of all pages.
take-concat :
    (ps : List (List ℕ)) (rest : List ℕ) (i : ℕ)
    → All IsPageSized ps
    → i < length ps
    → take page_size (drop (i * page_size) (concat ps ++ rest)) ≡ page_at ps i
take-concat [] rest i h l = absurd (omega arith)
take-concat (p ∷ ps) rest zero (h, hs) l =
    ap (λ (n : ℕ). take page_size (drop n ((p ++ concat ps) ++ rest))) {x = 0 * page_size} {y = 0}
      (omega arith)
    ∙ ap (take page_size) (append_assoc p (concat ps) rest)
    ∙ take-append page_size p (concat ps ++ rest) (sym h)
take-concat (p ∷ ps) rest (suc i) (h, hs) l =
    ap (λ (n : ℕ). take page_size (drop n ((p ++ concat ps) ++ rest))) {x = suc i * page_size}
      {y = page_size + i * page_size} (omega arith)
    ∙ ap (take page_size) (
        sym (drop-drop page_size (i * page_size) ((p ++ concat ps) ++ rest))
        ∙ ap (drop (i * page_size)) (
            ap (drop page_size) (append_assoc p (concat ps) rest)
            ∙ drop-append page_size p (concat ps ++ rest) (sym h)))
    ∙ take-concat ps rest i hs (omega arith)

page_at-IsPageSized :
    (ps : List (List ℕ)) (i : ℕ) → All IsPageSized ps → i < length ps → IsPageSized (page_at ps i)
page_at-IsPageSized [] i h l = absurd (omega arith)
page_at-IsPageSized (p ∷ ps) zero (h, hs) l = h
page_at-IsPageSized (p ∷ ps) (suc i) (h, hs) l = page_at-IsPageSized ps i hs (omega arith)

segment-behind : (segs : List (List Entry)) (i : ℕ) → length segs ≤ i → segment segs i ≡ []
segment-behind [] i h = refl
segment-behind (s ∷ ss) zero h = absurd (omega arith)
segment-behind (s ∷ ss) (suc i) h = segment-behind ss i (omega arith)

length-map : (segs : List (List Entry)) → length (map last_key segs) ≡ length segs
length-map [] = refl
length-map (s ∷ ss) = ap suc (length-map ss)

module _ (xxh64 : List ℕ → ℕ → ℕ) where
  AllStored-length :
      (ps : List (List ℕ)) (segs : List (List Entry))
      → StoredAll xxh64 default_config ps segs
      → length ps ≡ length segs
  AllStored-length [] [] h = refl
  AllStored-length [] (s ∷ ss) h = absurd h
  AllStored-length (p ∷ ps) [] h = absurd h
  AllStored-length (p ∷ ps) (s ∷ ss) (h, hs) = ap suc (AllStored-length ps ss hs)

  AllStored-at :
      (ps : List (List ℕ)) (segs : List (List Entry)) (i : ℕ)
      → StoredAll xxh64 default_config ps segs
      → i < length segs
      → Stored xxh64 default_config (page_at ps i) (segment segs i)
  AllStored-at [] [] i h l = absurd (omega arith)
  AllStored-at [] (s ∷ ss) i h l = absurd h
  AllStored-at (p ∷ ps) [] i h l = absurd h
  AllStored-at (p ∷ ps) (s ∷ ss) zero (h, hs) l = h
  AllStored-at (p ∷ ps) (s ∷ ss) (suc i) (h, hs) l = AllStored-at ps ss i hs (omega arith)

  pub AllStored-Inhabited :
      (ps : List (List ℕ)) (segs : List (List Entry))
      → StoredAll xxh64 default_config ps segs
      → Inhabited segs
  AllStored-Inhabited [] [] h = tt
  AllStored-Inhabited [] (s ∷ ss) h = absurd h
  AllStored-Inhabited (p ∷ ps) [] h = absurd h
  AllStored-Inhabited (p ∷ ps) (s ∷ ss) (h, hs) = (h.some_entry, AllStored-Inhabited ps ss hs)

  -- A page gives the value of a key among its entries, and reports a key that it does not have.
  find_in_page-Stored :
      (key : Key) (page : List ℕ) (kvs : List Entry)
      → Stored xxh64 default_config page kvs
      → All IsStorable kvs
      → Ascending kvs
      → find_in_page xxh64 key page ≡ value_found (lookup key kvs)
  unfolding find_in_page
  find_in_page-Stored key page kvs s storable asc =
      let f = s.filling in
      ap
        (λ (p : List ℕ).
          find_checked xxh64 (sanity_check xxh64 (block_decoder p default_config))
            (find key (block_decoder p default_config)))
        s.committed
      ∙ ap₂ (find_checked xxh64)
          (read_entries-push_all xxh64 f.base default_config kvs s.encoder f.whole (omega arith)
            (omega arith) storable f.pushed).0
          (find-push_all xxh64 f.base default_config 2 kvs s.encoder f.whole (omega arith)
            (omega arith) (omega arith) storable asc f.pushed key)

  module _ {F Q : Type 0} (ops : FileOps F) (laws : FileLaws ops) (keys_per_page : ℕ) where
    -- A table whose file starts with the pages of some entries, and whose meta index has the last key
    -- of each page; it has a super index or none.
    pub record IsTable (kvs : List Entry) (t : Sst F Q) : Type 0 where
      pub pages : List (List ℕ)
      pub segs : List (List Entry)
      pub behind : List ℕ
      pub stored : StoredAll xxh64 default_config pages segs
      pub sizes : All IsPageSized pages
      pub content : laws.bytes t.file ≡ concat pages ++ behind
      pub entries : join segs ≡ kvs
      pub keys : t.meta_index ≡ map last_key segs
      pub super :
          (t.super_index ≡ none)
          ⊎ (t.super_index ≡ some (create_super_index keys_per_page t.meta_index))
      pub index_offset : t.footer.index_offset ≡ 0

    module _ (kvs : List Entry) (t : Sst F Q) (h : IsTable kvs t) (page_keys : 1 ≤ keys_per_page)
        (asc : Ascending kvs) (storable : All IsStorable kvs) (key : Key) where
      abbrev found : ℕ
      found = lower_bound t.meta_index key

      joined : Ascending (join h.segs)
      joined = subst Ascending (sym h.entries) asc

      inhabited : Inhabited h.segs
      inhabited = AllStored-Inhabited h.pages h.segs h.stored

      rising : Rising t.meta_index
      rising = subst Rising (sym h.keys) (last_key-Rising h.segs inhabited joined)

      find_page_id-plain :
          find_page_id keys_per_page t.meta_index none key
          ≡ (if found == length t.meta_index then none else some found)
      unfolding find_page_id
      find_page_id-plain =
          find_between-lower_bound keys_per_page t.meta_index key 0 (length t.meta_index)
            (omega arith) (inr (omega arith))

      find_page_id-found :
          find_page_id keys_per_page t.meta_index t.super_index key
          ≡ (if found == length t.meta_index then none else some found)
      find_page_id-found = elim h.super [
        | inl plain ↦
            ap (λ (s : Option (List Key)). find_page_id keys_per_page t.meta_index s key) plain
            ∙ find_page_id-plain
        | inr indexed ↦
            ap (λ (s : Option (List Key)). find_page_id keys_per_page t.meta_index s key) indexed
            ∙ find_page_id-create_super_index keys_per_page t.meta_index key page_keys rising
            ∙ find_page_id-plain
      ]

      -- What the lookup comes to: the value in the page's sequence.
      value : lookup key kvs ≡ lookup key (segment h.segs found)
      value =
          ap (lookup key) (sym h.entries)
          ∙ lookup-join h.segs key inhabited joined
          ∙ ap (λ (ks : List Key). lookup key (segment h.segs (lower_bound ks key))) (sym h.keys)

      length-keys : length t.meta_index ≡ length h.segs
      length-keys = ap length h.keys ∙ length-map h.segs

      load_page-found :
          found < length h.segs
          → load_page ops (t.footer.index_offset + found * page_size) t ≡ ok (page_at h.pages found)
      unfolding load_page
      load_page-found l =
          let in_pages : found < length h.pages =
            omega (arith, l, AllStored-length h.pages h.segs h.stored) in
          let at : t.footer.index_offset + found * page_size ≡ found * page_size =
            omega (arith, h.index_offset) in
          let size : length (page_at h.pages found) ≡ page_size =
            page_at-IsPageSized h.pages found h.sizes in_pages in
          ap loaded (
            ap (ops.read t.file page_size) at
            ∙ laws.reading t.file page_size (found * page_size) (
                omega (
                  arith,
                  ap length h.content,
                  length-append (concat h.pages) h.behind,
                  length-concat h.pages found h.sizes in_pages,
                ))
            ∙ ap (λ (bs : List ℕ). some (take page_size (drop (found * page_size) bs))) h.content
            ∙ ap some (take-concat h.pages h.behind found h.sizes in_pages))
          ∙ rw ((==_iff (length (page_at h.pages found)) page_size).1 size) refl

      lookup_in-found :
          (b : Bool)
          → (found == length t.meta_index) ≡ b
          → lookup_in xxh64 ops keys_per_page key t (if b then none else some found)
            ≡ value_found (lookup key (segment h.segs found))
      lookup_in-found true e =
          ap (λ (s : List Entry). value_found (lookup key s))
            (sym (
              segment-behind h.segs found
                (omega (arith, (==_iff found (length t.meta_index)).0 e, length-keys))))
      lookup_in-found false e =
          let inside : found < length h.segs = omega (
            arith,
            not_at found (length t.meta_index) e (lower_bound-le_length t.meta_index key),
            length-keys,
          ) in
          ap (λ (r : Expected (List ℕ)). r >>= find_in_page xxh64 key) (load_page-found inside)
          ∙ find_in_page-Stored key (page_at h.pages found) (segment h.segs found)
              (AllStored-at h.pages h.segs found h.stored inside)
              (segment-All IsStorable h.segs found
                (subst (All IsStorable) (sym h.entries) storable))
              (segment-Ascending h.segs found joined)
        where
          not_at : (a b : ℕ) → (a == b) ≡ false → a ≤ b → a < b
          not_at a b h k = ground arith

      -- A lookup in a table gives the value of the key among the table's entries, and reports a key
      -- that is not there; with a super index and without it.
      pub lookup_async-lookup :
          lookup_async xxh64 ops keys_per_page key t ≡ value_found (lookup key kvs)
      unfolding lookup_async
      lookup_async-lookup =
          ap (lookup_in xxh64 ops keys_per_page key t) find_page_id-found
          ∙ lookup_in-found (found == length t.meta_index) refl
          ∙ ap value_found (sym value)
