-- ===== src/Sst/Flush.antt =====
-- src/db/index_ops.cc and src/db/sst.cc: a memtable's entries go to a table and are looked up there.
use hedge_db.Base.{
  ℕ, ◌*◌, ◌≤◌, ◌<◌, ◌^◌, ◌≡◌, refl, sym, ◌∙◌, ap, inl, inr, List, [], ◌∷◌, length, map, All, some,
  ltb, Bool-cases, arith,
}
use mathlib.Core.Path.{subst}
use hedge_db.Base.Status.{ok}
use hedge_db.Base.Sort.{IsSorted}
use hedge_db.Key.{Key}
use hedge_db.Memtable.Entry.{MemtableEntry, memtable_lt}
use hedge_db.Memtable.Drain.{firsts}
use hedge_db.Memtable.Lookup.{first_of}
use hedge_db.Block.Encoder.{default_config}
use hedge_db.Block.Sequence.{Entry, IsStorable}
use hedge_db.Block.Push.{IsSized}
use hedge_db.Block.Search.{lookup}
use hedge_db.Block.Writing.{IsFitting}
use hedge_db.Sst.File.{FileOps, FileLaws, FileView, concat}
use hedge_db.Sst.Footer.{SstFooter, footer_fields}
use hedge_db.Sst.WriteBuffer.{merge_write_buffer, empty_meta_index}
use hedge_db.Sst.WriteIndex.{IndexState}
use hedge_db.Sst.Entries.{entry_of, filter_of}
use hedge_db.Sst.Table.{Table, write_index-Table}
use hedge_db.Sst.PageId.{load_super_index}
use hedge_db.Sst.PageOf.{last_keys-All}
use hedge_db.Sst.Lookup.{Sst, value_found, lookup_async}
use hedge_db.Sst.LookupTable.{IsTable, IsPageSized, AllStored-Inhabited, lookup_async-lookup}
use hedge_db.Sst.Newest.{or_empty, lookup-firsts, firsts-Ascending, firsts-All}
use hedge_db.Sst.Export.{FilterOps, ExportOptions, create_qf_for_key_count, export_as_sst}
use hedge_db.Sst.ExportFile.{FilterLaws, Exported, behind_pages, export_rest-Exported}
use hedge_db.Sst.Load.{load}
use hedge_db.Sst.LoadExport.{AllSized, load-Exported}

-- An entry that fits a page and can be read back from it.
abbrev pub IsWritable : (List ℕ → ℕ → ℕ) → MemtableEntry → Type 0
IsWritable xxh64 it = IsFitting xxh64 default_config (entry_of it) × (length it.key ≤ 255)

entries-All {κ} :
    (P : Entry → Type κ) (its : List MemtableEntry)
    → All (λ (it : MemtableEntry). P (entry_of it)) its
    → All P (map entry_of its)
entries-All P [] h = tt
entries-All P (it ∷ its) (h, hs) = (h, entries-All P its hs)

All-map {κ λ'} :
    {A : Type 0} (P : A → Type κ) (R : A → Type λ') (f : (a : A) → P a → R a) (xs : List A)
    → All P xs
    → All R xs
All-map P R f [] h = tt
All-map P R f (x ∷ xs) (h, hs) = (f x h, All-map P R f xs hs)

writable-IsStorable :
    (xxh64 : List ℕ → ℕ → ℕ) (it : MemtableEntry) → IsWritable xxh64 it → IsStorable (entry_of it)
writable-IsStorable xxh64 it ((sized, room), short) =
    (omega (arith, sized), omega (arith, short), omega (arith, room))

module _ {F Q : Type 0} (ops : FileOps F) (laws : FileLaws ops) (filter : FilterOps Q)
    (filter_laws : FilterLaws filter) (padding : ℕ → List ℕ)
    (padded : (n : ℕ) → length (padding n) ≡ n) (xxh64 : List ℕ → ℕ → ℕ) where
  -- A file with the bytes that it had when it was opened.
  abbrev pub opened_with : List ℕ → FileView ops
  opened_with before = record { laws = laws; before = before }

  abbrev pub room : 10 ≤ default_config.block_size_in_bytes
  room = omega arith

  filter_of-some :
      (q : Q) (its : List MemtableEntry)
      → (q' : Q) × (filter_of ops
            (opened_with [])
            xxh64
            filter.insert
            default_config
            room
            empty_meta_index
            (some q)
            its
          ≡ some q')
  filter_of-some q [] = (q, refl)
  filter_of-some q (it ∷ its) = filter_of-some (filter.insert it.key q) its

  -- What is written of some entries.
  abbrev pub kept : List MemtableEntry → List Entry
  kept its = map entry_of (firsts its)

  kept-All {κ} :
      (P : Entry → Type κ) (its : List MemtableEntry)
      → All (λ (it : MemtableEntry). P (entry_of it)) its
      → All P (kept its)
  kept-All P its h =
      entries-All P (firsts its) (firsts-All (λ (it : MemtableEntry). P (entry_of it)) its h)

  pub kept-IsStorable :
      (its : List MemtableEntry) → All (IsWritable xxh64) its → All IsStorable (kept its)
  kept-IsStorable its h = kept-All IsStorable its (
      All-map (IsWritable xxh64) (λ (it : MemtableEntry). IsStorable (entry_of it))
        (writable-IsStorable xxh64) its h)

  pub IsTable-Exported :
      (before : List ℕ) (keys_per_page : ℕ) (o : ExportOptions) (kvs : List Entry)
      (s : IndexState F Q) (q : Q) (t : Sst F Q)
      → (h : Table ops (opened_with before) xxh64 filter.insert default_config room kvs s)
      → Exported ops (opened_with before) filter filter_laws padding padded o (concat h.pages) s q t
      → IsTable xxh64 ops laws keys_per_page kvs t
  IsTable-Exported before keys_per_page o kvs s q t h x = record {
    pages = h.pages;
    segs = h.segs;
    behind = behind_pages ops (opened_with before) filter filter_laws padding padded s q t.footer;
    stored = h.stored;
    sizes = h.sizes;
    content = x.content;
    entries = h.entries;
    keys = x.meta_index ∙ h.keys;
    super = inl x.super_index;
    index_offset = ap (λ (f : SstFooter). f.index_offset) x.footer;
  }

  -- A table as it is after a restart.
  abbrev pub reopened : ℕ → Sst F Q → Sst F Q
  reopened keys_per_page t = record {
    file = t.file;
    meta_index = t.meta_index;
    super_index = load_super_index keys_per_page t.meta_index;
    qf = t.qf;
    footer = t.footer;
  }

  reopened-IsTable :
      (keys_per_page : ℕ) (kvs : List Entry) (t : Sst F Q)
      → IsTable xxh64 ops laws keys_per_page kvs t
      → IsTable xxh64 ops laws keys_per_page kvs (reopened keys_per_page t)
  unfolding load_super_index
  reopened-IsTable keys_per_page kvs t h = record {
    pages = h.pages;
    segs = h.segs;
    behind = h.behind;
    stored = h.stored;
    sizes = h.sizes;
    content = h.content;
    entries = h.entries;
    keys = h.keys;
    super = elim (Bool-cases (ltb (keys_per_page * 16) (length t.meta_index))) [
      | inl large ↦ inr (rw large refl)
      | inr few ↦ inl (rw few refl)
    ];
    index_offset = h.index_offset;
  }

  module _ (first : List ℕ) (others : List (List ℕ)) (o : ExportOptions)
      (entries : List MemtableEntry) (file : F) (q₀ : Q) (whole : IsPageSized first)
      (wholes : All IsPageSized others)
      (created : create_qf_for_key_count filter o.entry_count ≡ ok q₀)
      (writable : All (IsWritable xxh64) entries) where
    abbrev pub view : FileView ops
    view = opened_with (laws.bytes file)

    pub exported :
        (s : IndexState F Q) × ((q : Q) × ((t : Sst F Q) × ((export_as_sst ops filter padding xxh64
                  (merge_write_buffer first others default_config)
                  o
                  entries
                  (ok file)
                ≡ ok t)
              × ((table : Table ops view xxh64 filter.insert default_config room (kept entries) s)
                  × (Exported ops view filter filter_laws padding padded o
                        (concat table.pages)
                        s
                        q
                        t
                      × (filter_of ops view xxh64 filter.insert default_config room empty_meta_index
                            (some q₀)
                            (firsts entries)
                          ≡ some q))))))
    unfolding export_as_sst
    exported =
        let fit =
          All-map (IsWritable xxh64)
            (λ (it : MemtableEntry). IsFitting xxh64 default_config (entry_of it))
            (λ it (h : IsWritable xxh64 it). h.0) entries writable in
        let (s, (e₁, (table, (filtered, seq)))) =
          write_index-Table ops view xxh64 filter.insert default_config room first others entries
            (some q₀) file whole wholes refl fit in
        let (q, some_q) = filter_of-some q₀ (firsts entries) in
        let (t, (e₂, x)) =
          export_rest-Exported ops view filter filter_laws padding padded o (concat table.pages) s q
            (filtered ∙ some_q) table.content table.bytes_written in
        (s, (q, (t, (rw (created, e₁) e₂, (table, (x, some_q))))))

    lookup-kept :
        (key : Key)
        → value_found (lookup key (kept entries)) ≡ value_found (or_empty (first_of key entries))
    lookup-kept key = ap value_found (lookup-firsts key entries)

    -- A table that is written from the entries of a memtable, in order, answers every lookup with the
    -- first entry of the key, and with KEY_NOT_FOUND where there is none or its value is empty. The
    -- writing succeeds, whatever the hash and the bytes that the file was allocated with: where the filter
    -- can be made, keys have 1 to 255 bytes and each entry fits a page with its offset and the page's
    -- trailer.
    pub lookup_async-export_as_sst :
        (keys_per_page : ℕ)
        → 1 ≤ keys_per_page
        → IsSorted memtable_lt entries
        → (t : Sst F Q) × ((export_as_sst ops filter padding xxh64
                (merge_write_buffer first others default_config)
                o
                entries
                (ok file)
              ≡ ok t)
            × ((key : Key)
                → lookup_async xxh64 ops keys_per_page key t
                  ≡ value_found (or_empty (first_of key entries))))
    lookup_async-export_as_sst keys_per_page page_keys sorted =
        let (s, (q, (t, (done, (table, (x, some_q)))))) = exported in
        (
          t,
          (
            done,
            λ key.
                lookup_async-lookup xxh64 ops laws keys_per_page (kept entries) t
                  (IsTable-Exported (laws.bytes file) keys_per_page o (kept entries) s q t table x)
                  page_keys (firsts-Ascending entries sorted) (kept-IsStorable entries writable) key
                ∙ lookup-kept key,
          ),
        )

    -- The same after the table was closed and loaded again, which finds the footer by the file's size,
    -- whatever the file was allocated with, where the sizes and numbers of its footer
    -- fit 64 bits and so does the file's size; a table with a large meta index then has a super index.
    pub lookup_async-load :
        (keys_per_page : ℕ)
        → 1 ≤ keys_per_page
        → IsSorted memtable_lt entries
        → (t : Sst F Q)
        → export_as_sst ops filter padding xxh64
            (merge_write_buffer first others default_config)
            o
            entries
            (ok file)
          ≡ ok t
        → All (λ (w : ℕ). w < 2 ^ 64) (footer_fields t.footer)
        → length (laws.bytes t.file) < 2 ^ 64
        → (t' : Sst F Q) × ((load ops filter keys_per_page (ok t.file) ≡ ok t')
            × (((t'.footer ≡ t.footer) × (t'.qf ≡ t.qf))
                × ((key : Key)
                    → lookup_async xxh64 ops keys_per_page key t'
                      ≡ value_found (or_empty (first_of key entries)))))
    lookup_async-load keys_per_page page_keys sorted t done words small =
        let (s, (q, (t₀, (done₀, (table, (x₀, some_q)))))) = exported in
        let same : t₀ ≡ t = cc (done, done₀) in
        let x : Exported ops view filter filter_laws padding padded o (concat table.pages) s q t =
          subst
            (λ (t : Sst F Q).
              Exported ops view filter filter_laws padding padded o (concat table.pages) s q t)
            same x₀ in
        let keys_sized : AllSized s.meta_index.keys = subst AllSized (sym table.keys) (
          last_keys-All IsSized table.segs
            (AllStored-Inhabited xxh64 table.pages table.segs table.stored)
            (subst (All (λ (y : Entry). IsSized y.0)) (sym table.entries) (
              kept-All (λ (y : Entry). IsSized y.0) entries
                (All-map (IsWritable xxh64) (λ (it : MemtableEntry). IsSized it.key)
                  (λ it (h : IsWritable xxh64 it). h.0.0) entries writable)))) in
        (
          reopened keys_per_page t,
          (
            load-Exported ops view filter filter_laws padding padded keys_per_page o
                (concat table.pages) s q t x words table.encoded keys_sized small,
            (
              (refl, refl),
              λ key.
                  lookup_async-lookup xxh64 ops laws keys_per_page (kept entries)
                    (reopened keys_per_page t)
                    (reopened-IsTable keys_per_page (kept entries) t (
                      IsTable-Exported (laws.bytes file) keys_per_page o (kept entries) s q t table
                        x))
                    page_keys (firsts-Ascending entries sorted) (kept-IsStorable entries writable)
                    key
                  ∙ lookup-kept key,
            ),
          ),
        )
