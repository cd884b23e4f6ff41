-- ===== src/Sst/LoadExport.antt =====
-- src/db/sst.cc: `load` reads what `_export_as_sst_async` wrote.
use hedge_db.Base.{
  ℕ, ◌+◌, ◌-◌, ◌≤◌, ◌<◌, ◌^◌, ◌≡◌, refl, sym, ◌∙◌, ap, ap₂, inl, inr, List, [], ◌∷◌, ◌++◌, length,
  length-append, append_assoc, append-nil, map, take, drop, drop-append, take-drop-append,
  replicate, All, Bool, true, ltb, lt→ltb, ltb→le, ==_iff, if◌then◌else◌, Bool-cases, Option, some,
  arith,
}
use Prim.Native.String.{String}
use hedge_db.Base.Status.{Expected, ok, err, error, ◌>>=◌}
use hedge_db.Key.{
  Key, write_key_unsafe, read_key_unsafe, serialized_key_total_length, read-write_key_unsafe,
}
use hedge_db.Key.Order.{key_eq_refl}
use hedge_db.Utils.{ceil_page_align, round_up}
use hedge_db.Block.Push.{IsSized}
use hedge_db.Sst.File.{FileOps, FileView, concat}
use hedge_db.Sst.Footer.{SstFooter, footer_bytes, footer_fields, footer_of_bytes, magic}
use hedge_db.Sst.FooterRead.{IsFooter, footer_of_bytes-footer_bytes, length-footer_bytes}
use hedge_db.Sst.WriteIndex.{IndexState}
use hedge_db.Sst.Lookup.{Sst, page_size}
use hedge_db.Sst.PageId.{load_super_index}
use hedge_db.Sst.Export.{FilterOps, ExportOptions, one_page}
use hedge_db.Sst.ExportFile.{FilterLaws, Exported, meta_part, header_part, data_part, footer_part}
use hedge_db.Sst.Load.{
  minus64, exactly, read_keys, has_magic, meta_size, load_meta_index, load_filter, load_footer,
  load,
}

minus64-sub : (a b : ℕ) → b ≤ a → a < 2 ^ 64 → minus64 a b ≡ a - b
minus64-sub a b h k = omega arith

one_footer_page : round_up 104 page_size ≡ page_size
unfolding round_up
one_footer_page = refl

abbrev stored_keys : List Key → List ℕ
stored_keys ks = concat (map write_key_unsafe ks)

abbrev pub AllSized : List Key → Type 0
AllSized ks = All IsSized ks

-- The keys are read back from their bytes, whatever follows them.
read_keys-stored_keys :
    (ks : List Key) (rest : List ℕ)
    → AllSized ks
    → read_keys (length ks) (stored_keys ks ++ rest) ≡ ks
unfolding read_keys serialized_key_total_length write_key_unsafe
read_keys-stored_keys [] rest h = refl
read_keys-stored_keys (k ∷ ks) rest ((lo, hi), hs) =
    let first =
      ap read_key_unsafe (append_assoc (write_key_unsafe k) (stored_keys ks) rest)
      ∙ read-write_key_unsafe k (stored_keys ks ++ rest) lo hi in
    ap₂ (λ (k' : Key) (ks' : List Key). k' ∷ ks') first
      (ap
          (λ (k' : Key). read_keys (length ks) (
            drop (serialized_key_total_length k') ((write_key_unsafe k ++ stored_keys ks) ++ rest)))
          first
        ∙ ap (read_keys (length ks)) (
            ap (drop (serialized_key_total_length k))
              (append_assoc (write_key_unsafe k) (stored_keys ks) rest)
            ∙ drop-append (serialized_key_total_length k) (write_key_unsafe k)
                (stored_keys ks ++ rest) (size k))
        ∙ read_keys-stored_keys ks rest hs)
  where
    size : (k : Key) → serialized_key_total_length k ≡ length (write_key_unsafe k)
    size k = omega arith

no_keys : (ks : List Key) → length (stored_keys ks) ≡ 0 → ks ≡ []
unfolding write_key_unsafe
no_keys [] h = refl
no_keys (k ∷ ks) h = absurd (omega (arith, length-append (write_key_unsafe k) (stored_keys ks)))

module _ {F Q : Type 0} (ops : FileOps F) (view : FileView ops) (filter : FilterOps Q)
    (filter_laws : FilterLaws filter) (padding : ℕ → List ℕ)
    (padded : (n : ℕ) → length (padding n) ≡ n) (keys_per_page : ℕ) where
  -- A part of a file's bytes is read at its place.
  read-part :
      (text : String) (f : F) (before part behind : List ℕ) (n off : ℕ)
      → view.laws.bytes f ≡ before ++ (part ++ behind)
      → n ≡ length part
      → off ≡ length before
      → exactly text n (ops.read f n off) ≡ ok part
  read-part text f before part behind n off h size at =
      ap (exactly text n) (
        view.laws.reading f n off (
          omega (
            arith,
            size,
            at,
            ap length h,
            length-append before (part ++ behind),
            length-append part behind,
          ))
        ∙ ap (λ (bs : List ℕ). some (take n (drop off bs))) h
        ∙ ap some (take-drop-append off n before part behind at size))
      ∙ rw ((==_iff (length part) n).1 (sym size)) refl

  length-one_page :
      (bs : List ℕ) → length bs ≤ page_size → length (one_page ops filter padding bs) ≡ page_size
  length-one_page bs h =
      omega
        (arith, length-append bs (padding (page_size - length bs)), padded (page_size - length bs))

  padded_data :
      (q : Q) → data_part ops view filter filter_laws padding padded q ≡ filter.data_as_byte_span q
  padded_data q =
      let d = filter.data_as_byte_span q in
      ap (λ (n : ℕ). d ++ padding n) {x = ceil_page_align (length d) - length d} {y = 0}
        (omega (arith, filter_laws.data_aligned q))
      ∙ ap (λ (bs : List ℕ). d ++ bs) (empty (padding 0) (padded 0))
      ∙ append-nil d
    where
      empty : (bs : List ℕ) → length bs ≡ 0 → bs ≡ []
      empty [] h = refl
      empty (b ∷ bs) h = absurd (omega arith)

  module _ (o : ExportOptions) (pages : List ℕ) (s : IndexState F Q) (q : Q) (t : Sst F Q)
      (x : Exported ops view filter filter_laws padding padded o pages s q t)
      (words : All (λ (w : ℕ). w < 2 ^ 64) (footer_fields t.footer))
      (encoded : s.meta_index.encoded ≡ stored_keys s.meta_index.keys)
      (sized : AllSized s.meta_index.keys) (small : length (view.laws.bytes t.file) < 2 ^ 64) where
    abbrev meta : List ℕ
    meta = meta_part ops view filter filter_laws padding padded s

    abbrev header : List ℕ
    header = header_part ops view filter filter_laws padding padded q

    abbrev table : List ℕ
    table = data_part ops view filter filter_laws padding padded q

    abbrev last : List ℕ
    last = footer_part ops view filter filter_laws padding padded t.footer

    is_footer : IsFooter t.footer
    is_footer = record {
      header = ap (λ (f : SstFooter). length f.header) x.footer;
      version = omega (arith, ap (λ (f : SstFooter). f.version) x.footer);
      fields = words;
    }

    length-header : length header ≡ page_size
    length-header = length-one_page (filter.header_as_byte_span q) (filter_laws.header_fits q)

    length-last : length last ≡ page_size
    length-last =
        length-one_page (footer_bytes padding t.footer)
          (omega (arith, length-footer_bytes padding (padded 7) t.footer is_footer []))

    total :
        length (view.laws.bytes t.file)
        ≡ length pages + length meta + length header + length table + length last
    total = omega (
      arith,
      ap length x.content,
      length-append pages (meta ++ (header ++ (table ++ last))),
      length-append meta (header ++ (table ++ last)),
      length-append header (table ++ last),
      length-append table last,
    )

    load_footer-last : load_footer ops filter keys_per_page t.file ≡ ok t.footer
    unfolding load_footer
    load_footer-last =
        ap
          (λ (n : ℕ).
            exactly "sst::load: failed to read footer from " n
              (ops.read t.file n (minus64 (ops.file_size t.file) n))
            >>= checked)
          one_footer_page
        ∙ ap (λ (r : Expected (List ℕ)). r >>= checked)
            (read-part "sst::load: failed to read footer from " t.file
              (pages ++ (meta ++ (header ++ table))) last [] page_size
              (minus64 (ops.file_size t.file) page_size) content (sym length-last) place)
        ∙ ap
            (λ (f : SstFooter).
              if has_magic f then ok f else err (error "sst::load: invalid footer magic in "))
            (footer_of_bytes-footer_bytes padding (padded 7) t.footer is_footer
              (padding (page_size - length (footer_bytes padding t.footer))))
        ∙ rw (ap has_magic x.footer ∙ key_eq_refl magic) refl
      where
        checked : List ℕ → Expected SstFooter
        checked bs =
            let footer = footer_of_bytes bs in
            if has_magic footer
            then ok footer
            else err (error "sst::load: invalid footer magic in ")

        content : view.laws.bytes t.file ≡ (pages ++ (meta ++ (header ++ table))) ++ (last ++ [])
        content =
            x.content
            ∙ ap (λ (bs : List ℕ). pages ++ (meta ++ (header ++ (table ++ bs))))
                (sym (append-nil last))
            ∙ ap (λ (bs : List ℕ). pages ++ (meta ++ bs))
                (sym (append_assoc header table (last ++ [])))
            ∙ ap (λ (bs : List ℕ). pages ++ bs)
                (sym (append_assoc meta (header ++ table) (last ++ [])))
            ∙ sym (append_assoc pages (meta ++ (header ++ table)) (last ++ []))

        place :
            minus64 (ops.file_size t.file) page_size ≡ length (pages ++ (meta ++ (header ++ table)))
        place = omega (
          arith,
          minus64-sub (length (view.laws.bytes t.file)) page_size
              (omega (arith, total, length-last)) small,
          ap (λ (n : ℕ). minus64 n page_size) (view.laws.sized t.file),
          total,
          length-last,
          length-append pages (meta ++ (header ++ table)),
          length-append meta (header ++ table),
          length-append header table,
        )

    meta_index_offset : t.footer.meta_index_offset ≡ length pages
    meta_index_offset = ap (λ (f : SstFooter). f.meta_index_offset) x.footer

    qf_offset : t.footer.qf_offset ≡ length pages + length meta
    qf_offset = ap (λ (f : SstFooter). f.qf_offset) x.footer

    qf_size : t.footer.qf_size ≡ page_size + length table
    qf_size = ap (λ (f : SstFooter). f.qf_size) x.footer ∙ omega (arith, length-header)

    has_filter : ltb 0 t.footer.qf_size ≡ true
    has_filter = lt→ltb 0 t.footer.qf_size (omega (arith, qf_size))

    load_filter-q : load_filter ops filter keys_per_page t.file t.footer ≡ ok (some q)
    unfolding load_filter
    load_filter-q =
        let data_size : minus64 t.footer.qf_size page_size ≡ length table =
          minus64-sub t.footer.qf_size page_size (omega (arith, qf_size))
            (omega (arith, qf_size, total, small))
          ∙ omega (arith, qf_size) in
        let aligned : ceil_page_align (length table) ≡ length table =
          ap (λ (d : List ℕ). ceil_page_align (length d)) (padded_data q)
          ∙ filter_laws.data_aligned q
          ∙ ap length (sym (padded_data q)) in
        let e₁ =
          read-part "sst::load: failed to read QF header from " t.file (pages ++ meta) header
            (table ++ last) page_size t.footer.qf_offset
            (x.content ∙ sym (append_assoc pages meta (header ++ (table ++ last))))
            (sym length-header) (omega (arith, qf_offset, length-append pages meta)) in
        let e₂ =
          read-part "sst::load: failed to read QF data from " t.file (pages ++ (meta ++ header))
            table last (length table) (t.footer.qf_offset + page_size)
            (x.content
              ∙ ap (λ (bs : List ℕ). pages ++ bs) (sym (append_assoc meta header (table ++ last)))
              ∙ sym (append_assoc pages (meta ++ header) (table ++ last)))
            refl
            (omega (
              arith,
              qf_offset,
              length-header,
              length-append pages (meta ++ header),
              length-append meta header,
            )) in
        let e₃ : filter.load header table (length table) ≡ ok q =
          ap (λ (d : List ℕ). filter.load header d (length d)) (padded_data q)
          ∙ filter_laws.loads q (padding (page_size - length (filter.header_as_byte_span q))) in
        rw (has_filter, data_size, aligned, e₁, e₂, e₃) refl

    size : meta_size ops filter keys_per_page t.footer ≡ length meta
    size =
        ap
          (λ (b : Bool).
            minus64 (if b then t.footer.qf_offset else t.footer.footer_offset)
              t.footer.meta_index_offset)
          has_filter
        ∙ minus64-sub t.footer.qf_offset t.footer.meta_index_offset
            (omega (arith, qf_offset, meta_index_offset)) (omega (arith, qf_offset, total, small))
        ∙ omega (arith, qf_offset, meta_index_offset)

    entries : t.footer.meta_index_entries ≡ length s.meta_index.keys
    entries = ap (λ (f : SstFooter). f.meta_index_entries) x.footer

    load_meta_index-keys :
        load_meta_index ops filter keys_per_page t.file t.footer ≡ ok s.meta_index.keys
    unfolding load_meta_index
    load_meta_index-keys = elim (Bool-cases (ltb 0 (length meta))) [
      | inl some_key ↦
          rw
            (
              size,
              some_key,
              read-part "sst::load: failed to read meta-index from " t.file pages meta
                  (header ++ (table ++ last)) (length meta) t.footer.meta_index_offset x.content
                  refl meta_index_offset,
              entries,
            )
            (ap ok (
              ap (λ (bs : List ℕ). read_keys (length s.meta_index.keys) (bs ++ behind)) encoded
              ∙ read_keys-stored_keys s.meta_index.keys behind sized))
      | inr none_there ↦
          let nothing : s.meta_index.keys ≡ [] = no_keys s.meta_index.keys (
            omega (
              arith,
              ltb→le 0 (length meta) none_there,
              ap length encoded,
              length-append s.meta_index.encoded behind,
            )) in
          rw (size, none_there, entries)
            (ap (λ (ks : List Key). ok (replicate (length ks) [])) nothing ∙ ap ok (sym nothing))
    ]
      where
        behind : List ℕ
        behind =
            padding (ceil_page_align (length s.meta_index.encoded) - length s.meta_index.encoded)

    -- A table that was exported is loaded with the same footer, meta index and filter, and gets a super
    -- index if its meta index is large.
    pub load-Exported :
        load ops filter keys_per_page (ok t.file)
        ≡ ok (record {
          file = t.file;
          meta_index = t.meta_index;
          super_index = load_super_index keys_per_page t.meta_index;
          qf = t.qf;
          footer = t.footer;
        })
    unfolding load
    load-Exported =
        rw (load_footer-last, load_meta_index-keys, load_filter-q)
          (ap₂
            (λ (ks : List Key) (f : Option Q). ok (record {
              file = t.file;
              meta_index = ks;
              super_index = load_super_index keys_per_page ks;
              qf = f;
              footer = t.footer;
            }))
            (sym x.meta_index) (sym x.qf))
