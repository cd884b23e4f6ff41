-- ===== src/Sst/ExportFile.antt =====
-- src/db/index_ops.cc: what `_export_as_sst_async` leaves in the file.
use hedge_db.Base.{
  ℕ, ◌+◌, ◌≤◌, ◌≡◌, refl, ◌∙◌, ap, List, [], ◌∷◌, ◌++◌, length, length-append, append_assoc, take,
  drop, take-append, ◌≤◌, Bool, true, false, Option, some, none, arith,
}
use mathlib.Core.Path.{subst}
use Prim.Native.String.{String}
use hedge_db.Base.Status.{ok}
use hedge_db.Utils.{ceil_page_align}
use hedge_db.Sst.File.{FileOps, FileView, Holds, written-Holds, reported_at}
use hedge_db.Sst.Footer.{SstFooter, build, footer_bytes, magic, current_footer_version}
use hedge_db.Sst.WriteIndex.{IndexState, write_index_infos}
use hedge_db.Sst.Lookup.{Sst, page_size}
use hedge_db.Sst.Export.{
  FilterOps, ExportOptions, checked, page_padded, one_page, write_qf, synced_file, succeeded,
  export_rest,
}

-- A filter's header fits a page, and its table is a number of pages and can be loaded again.
pub record FilterLaws {Q : Type 0} (filter : FilterOps Q) : Type 0 where
  pub header_fits : (q : Q) → length (filter.header_as_byte_span q) ≤ page_size
  pub data_aligned :
      (q : Q)
      → ceil_page_align (length (filter.data_as_byte_span q)) ≡ length (filter.data_as_byte_span q)
  pub loads :
      (q : Q) (rest : List ℕ)
      → filter.load
          (filter.header_as_byte_span q ++ rest)
          (filter.data_as_byte_span q)
          (length (filter.data_as_byte_span q))
        ≡ ok q

module _ {F Q : Type 0} (ops : FileOps F) (view : FileView ops) (filter : FilterOps Q)
    (filter_laws : FilterLaws filter) (padding : ℕ → List ℕ)
    (padded : (n : ℕ) → length (padding n) ≡ n) where
  -- The footer that is built, from the sizes of the parts of the file.
  abbrev pub footer_for : ExportOptions → IndexState F Q → ℕ → ℕ → ℕ → SstFooter
  footer_for o s meta_index_offset meta_size qf_size = record {
    header = magic ++ 0 ∷ 0 ∷ 0 ∷ 0 ∷ [];
    version = current_footer_version;
    upper_bound = o.upper_bound;
    indexed_keys = s.write_buffer.indexed_kvs;
    meta_index_entries = length s.meta_index.keys;
    index_offset = 0;
    meta_index_offset = meta_index_offset;
    qf_offset = meta_index_offset + meta_size;
    qf_size = qf_size;
    footer_offset = meta_index_offset + meta_size + qf_size;
    epoch = o.epoch;
    max_seq_nr = s.max_seq_nr;
  }

  abbrev pub meta_part : IndexState F Q → List ℕ
  meta_part s = page_padded ops filter padding s.meta_index.encoded

  abbrev pub header_part : Q → List ℕ
  header_part q = one_page ops filter padding (filter.header_as_byte_span q)

  abbrev pub data_part : Q → List ℕ
  data_part q = page_padded ops filter padding (filter.data_as_byte_span q)

  abbrev pub footer_part : SstFooter → List ℕ
  footer_part f = one_page ops filter padding (footer_bytes padding f)

  -- What stands behind the pages.
  abbrev pub behind_pages : IndexState F Q → Q → SstFooter → List ℕ
  behind_pages s q f = meta_part s ++ (header_part q ++ (data_part q ++ footer_part f))

  -- A file of a table in its parts: pages, meta index, filter and footer.
  pub record Exported (o : ExportOptions) (pages : List ℕ) (s : IndexState F Q) (q : Q)
      (t : Sst F Q) : Type 0 where
    pub content : view.laws.bytes t.file ≡ pages ++ behind_pages s q t.footer
    pub footer :
        t.footer
        ≡ footer_for o s
            (length pages)
            (length (meta_part s))
            (length (header_part q) + length (data_part q))
    pub meta_index : t.meta_index ≡ s.meta_index.keys
    pub super_index : t.super_index ≡ none
    pub qf : t.qf ≡ some q

  append_ok :
      (text : String) (f : F) (w bs : List ℕ) (off : ℕ)
      → Holds ops view f w
      → off ≡ length w
      → (f' : F) × ((checked text (ops.write f bs off) ≡ ok (f', length bs))
          × Holds ops view f' (w ++ bs))
  append_ok text f w bs off held h = (
    (ops.write f bs off).0,
    (
      ap (λ (r : Option ℕ). checked text ((ops.write f bs off).0, r))
          (reported_at ops view f w bs off held h),
      written-Holds ops view f w bs off held h,
    ),
  )

  write_qf-ok :
      (q : Q) (off : ℕ) (f : F) (w : List ℕ)
      → Holds ops view f w
      → off ≡ length w
      → (f' : F) × ((write_qf ops filter padding q off f
            ≡ ok (f', length (header_part q) + length (data_part q)))
          × Holds ops view f' (w ++ (header_part q ++ data_part q)))
  unfolding write_qf
  write_qf-ok q off f w held h =
      let (f₁, (e₁, b₁)) = append_ok "Failed to write QF header: " f w (header_part q) off held h in
      let (f₂, (e₂, b₂)) =
        append_ok "Failed to write QF data: " f₁ (w ++ header_part q) (data_part q)
          (off + length (header_part q)) b₁ (omega (arith, h, length-append w (header_part q))) in
      (
        f₂,
        (
          rw (e₁, e₂) refl,
          subst (Holds ops view f₂) (append_assoc w (header_part q) (data_part q)) b₂,
        ),
      )

  synced_file-ok :
      (sync : Bool) (f : F)
      → (f' : F) × ((synced_file ops filter padding sync f ≡ ok f')
          × (view.laws.bytes f' ≡ view.laws.bytes f))
  synced_file-ok false f = (f, (refl, refl))
  synced_file-ok true f =
      ((ops.datasync f).0, (rw (view.laws.synced f) refl, view.laws.unchanged f))

  truncate-ok :
      (f : F) (w : List ℕ) (n : ℕ)
      → Holds ops view f w
      → n ≡ length w
      → (f' : F) × ((succeeded ops filter padding "Failed to truncate file: " (ops.truncate f n)
            ≡ ok f')
          × (view.laws.bytes f' ≡ w))
  truncate-ok f w n held h = (
    (ops.truncate f n).0,
    (
      rw (view.laws.truncated f n inside) refl,
      view.laws.kept f n inside
          ∙ ap (take n) held
          ∙ take-append n w (drop (length w) view.before) h,
    ),
  )
    where
      inside : n ≤ length (view.laws.bytes f)
      inside = omega (arith, h, ap length held, length-append w (drop (length w) view.before))

  pub export_rest-Exported :
      (o : ExportOptions) (pages : List ℕ) (s : IndexState F Q) (q : Q)
      → s.qf ≡ some q
      → Holds ops view s.file pages
      → s.bytes_written ≡ length pages
      → (t : Sst F Q) × ((export_rest ops filter padding o s ≡ ok t) × Exported o pages s q t)
  unfolding export_rest write_index_infos build
  export_rest-Exported o pages s q has_filter held at =
      let meta = meta_part s in
      let (f₁, (e₁, b₁)) =
        append_ok "Failed to write meta-index: " s.file pages meta s.bytes_written held at in
      let off = s.bytes_written + length meta in
      let w₁ = pages ++ meta in
      let size₁ : off ≡ length w₁ = omega (arith, at, length-append pages meta) in
      let (f₂, (e₂, b₂)) = write_qf-ok q off f₁ w₁ b₁ size₁ in
      let qf_size = length (header_part q) + length (data_part q) in
      let footer = footer_for o s s.bytes_written (length meta) qf_size in
      let parts = header_part q ++ data_part q in
      let w₂ = w₁ ++ parts in
      let size₂ : off + qf_size ≡ length w₂ =
        omega (arith, size₁, length-append w₁ parts, length-append (header_part q) (data_part q)) in
      let last = footer_part footer in
      let (f₃, (e₃, b₃)) =
        append_ok "Failed to write footer: " f₂ w₂ last (off + qf_size) b₂ size₂ in
      let (f₄, (e₄, b₄)) =
        truncate-ok f₃ (w₂ ++ last) (off + qf_size + length last) b₃
          (omega (arith, size₂, length-append w₂ last)) in
      let (f₅, (e₅, b₅)) = synced_file-ok o.fdatasync_output f₄ in
      (
        record {
          file = f₅;
          meta_index = s.meta_index.keys;
          super_index = none;
          qf = some q;
          footer = footer;
        },
        (
          rw (has_filter, e₁, e₂, e₃, e₄, e₅) refl,
          record {
            content =
                b₅
                ∙ b₄
                ∙ append_assoc w₁ parts last
                ∙ append_assoc pages meta (parts ++ last)
                ∙ ap (λ (bs : List ℕ). pages ++ (meta ++ bs))
                    (append_assoc (header_part q) (data_part q) last);
            footer = ap (λ (n : ℕ). footer_for o s n (length meta) qf_size) at;
            meta_index = refl;
            super_index = refl;
            qf = refl;
          },
        ),
      )
