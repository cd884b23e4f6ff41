-- ===== src/Sst/Export.antt =====
-- src/db/index_ops.cc: `_export_as_sst_async` with `_write_qf_async` and `create_qf_for_key_count`.
-- The quotient filter is an interface. `padding n` is memory that nobody wrote, `n` bytes of it; an
-- exception is an error, and `opened` is what opening the file gives.
use hedge_db.Base.{
  ℕ, zero, suc, ◌+◌, ◌*◌, ◌-◌, ◌/◌, List, ◌++◌, length, Bool, true, false, ltb, if◌then◌else◌,
  Option, some, none,
}
use Prim.Native.String.{String}
use hedge_db.Base.Status.{Expected, ok, err, error, ◌>>=◌}
use hedge_db.Key.{Key}
use hedge_db.Utils.{ceil_page_align}
use hedge_db.Memtable.Entry.{MemtableEntry}
use hedge_db.Sst.File.{FileOps}
use hedge_db.Sst.Footer.{SstFooter, SstFooterBuilder, build, footer_bytes}
use hedge_db.Sst.WriteBuffer.{MergeWriteBuffer, empty_meta_index}
use hedge_db.Sst.WriteIndex.{IndexState, write_index, write_index_infos}
use hedge_db.Sst.Lookup.{Sst, page_size}

-- `quotient_filter`, an insertion with the hash of the key.
pub record FilterOps (Q : Type 0) : Type 0 where
  pub make : ℕ → ℕ → Expected Q
  pub insert : Key → Q → Q
  pub may_contain : Q → ℕ → Bool
  pub header_as_byte_span : Q → List ℕ
  pub data_as_byte_span : Q → List ℕ
  pub load : List ℕ → List ℕ → ℕ → Expected Q

abbrev pub qf_bits_per_key : ℕ
qf_bits_per_key = 10

-- The loop that doubles `s` until it is not less than the slots, on fuel.
unfoldable pub slot_bits : ℕ → ℕ → ℕ → ℕ
slot_bits zero slots s = 0
slot_bits (suc fuel) slots s =
    let more = slot_bits fuel slots (s * 2) in if ltb s slots then suc more else 0

unfoldable pub create_qf_for_key_count : {Q : Type 0} → FilterOps Q → ℕ → Expected Q
create_qf_for_key_count filter num_keys =
    filter.make (slot_bits 64 ((num_keys * 4 + 2) / 3) 1) qf_bits_per_key

-- A call of `io::write` whose negative result ends the function.
abbrev pub checked : {F : Type 0} → String → F × Option ℕ → Expected (F × ℕ)
checked text (f, none) = err (error text)
checked text (f, some n) = ok (f, n)

-- What is passed to the tables' constructor, and where the file ends.
pub record ExportOptions : Type 0 where
  pub entry_count : ℕ
  pub upper_bound : ℕ
  pub epoch : ℕ
  pub fdatasync_output : Bool

-- What the builder is told of the filter.
pub record FilterPlace : Type 0 where
  pub qf_offset : Option ℕ
  pub qf_size : Option ℕ

module _ {F Q : Type 0} (ops : FileOps F) (filter : FilterOps Q) (padding : ℕ → List ℕ) where
  -- The memory of a buffer up to the next page's boundary.
  abbrev pub page_padded : List ℕ → List ℕ
  page_padded bs = bs ++ padding (ceil_page_align (length bs) - length bs)

  abbrev pub one_page : List ℕ → List ℕ
  one_page bs = bs ++ padding (page_size - length bs)

  unfoldable pub write_qf : Q → ℕ → F → Expected (F × ℕ)
  write_qf qf offset fd =
      checked "Failed to write QF header: "
        (ops.write fd (one_page (filter.header_as_byte_span qf)) offset)
      >>= λ (h : F × ℕ).
          checked "Failed to write QF data: "
            (ops.write h.0 (page_padded (filter.data_as_byte_span qf)) (offset + h.1))
          >>= λ (d : F × ℕ). ok (d.0, h.1 + d.1)

  abbrev pub write_filter : Option Q → ℕ → F → Expected (F × ℕ × FilterPlace)
  write_filter none offset fd = ok (fd, offset, record { qf_offset = none; qf_size = none })
  write_filter (some qf) offset fd = write_qf qf offset fd >>= λ (r : F × ℕ).
      ok (r.0, offset + r.1, record { qf_offset = some offset; qf_size = some r.1 })

  abbrev pub footer_builder :
      ExportOptions → IndexState F Q → FilterPlace → ℕ → ℕ → SstFooterBuilder
  footer_builder o s place meta_index_offset footer_offset =
      let infos = write_index_infos s in
      record {
        upper_bound = some o.upper_bound;
        indexed_kv = some infos.indexed_kv;
        meta_index_entries = some (length s.meta_index.keys);
        index_offset = some 0;
        meta_index_offset = some meta_index_offset;
        qf_offset = place.qf_offset;
        qf_size = place.qf_size;
        footer_offset = some footer_offset;
        epoch = some o.epoch;
        max_seq_nr = some infos.max_seq_nr;
      }

  abbrev pub succeeded : String → F × Bool → Expected F
  succeeded text (fd, failed) = if failed then err (error text) else ok fd

  abbrev pub synced_file : Bool → F → Expected F
  synced_file false fd = ok fd
  synced_file true fd = succeeded "Failed to fdatasync file: " (ops.datasync fd)

  -- Behind `_write_index`.
  unfoldable pub export_rest : ExportOptions → IndexState F Q → Expected (Sst F Q)
  export_rest o s =
      let bytes_written = (write_index_infos s).bytes_written in
      checked "Failed to write meta-index: "
        (ops.write s.file (page_padded s.meta_index.encoded) bytes_written)
      >>= λ (m : F × ℕ).
          write_filter s.qf (bytes_written + m.1) m.0 >>= λ (q : F × ℕ × FilterPlace).
          build (footer_builder o s q.2 bytes_written q.1) >>= λ (footer : SstFooter).
          checked "Failed to write footer: "
            (ops.write q.0 (one_page (footer_bytes padding footer)) q.1)
          >>= λ (e : F × ℕ).
              succeeded "Failed to truncate file: " (ops.truncate e.0 (q.1 + e.1)) >>= λ (fd : F).
              synced_file o.fdatasync_output fd >>= λ (fd' : F). ok (record {
                file = fd';
                meta_index = s.meta_index.keys;
                super_index = none;
                qf = s.qf;
                footer = footer;
              })

  unfoldable pub export_as_sst :
      (List ℕ → ℕ → ℕ)
      → MergeWriteBuffer
      → ExportOptions
      → List MemtableEntry
      → Expected F
      → Expected (Sst F Q)
  export_as_sst xxh64 write_buffer o entries opened =
      create_qf_for_key_count filter o.entry_count >>= λ (qf : Q). opened >>= λ (fd : F).
      write_index ops xxh64 filter.insert write_buffer entries (some qf) empty_meta_index fd
      >>= export_rest o
