-- ===== src/Tests/SstExamples.antt =====
-- src/db/sst.cc and src/db/index_ops.cc at concrete inputs.
use hedge_db.Base.{
  ℕ, ◌+◌, ◌^◌, ◌<◌, ◌≤◌, ◌≡◌, refl, sym, List, [], ◌∷◌, ◌++◌, arith, true, false, some, none,
  length, replicate, length-replicate, map, take, drop, All,
}
use hedge_db.Base.Status.{Expected, ok, err}
use hedge_db.Base.Sort.{IsSorted}
use hedge_db.Key.{Key, key_lt, key_eq, key_compare, write_key_unsafe, encode_key_size}
use hedge_db.Utils.{ceil_page_align, round_up}
use hedge_db.Memtable.Entry.{MemtableEntry, memtable_lt}
use hedge_db.Block.Encoder.{
  default_config, push, push_as_restart_key, push_as_delta_key, compute_shared_prefix_length,
  checksum_of, commit, offset_bytes,
}
use hedge_db.Sst.File.{FileOps, FileLaws, FileView}
use hedge_db.Sst.WriteBuffer.{
  MergeWriteBuffer, empty_meta_index, merge_write_buffer, write_buffer_item, buffer_empty,
  append_meta_index_key, flush_buffer,
}
use hedge_db.Sst.Lookup.{Sst}
use hedge_db.Sst.Export.{
  FilterOps, ExportOptions, create_qf_for_key_count, slot_bits, export_as_sst, export_rest,
  write_qf,
}
use hedge_db.Sst.ExportFile.{FilterLaws}
use hedge_db.Varint.{varint_length, bit_width, unsafe_varint}
use hedge_db.Memtable.Lookup.{first_of}
use hedge_db.Sst.Lookup.{lookup_async, value_found}
use hedge_db.Sst.Newest.{or_empty}
use hedge_db.Sst.Flush.{IsWritable, lookup_async-export_as_sst, lookup_async-load}
use hedge_db.Sst.WriteIndex.{
  IndexState, write_index, write_entries, write_entry, try_item, flush_remaining, flush_index,
  write_index_infos,
}
use hedge_db.Block.Writer.{push_item, empty, force_commit, reset_writer, written_pages}
use hedge_db.Bytes.{to_le}
use hedge_db.Sst.Footer.{build, footer_bytes, SstFooter, footer_fields}
use mathlib.Core.Path.{subst}
use hedge_db.Sst.PageId.{find_page_id, create_super_index}
use hedge_db.Sst.SuperIndex.{Rising}
use hedge_db.Sst.SuperPage.{find_page_id-create_super_index}
use hedge_db.Sst.Entries.{entry_of, max_seq, filter_of}
use hedge_db.Sst.Table.{Table, write_index-Table}
use hedge_db.Memtable.Drain.{firsts}
use hedge_db.Block.Writing.{IsFitting}
use hedge_db.Sst.Load.{load}
use hedge_db.Tests.WalExamples.{no_hash}

-- A file as its bytes.
abbrev pub byte_file : FileOps (List ℕ)
byte_file = record {
  write = λ f bs off. (take off f ++ (bs ++ drop (off + length bs) f), some (length bs));
  read = λ f n off. some (take n (drop off f));
  file_size = λ f. length f;
  truncate = λ f n. (take n f, false);
  datasync = λ f. (f, false);
}

abbrev pub byte_file-laws : FileLaws byte_file
byte_file-laws = record {
  bytes = λ f. f;
  written = λ f bs off h. refl;
  reported = λ f bs off h. refl;
  reading = λ f n off h. refl;
  sized = λ f. refl;
  truncated = λ f n h. refl;
  kept = λ f n h. refl;
  synced = λ f. refl;
  unchanged = λ f. refl;
}

-- A filter that may contain every key.
abbrev pub full_filter : FilterOps (Unit {0})
full_filter = record {
  make = λ q r. ok tt;
  insert = λ k u. u;
  may_contain = λ u h. true;
  header_as_byte_span = λ u. [];
  data_as_byte_span = λ u. [];
  load = λ header table n. ok tt;
}

pub full_filter-laws : FilterLaws full_filter
unfolding ceil_page_align round_up
full_filter-laws = record {
  header_fits = λ q. omega arith;
  data_aligned = λ q. refl;
  loads = λ q rest. refl;
}

pub zeros : ℕ → List ℕ
zeros n = replicate n 0

pub length-zeros : (n : ℕ) → length (zeros n) ≡ n
unfolding zeros
length-zeros n = length-replicate n 0

-- Two keys, one of which has an older version.
abbrev pub versions : List MemtableEntry
versions =
    record { key = 1 ∷ 2 ∷ []; seq = 7; value = 1 ∷ 5 ∷ [] }
    ∷ record { key = 1 ∷ 2 ∷ []; seq = 3; value = 1 ∷ 4 ∷ [] }
    ∷ record { key = 1 ∷ 3 ∷ []; seq = 4; value = 2 ∷ [] }
    ∷ []

abbrev options : ExportOptions
options = record { entry_count = 3; upper_bound = 65535; epoch = 1; fdatasync_output = true }

pub versions-IsSorted : IsSorted memtable_lt versions
unfolding memtable_lt key_lt key_eq key_compare
versions-IsSorted = ((refl, (refl, tt)), ((refl, tt), (tt, tt)))

pub versions-IsWritable : All (IsWritable no_hash) versions
unfolding varint_length bit_width
versions-IsWritable = (
  (((omega arith, omega arith), omega arith), omega arith),
  (
    (((omega arith, omega arith), omega arith), omega arith),
    ((((omega arith, omega arith), omega arith), omega arith), tt),
  ),
)

versions-fit : All (λ (it : MemtableEntry). IsFitting no_hash default_config (entry_of it)) versions
versions-fit = let (a, (b, (c, d))) = versions-IsWritable in (a.0, (b.0, (c.0, tt)))

-- A file as it was allocated, one page longer than what is written.
abbrev pub allocated : List ℕ
allocated = zeros 20480

made : create_qf_for_key_count full_filter 3 ≡ ok tt
unfolding create_qf_for_key_count
made = refl

lookup_async-export_as_sst_example :
    (t : Sst (List ℕ) (Unit {0})) × ((export_as_sst byte_file full_filter zeros no_hash
          (merge_write_buffer (zeros 4096) [] default_config)
          options
          versions
          (ok allocated)
        ≡ ok t)
      × ((key : Key)
          → lookup_async no_hash byte_file 120 key t
            ≡ value_found (or_empty (first_of key versions))))
lookup_async-export_as_sst_example =
    lookup_async-export_as_sst byte_file byte_file-laws full_filter full_filter-laws zeros
      length-zeros no_hash (zeros 4096) [] options versions allocated tt (length-zeros 4096) tt made
      versions-IsWritable 120 (omega arith) versions-IsSorted

abbrev empty_sst : Sst (List ℕ) (Unit {0})
empty_sst = record {
  file = [];
  meta_index = [];
  super_index = none;
  qf = none;
  footer = record {
    header = [];
    version = 0;
    upper_bound = 0;
    indexed_keys = 0;
    meta_index_entries = 0;
    index_offset = 0;
    meta_index_offset = 0;
    qf_offset = 0;
    qf_size = 0;
    footer_offset = 0;
    epoch = 0;
    max_seq_nr = 0;
  };
}

abbrev sst_or :
    Sst (List ℕ) (Unit {0}) → Expected (Sst (List ℕ) (Unit {0})) → Sst (List ℕ) (Unit {0})
sst_or t (ok t') = t'
sst_or t (err e) = t

abbrev exported_sst : Sst (List ℕ) (Unit {0})
exported_sst = sst_or empty_sst (
    export_as_sst byte_file full_filter zeros no_hash
      (merge_write_buffer (zeros 4096) [] default_config) options versions (ok allocated))

exported_sst-done :
    export_as_sst byte_file full_filter zeros no_hash
      (merge_write_buffer (zeros 4096) [] default_config)
      options
      versions
      (ok allocated)
    ≡ ok exported_sst
unfolding export_as_sst create_qf_for_key_count write_index write_entries write_entry try_item
    write_buffer_item push_item push push_as_restart_key varint_length key_eq key_compare
    push_as_delta_key compute_shared_prefix_length flush_remaining buffer_empty empty flush_index
    checksum_of commit offset_bytes force_commit reset_writer written_pages to_le encode_key_size
    write_key_unsafe export_rest slot_bits write_qf build footer_bytes append_meta_index_key
    flush_buffer write_index_infos ceil_page_align round_up bit_width unsafe_varint zeros
exported_sst-done = refl

exported_footer : SstFooter
exported_footer = record {
  header = 104 ∷ 101 ∷ 100 ∷ 103 ∷ 101 ∷ 95 ∷ 70 ∷ 79 ∷ 79 ∷ 84 ∷ 69 ∷ 82 ∷ 0 ∷ 0 ∷ 0 ∷ 0 ∷ [];
  version = 1;
  upper_bound = 65535;
  indexed_keys = 2;
  meta_index_entries = 1;
  index_offset = 0;
  meta_index_offset = 4096;
  qf_offset = 8192;
  qf_size = 4096;
  footer_offset = 12288;
  epoch = 1;
  max_seq_nr = 7;
}

exported_sst-footer : (exported_sst.footer ≡ exported_footer) × (length exported_sst.file ≡ 16384)
unfolding export_as_sst create_qf_for_key_count write_index write_entries write_entry try_item
    write_buffer_item push_item push push_as_restart_key varint_length key_eq key_compare
    push_as_delta_key compute_shared_prefix_length flush_remaining buffer_empty empty flush_index
    checksum_of commit offset_bytes force_commit reset_writer written_pages to_le encode_key_size
    write_key_unsafe export_rest slot_bits write_qf build footer_bytes append_meta_index_key
    flush_buffer write_index_infos ceil_page_align round_up bit_width unsafe_varint zeros
    exported_footer
exported_sst-footer = (refl, refl)

exported_footer-words : All (λ (w : ℕ). w < 2 ^ 64) (footer_fields exported_footer)
unfolding exported_footer
exported_footer-words = (
  omega arith,
  (
    omega arith,
    (
      omega arith,
      (
        omega arith,
        (
          omega arith,
          (omega arith, (omega arith, (omega arith, (omega arith, (omega arith, tt))))),
        ),
      ),
    ),
  ),
)

lookup_async-load_example :
    (t' : Sst (List ℕ) (Unit {0})) × ((load byte_file full_filter 120 (ok exported_sst.file)
        ≡ ok t')
      × (((t'.footer ≡ exported_sst.footer) × (t'.qf ≡ exported_sst.qf))
          × ((key : Key)
              → lookup_async no_hash byte_file 120 key t'
                ≡ value_found (or_empty (first_of key versions)))))
lookup_async-load_example =
    lookup_async-load byte_file byte_file-laws full_filter full_filter-laws zeros length-zeros
      no_hash (zeros 4096) [] options versions allocated tt (length-zeros 4096) tt made
      versions-IsWritable 120 (omega arith) versions-IsSorted exported_sst exported_sst-done
      (subst (λ (f : SstFooter). All (λ (w : ℕ). w < 2 ^ 64) (footer_fields f))
        (sym exported_sst-footer.0) exported_footer-words)
      (omega (arith, exported_sst-footer.1))

page_room : 10 ≤ default_config.block_size_in_bytes
page_room = omega arith

abbrev new_buffer : MergeWriteBuffer
new_buffer = merge_write_buffer (zeros 4096) (zeros 4096 ∷ []) default_config

abbrev some_view : FileView byte_file
some_view = record { laws = byte_file-laws; before = allocated }

write_index-Table_example :
    (s : IndexState (List ℕ) (Unit {0})) × ((write_index byte_file no_hash full_filter.insert
          new_buffer versions
          (some tt)
          empty_meta_index
          allocated
        ≡ ok s)
      × (Table byte_file some_view no_hash full_filter.insert default_config page_room
            (map entry_of (firsts versions))
            s
          × ((s.qf
                ≡ filter_of byte_file some_view no_hash full_filter.insert default_config page_room
                    empty_meta_index
                    (some tt)
                    (firsts versions))
              × (s.max_seq_nr ≡ max_seq 0 (firsts versions)))))
write_index-Table_example =
    write_index-Table byte_file some_view no_hash full_filter.insert default_config page_room
      (zeros 4096) (zeros 4096 ∷ []) versions (some tt) allocated (length-zeros 4096)
      (length-zeros 4096, tt) refl versions-fit

abbrev some_keys : List Key
some_keys = (1 ∷ []) ∷ (2 ∷ []) ∷ (2 ∷ 1 ∷ []) ∷ (4 ∷ []) ∷ (7 ∷ []) ∷ []

some_keys-Rising : Rising some_keys
unfolding key_lt key_compare
some_keys-Rising = (
  (refl, (refl, (refl, (refl, tt)))),
  ((refl, (refl, (refl, tt))), ((refl, (refl, tt)), ((refl, tt), (tt, tt)))),
)

find_page_id-create_super_index_example :
    find_page_id 2 some_keys (some (create_super_index 2 some_keys)) (3 ∷ [])
    ≡ find_page_id 2 some_keys none (3 ∷ [])
find_page_id-create_super_index_example =
    find_page_id-create_super_index 2 some_keys (3 ∷ []) (omega arith) some_keys-Rising
