-- ===== src/Sst/Load.antt =====
-- src/db/sst.cc: `sst::load`. Lengths are of 64 bits; `opened` is what opening the file gives.
use hedge_db.Base.{
  ℕ, zero, suc, ◌+◌, ◌-◌, ◌%◌, ◌^◌, List, [], ◌∷◌, length, take, drop, replicate, Bool, not, ltb,
  ◌==◌, if◌then◌else◌, Option, some, none,
}
use Prim.Native.String.{String}
use hedge_db.Base.Status.{Expected, ok, err, error, ◌>>=◌}
use hedge_db.Key.{Key, key_eq, read_key_unsafe, serialized_key_total_length}
use hedge_db.Utils.{ceil_page_align, round_up}
use hedge_db.Sst.File.{FileOps}
use hedge_db.Sst.Footer.{SstFooter, footer_of_bytes, magic, size_of_footer}
use hedge_db.Sst.Lookup.{Sst, page_size}
use hedge_db.Sst.PageId.{load_super_index}
use hedge_db.Sst.Export.{FilterOps}

-- `a - b` of two size_t.
abbrev pub minus64 : ℕ → ℕ → ℕ
minus64 a b = (a + 2 ^ 64 - b) % 2 ^ 64

abbrev pub exactly : String → ℕ → Option (List ℕ) → Expected (List ℕ)
exactly text n none = err (error text)
exactly text n (some bs) = if not (length bs == n) then err (error text) else ok bs

-- The loop over the bytes of the meta index.
unfoldable pub read_keys : ℕ → List ℕ → List Key
read_keys zero raw = []
read_keys (suc n) raw =
    let key = read_key_unsafe raw in key ∷ read_keys n (drop (serialized_key_total_length key) raw)

-- `strncmp` over the magic's twelve bytes, none of which is zero.
abbrev pub has_magic : SstFooter → Bool
has_magic footer = key_eq (take 12 footer.header) magic

module _ {F Q : Type 0} (ops : FileOps F) (filter : FilterOps Q) (keys_per_page : ℕ) where
  abbrev pub meta_size : SstFooter → ℕ
  meta_size footer =
      minus64 (if ltb 0 footer.qf_size then footer.qf_offset else footer.footer_offset)
        footer.meta_index_offset

  unfoldable pub load_meta_index : F → SstFooter → Expected (List Key)
  load_meta_index fd footer =
      if ltb 0 (meta_size footer)
      then (exactly "sst::load: failed to read meta-index from " (meta_size footer)
            (ops.read fd (meta_size footer) footer.meta_index_offset)
          >>= λ (raw : List ℕ). ok (read_keys footer.meta_index_entries raw))
      else ok (replicate footer.meta_index_entries [])

  unfoldable pub load_filter : F → SstFooter → Expected (Option Q)
  load_filter fd footer =
      let data_size = minus64 footer.qf_size page_size in
      let data_read_size = ceil_page_align data_size in
      if ltb 0 footer.qf_size
      then (exactly "sst::load: failed to read QF header from " page_size
            (ops.read fd page_size footer.qf_offset)
          >>= λ (header : List ℕ).
              exactly "sst::load: failed to read QF data from " data_read_size
                (ops.read fd data_read_size (footer.qf_offset + page_size))
              >>= λ (table : List ℕ).
                  filter.load header table data_size >>= λ (qf : Q). ok (some qf))
      else ok none

  unfoldable pub load_footer : F → Expected SstFooter
  load_footer fd =
      let footer_page_size = round_up size_of_footer page_size in
      exactly "sst::load: failed to read footer from " footer_page_size
        (ops.read fd footer_page_size (minus64 (ops.file_size fd) footer_page_size))
      >>= λ (bs : List ℕ).
          let footer = footer_of_bytes bs in
          if has_magic footer then ok footer else err (error "sst::load: invalid footer magic in ")

  unfoldable pub load : Expected F → Expected (Sst F Q)
  load opened = opened >>= λ (fd : F). load_footer fd >>= λ (footer : SstFooter).
      load_meta_index fd footer >>= λ (meta_index : List Key).
      load_filter fd footer >>= λ (qf : Option Q). ok (record {
        file = fd;
        meta_index = meta_index;
        super_index = load_super_index keys_per_page meta_index;
        qf = qf;
        footer = footer;
      })
