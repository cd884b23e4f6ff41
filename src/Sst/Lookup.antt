-- ===== src/Sst/Lookup.antt =====
-- src/db/sst.cc: `lookup_async` with `_load_page_async`, `_find_in_page` and `probe_filter`. The
-- formatted parts of messages are left out.
use hedge_db.Base.{
  ℕ, ◌+◌, ◌*◌, List, [], ◌∷◌, length, Bool, false, not, ◌==◌, if◌then◌else◌, Option, some, none,
}
use hedge_db.Base.Status.{Status, Expected, ok, err, error, error_code, key_not_found, ◌>>=◌}
use hedge_db.Key.{Key}
use hedge_db.Value.{Value, value_from_span}
use hedge_db.Block.Encoder.{default_config}
use hedge_db.Block.Decoder.{block_decoder, sanity_check, find}
use hedge_db.Sst.File.{FileOps}
use hedge_db.Sst.PageId.{find_page_id}
use hedge_db.Sst.Footer.{SstFooter}

abbrev pub page_size : ℕ
page_size = 4096

pub record Sst (F Q : Type 0) : Type 0 where
  pub file : F
  pub meta_index : List Key
  pub super_index : Option (List Key)
  pub qf : Option Q
  pub footer : SstFooter

-- What the filter says, where there is one.
abbrev pub probe : {Q : Type 0} → (Q → ℕ → Bool) → Option Q → ℕ → Bool
probe may_contain none key_hash = false
probe may_contain (some q) key_hash = may_contain q key_hash

unfoldable pub probe_filter : {F Q : Type 0} → (Q → ℕ → Bool) → Sst F Q → ℕ → Bool
probe_filter may_contain s key_hash = probe may_contain s.qf key_hash

-- An empty span is what `find` gives for a key that is not there.
abbrev pub value_found : List ℕ → Expected Value
value_found [] = err (error_code key_not_found)
value_found (b ∷ bs) = value_from_span (b ∷ bs)

abbrev pub loaded : Option (List ℕ) → Expected (List ℕ)
loaded none = err (error "An error occurred while reading page at offset ")
loaded (some page) =
    if not (length page == page_size)
    then err (error "Read {} bytes instead of {} from file ")
    else ok page

-- The page that a buffer holds when the read has ended.
unfoldable pub load_page : {F Q : Type 0} → FileOps F → ℕ → Sst F Q → Expected (List ℕ)
load_page ops offset s = loaded (ops.read s.file page_size offset)

module _ (xxh64 : List ℕ → ℕ → ℕ) where
  abbrev pub find_checked : Status → List ℕ → Expected Value
  find_checked (err e) value = err (error "checksum mismatch for key ")
  find_checked (ok u) value = value_found value

  unfoldable pub find_in_page : Key → List ℕ → Expected Value
  find_in_page key page =
      let reader = block_decoder page default_config in
      find_checked (sanity_check xxh64 reader) (find key reader)

  module _ {F Q : Type 0} (ops : FileOps F) (keys_per_page : ℕ) where
    abbrev pub lookup_in : Key → Sst F Q → Option ℕ → Expected Value
    lookup_in key s none = err (error_code key_not_found)
    lookup_in key s (some page_id) =
        load_page ops (s.footer.index_offset + page_id * page_size) s >>= find_in_page key

    unfoldable pub lookup_async : Key → Sst F Q → Expected Value
    lookup_async key s = lookup_in key s (find_page_id keys_per_page s.meta_index s.super_index key)
