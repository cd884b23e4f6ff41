-- ===== src/Block/Reader.antt =====
-- src/db/block.h: `block_buffer_reader`. The bytes `[_next, _end)` are a sequence of pages; a buffer has
-- at least one page.
use hedge_db.Base.{ℕ, zero, suc, List, [], ◌∷◌, Bool, not, if◌then◌else◌, ◌&&◌}
use hedge_db.Base.Status.{Status, ok, err}
use hedge_db.Block.Sequence.{Entry}
use hedge_db.Block.Iterator.{BlockIterator, read_next, at_block_end}
use hedge_db.Block.Decoder.{BlockDecoder, block_decoder, sanity_check, begin}
use hedge_db.Block.Writer.{is_empty}

pub record BlockBufferReader : Type 0 where
  pub next_pages : List (List ℕ)
  pub decoder : BlockDecoder
  pub it : BlockIterator
  pub skip_checksum : Bool

-- `operator==` with the sentinel.
unfoldable pub at_buffer_end : BlockBufferReader → Bool
at_buffer_end r = is_empty r.next_pages && at_block_end r.it

module _ (xxh64 : List ℕ → ℕ → ℕ) where
  -- The check of the block that the decoder stands on, where it is asked for.
  abbrev pub checked : BlockBufferReader → Status
  checked r = if r.skip_checksum then ok tt else sanity_check xxh64 r.decoder

  -- `reset`, over the first page and the others.
  unfoldable pub reset_reader :
      List ℕ → List (List ℕ) → BlockBufferReader → BlockBufferReader × Status
  reset_reader first others r =
      let d = block_decoder first r.decoder.cfg in
      let r' = record r { next_pages = others; decoder = d; it = begin d } in (r', checked r')

  abbrev pub begin_block : BlockBufferReader → Status → BlockBufferReader × Status
  begin_block r (err e) = (r, err e)
  begin_block r (ok u) = (record r { it = begin r.decoder }, ok tt)

  abbrev pub next_block : BlockBufferReader → List (List ℕ) → BlockBufferReader × Status
  next_block r [] = (r, ok tt)
  next_block r (p ∷ ps) =
      let r' = record r { next_pages = ps; decoder = block_decoder p r.decoder.cfg } in
      begin_block r' (checked r')

  unfoldable pub next_entry : BlockBufferReader → BlockBufferReader × Status
  next_entry r =
      let r' = record r { it = read_next r.it } in
      if not (at_block_end r'.it) then (r', ok tt) else next_block r' r'.next_pages

  -- The entries that the reader meets up to the sentinel, or to an error.
  unfoldable pub read_buffer : ℕ → BlockBufferReader → List Entry
  read_buffer zero r = []
  read_buffer (suc fuel) r =
      let rest = read_rest (read_buffer fuel) (next_entry r) in
      if at_buffer_end r then [] else (r.it.key, r.it.value) ∷ rest
    where
      read_rest : (BlockBufferReader → List Entry) → BlockBufferReader × Status → List Entry
      read_rest again (r', err e) = []
      read_rest again (r', ok u) = again r'
