-- ===== src/Block/RoundTrip.antt =====
-- src/db/block.cc: a block that the encoder fills and commits, read by the decoder.
use hedge_db.Base.{
  ℕ, ◌+◌, ◌*◌, ◌-◌, ◌%◌, ◌^◌, ◌≤◌, ◌≡◌, refl, sym, ◌∙◌, ap, ==_iff, List, [], ◌++◌, length, take,
  drop, append_assoc, append-nil, arith, All, length-append, take-append_more, take-drop-append,
  some,
}
use mathlib.Core.Path.{subst}
use hedge_db.Base.Status.{ok}
use hedge_db.Bytes.{contents, to_le, of_le, length-to_le, of_le-to_le}
use hedge_db.Block.Encoder.{
  BlockEncoder, BlockConfig, commit, offset_bytes, checksum_of, block_encoder,
}
use hedge_db.Block.Decoder.{block_decoder, read_footer, sanity_check, begin}
use hedge_db.Block.Iterator.{block_iterator, read_entries}
use hedge_db.Block.Sequence.{Entry, IsStorable, all_bytes, read_entries-all_bytes}
use hedge_db.Block.Space.{IsOpen, IsOpen→HasRoom, block_encoder-IsOpen}
use hedge_db.Block.Push.{push_all, push_all-Run}
use hedge_db.Block.Commit.{
  front, trailer, sum, contents-commit, sum-lt, checksum_of-more, length-front, length-trailer,
  length-offset_bytes,
}

module _ (xxh64 : List ℕ → ℕ → ℕ) (e : BlockEncoder) (o : IsOpen e) where
  abbrev pub page : List ℕ
  page = contents (commit xxh64 e).region

  abbrev count_bytes : List ℕ
  count_bytes = to_le 2 (e.kvs_count % 2 ^ 16)

  length-front-trailer : length (front e ++ trailer e) + 4 ≡ e.cfg.block_size_in_bytes
  length-front-trailer = omega (
    arith,
    length-append (front e) (trailer e),
    length-front xxh64 e (IsOpen→HasRoom e o),
    length-trailer xxh64 e (IsOpen→HasRoom e o),
  )

  checksum-page :
      of_le (take 4 (drop (e.cfg.block_size_in_bytes - 8 + 4) page))
      ≡ sum xxh64 e (IsOpen→HasRoom e o)
  checksum-page =
      ap (λ (bs : List ℕ). of_le (take 4 (drop (e.cfg.block_size_in_bytes - 8 + 4) bs)))
        (contents-commit xxh64 e (IsOpen→HasRoom e o)
          ∙ ap (λ (bs : List ℕ). (front e ++ trailer e) ++ bs) (sym (append-nil _)))
      ∙ ap of_le (
          take-drop-append (e.cfg.block_size_in_bytes - 8 + 4) 4 (front e ++ trailer e)
            (to_le 4 (sum xxh64 e (IsOpen→HasRoom e o))) []
            (omega (arith, length-front-trailer, length-front xxh64 e (IsOpen→HasRoom e o)))
            (sym (length-to_le 4 (sum xxh64 e (IsOpen→HasRoom e o)))))
      ∙ of_le-to_le 4 (sum xxh64 e (IsOpen→HasRoom e o)) (sum-lt xxh64 e (IsOpen→HasRoom e o))

  -- The count that the decoder reads is the number of entries, in the sixteen bits that hold it.
  count-page : of_le (take 2 (drop (e.cfg.block_size_in_bytes - 8) page)) ≡ e.kvs_count % 2 ^ 16
  count-page =
      ap (λ (bs : List ℕ). of_le (take 2 (drop (e.cfg.block_size_in_bytes - 8) bs)))
        (contents-commit xxh64 e (IsOpen→HasRoom e o) ∙ regroup)
      ∙ ap of_le (
          take-drop-append (e.cfg.block_size_in_bytes - 8) 2 before count_bytes behind
            (omega (arith, length-before, length-front xxh64 e (IsOpen→HasRoom e o)))
            (sym (length-to_le 2 (e.kvs_count % 2 ^ 16))))
      ∙ of_le-to_le 2 (e.kvs_count % 2 ^ 16) (omega arith)
    where
      before : List ℕ
      before = front e ++ (offset_bytes e.offsets ++ to_le 2 (length e.offsets))

      behind : List ℕ
      behind = to_le 2 e.footer.block_type ++ to_le 4 (sum xxh64 e (IsOpen→HasRoom e o))

      regroup :
          (front e ++ trailer e) ++ to_le 4 (sum xxh64 e (IsOpen→HasRoom e o))
          ≡ before ++ (count_bytes ++ behind)
      regroup = simp append_assoc

      length-before : length before ≡ length (front e) + 2 * length e.offsets + 2
      length-before = omega (
        arith,
        length-append (front e) (offset_bytes e.offsets ++ to_le 2 (length e.offsets)),
        length-append (offset_bytes e.offsets) (to_le 2 (length e.offsets)),
        length-offset_bytes e.offsets,
        length-to_le 2 (length e.offsets),
      )

  sum-page :
      checksum_of xxh64 page (e.cfg.block_size_in_bytes - 4) ≡ sum xxh64 e (IsOpen→HasRoom e o)
  sum-page =
      ap (λ (bs : List ℕ). checksum_of xxh64 bs (e.cfg.block_size_in_bytes - 4))
        (contents-commit xxh64 e (IsOpen→HasRoom e o))
      ∙ checksum_of-more xxh64 e (IsOpen→HasRoom e o) (to_le 4 (sum xxh64 e (IsOpen→HasRoom e o)))

  pub sanity_check-commit : sanity_check xxh64 (block_decoder page e.cfg) ≡ ok tt
  unfolding sanity_check block_decoder read_footer
  sanity_check-commit =
      rw
        (
          sum-page,
          checksum-page,
          (==_iff (sum xxh64 e (IsOpen→HasRoom e o)) (sum xxh64 e (IsOpen→HasRoom e o))).1 refl,
        )
        refl

  pub count-decoder : (block_decoder page e.cfg).footer.kv_count ≡ e.kvs_count % 2 ^ 16
  unfolding block_decoder read_footer
  count-decoder = count-page

  -- What stands behind the entries.
  abbrev pub behind_entries : List ℕ
  behind_entries =
      take (e.cfg.block_size_in_bytes - length e.offsets * 2 - 2 - 8 - length e.region.done)
        e.region.free
      ++ (trailer e ++ to_le 4 (sum xxh64 e (IsOpen→HasRoom e o)))

  pub page-entries : page ≡ e.region.done ++ behind_entries
  page-entries =
      contents-commit xxh64 e (IsOpen→HasRoom e o)
      ∙ ap (λ (bs : List ℕ). (bs ++ trailer e) ++ to_le 4 (sum xxh64 e (IsOpen→HasRoom e o)))
          (take-append_more _ e.region.done e.region.free (omega (arith, o.account, o.fits)))
      ∙ simp append_assoc

  -- The iterator over a page whose entries stand at its start.
  read_entries-commit :
      (kvs : List Entry)
      → All IsStorable kvs
      → e.kvs_count ≡ length kvs
      → e.region.done ≡ all_bytes e.cfg.restart_group_size 0 [] kvs
      → e.cfg.block_size_in_bytes ≤ 2 ^ 16
      → read_entries (length kvs + 1) (begin (block_decoder page e.cfg)) ≡ kvs
  unfolding begin block_decoder block_iterator
  read_entries-commit kvs storable count done small =
      read_entries-all_bytes kvs (length kvs + 1) behind_entries _ storable (page-entries ∙ rw done)
        (count-decoder ∙ omega (arith, o.counted, o.account, o.fits)) (omega arith)

module _ (xxh64 : List ℕ → ℕ → ℕ) (base : List ℕ) (cfg : BlockConfig) (kvs : List Entry)
    (e : BlockEncoder) where
  -- The entries pushed into a new block that is committed are those that the decoder's iterator
  -- meets, and the decoder accepts the block, for a block of at most 65536 bytes over a buffer of its
  -- size, if every push succeeds, the keys are not longer than 255 bytes and the values are shorter
  -- than 2^35.
  pub read_entries-push_all :
      length base ≡ cfg.block_size_in_bytes
      → 10 ≤ cfg.block_size_in_bytes
      → cfg.block_size_in_bytes ≤ 2 ^ 16
      → All IsStorable kvs
      → push_all xxh64 kvs (block_encoder base cfg) ≡ some e
      → let d = block_decoder (contents (commit xxh64 e).region) cfg in
        (sanity_check xxh64 d ≡ ok tt) × (read_entries (length kvs + 1) (begin d) ≡ kvs)
  read_entries-push_all whole room small storable pushed =
      let r =
        push_all-Run xxh64 kvs (block_encoder base cfg) (block_encoder-IsOpen base cfg whole room)
          pushed in
      subst
        (λ (c : BlockConfig).
          let d = block_decoder (contents (commit xxh64 e).region) c in
          (sanity_check xxh64 d ≡ ok tt) × (read_entries (length kvs + 1) (begin d) ≡ kvs))
        r.cfg
        (
          sanity_check-commit xxh64 e r.opened,
          read_entries-commit xxh64 e r.opened kvs storable (omega (arith, r.kvs_count))
              (rw r.cfg r.done) (rw r.cfg small),
        )
