-- ===== src/Block/ReadAll.antt =====
-- src/db/block.h: what `block_buffer_reader` reads of the pages that `block_buffer_writer` wrote.
use hedge_db.Base.{
  ℕ, zero, suc, ◌+◌, ◌≤◌, ◌^◌, ◌≡◌, ◌&&◌, refl, ap, Bool, true, false, List, [], ◌∷◌, ◌++◌, length,
  All, arith, if◌then◌else◌,
}
use mathlib.Core.Path.{subst}
use hedge_db.Base.Status.{Status, ok}
use hedge_db.Bytes.{contents}
use hedge_db.Block.Encoder.{BlockConfig, commit}
use hedge_db.Block.Sequence.{Entry, IsStorable}
use hedge_db.Block.Iterator.{BlockIterator, read_next, at_block_end, read_entries}
use hedge_db.Block.Decoder.{block_decoder, sanity_check, begin}
use hedge_db.Block.RoundTrip.{read_entries-push_all}
use hedge_db.Block.Writing.{Stored, StoredAll}
use hedge_db.Block.Writer.{is_empty}
use hedge_db.Block.Reader.{
  BlockBufferReader, checked, reset_reader, next_entry, next_block, at_buffer_end, read_buffer,
}

-- The entries of all pages.
abbrev pub entries_of : List (List Entry) → List Entry
entries_of [] = []
entries_of (s ∷ ss) = s ++ entries_of ss

-- An iterator that meets some entries and then the end of the block.
abbrev Meets : BlockIterator → List Entry → Type 0
Meets it es = read_entries (suc (length es)) it ≡ es

and_false : (b : Bool) → (b && false) ≡ false
and_false true = refl
and_false false = refl

ends : (b : Bool) (x : Entry) (rest : List Entry) → (if b then [] else x ∷ rest) ≡ [] → b ≡ true
ends true x rest h = refl
ends false x rest h = absurd (cc)

starts :
    (b : Bool) (x e : Entry) (rest es : List Entry)
    → (if b then [] else x ∷ rest) ≡ e ∷ es
    → (b ≡ false) × ((x ≡ e) × (rest ≡ es))
starts true x e rest es h = absurd (cc)
starts false x e rest es h = (refl, (cc, cc))

Meets-end : (it : BlockIterator) → Meets it [] → at_block_end it ≡ true
unfolding read_entries
Meets-end it h = ends (at_block_end it) (it.key, it.value) _ h

Meets-entry :
    (it : BlockIterator) (e : Entry) (es : List Entry)
    → Meets it (e ∷ es)
    → (at_block_end it ≡ false) × (((it.key, it.value) ≡ e) × Meets (read_next it) es)
unfolding read_entries
Meets-entry it e es h = starts (at_block_end it) (it.key, it.value) e _ es h

read_buffer-end :
    (xxh64 : List ℕ → ℕ → ℕ) (fuel : ℕ) (r : BlockBufferReader)
    → at_buffer_end r ≡ true
    → read_buffer xxh64 fuel r ≡ []
unfolding read_buffer
read_buffer-end xxh64 zero r h = refl
read_buffer-end xxh64 (suc fuel) r h = rw h refl

module _ (xxh64 : List ℕ → ℕ → ℕ) (cfg : BlockConfig) (room : 10 ≤ cfg.block_size_in_bytes)
    (small : cfg.block_size_in_bytes ≤ 2 ^ 16) where
  Stored-page :
      (page : List ℕ) (kvs : List Entry)
      → Stored xxh64 cfg page kvs
      → All IsStorable kvs
      → (sanity_check xxh64 (block_decoder page cfg) ≡ ok tt)
        × Meets (begin (block_decoder page cfg)) kvs
  Stored-page page kvs s storable =
      let (sane, met) =
        read_entries-push_all xxh64 s.filling.base cfg kvs s.encoder s.filling.whole room small
          storable s.filling.pushed in
      rw s.committed (
        sane,
        subst
            (λ n.
              read_entries n (begin (block_decoder (contents (commit xxh64 s.encoder).region) cfg))
              ≡ kvs)
            (let e : length kvs + 1 ≡ suc (length kvs) = omega arith in e) met,
      )

  -- A reader that stands on an entry of a block, with blocks of the buffer behind it.
  record Reads (e : Entry) (es : List Entry) (ss : List (List Entry)) (r : BlockBufferReader)
      : Type 0 where
    same_cfg : r.decoder.cfg ≡ cfg
    meets : Meets r.it (e ∷ es)
    pages : StoredAll xxh64 cfg r.next_pages ss
    storable : All (All IsStorable) ss

  no_pages : (ps : List (List ℕ)) → StoredAll xxh64 cfg ps [] → ps ≡ []
  no_pages [] h = refl
  no_pages (p ∷ ps) h = absurd h

  checked-ok :
      (r : BlockBufferReader) → sanity_check xxh64 r.decoder ≡ ok tt → checked xxh64 r ≡ ok tt
  checked-ok r sane = rw sane (same_branches r.skip_checksum (ok tt))
    where
      same_branches : (b : Bool) (x : Status) → (if b then x else x) ≡ x
      same_branches true x = refl
      same_branches false x = refl

  enter :
      (r : BlockBufferReader) (ps : List (List ℕ)) (s : List Entry) (ss : List (List Entry))
      → r.decoder.cfg ≡ cfg
      → StoredAll xxh64 cfg ps (s ∷ ss)
      → All (All IsStorable) (s ∷ ss)
      → (r' : BlockBufferReader) × ((e : Entry) × ((es : List Entry) × ((next_block xxh64 r ps
                ≡ (r', ok tt))
              × ((s ≡ e ∷ es) × Reads e es ss r'))))
  enter r [] s ss same h st = absurd h
  enter r (p ∷ ps) [] ss same (h, hs) st = absurd (omega (arith, h.some_entry))
  enter r (p ∷ ps) (e ∷ es) ss same (h, hs) (st, sts) =
      let (sane, met) = Stored-page p (e ∷ es) h st in
      let at_page : BlockBufferReader = record r {
        next_pages = ps;
        decoder = block_decoder p r.decoder.cfg;
      } in
      (
        record at_page { it = begin at_page.decoder },
        (
          e,
          (
            es,
            (
              rw (checked-ok at_page (rw same sane)) refl,
              (
                refl,
                record {
                  same_cfg = unfold block_decoder in same;
                  meets = rw same met;
                  pages = hs;
                  storable = sts;
                },
              ),
            ),
          ),
        ),
      )

  read_buffer-Reads :
      (fuel : ℕ) (e : Entry) (es : List Entry) (ss : List (List Entry)) (r : BlockBufferReader)
      → Reads e es ss r
      → length (e ∷ es ++ entries_of ss) ≤ fuel
      → read_buffer xxh64 fuel r ≡ e ∷ es ++ entries_of ss
  unfolding read_buffer at_buffer_end next_entry
  read_buffer-Reads zero e es ss r i h = absurd (omega (arith, h))
  read_buffer-Reads (suc fuel) e (e' ∷ es) ss r i h =
      let (more, (same, on)) = Meets-entry r.it e (e' ∷ es) i.meets in
      let (more', _) = Meets-entry (read_next r.it) e' es on in
      let rest =
        read_buffer-Reads fuel e' es ss (record r { it = read_next r.it })
          (record { same_cfg = i.same_cfg; meets = on; pages = i.pages; storable = i.storable })
          (omega (arith, h)) in
      rw (more', more, and_false (is_empty r.next_pages), same, rest) refl
  read_buffer-Reads (suc fuel) e [] [] r i h =
      let (more, (same, on)) = Meets-entry r.it e [] i.meets in
      let none_left = no_pages r.next_pages i.pages in
      rw (Meets-end (read_next r.it) on, more, and_false (is_empty r.next_pages), same, none_left)
        (ap (λ (es : List Entry). e ∷ es)
          (read_buffer-end xxh64 fuel _ (Meets-end (read_next r.it) on)))
  read_buffer-Reads (suc fuel) e [] (s ∷ ss) r i h =
      let (more, (same, on)) = Meets-entry r.it e [] i.meets in
      rw (Meets-end (read_next r.it) on, more, and_false (is_empty r.next_pages), same)
        (let (r', (e', (es', (entered, (is, reads))))) =
            enter (record r { it = read_next r.it }) r.next_pages s ss i.same_cfg i.pages
              i.storable in
          rw (entered, is)
            (ap (λ (es : List Entry). e ∷ es)
              (read_buffer-Reads fuel e' es' ss r' reads (
                subst (λ (t : List Entry). length (t ++ entries_of ss) ≤ fuel) is
                  (omega (arith, h))))))

  -- The reader over the pages that a writer left, each filled with at least one entry and committed,
  -- starts without an error and meets the entries of all pages in order and then the sentinel, whether
  -- it tests the checksums or not, for blocks of 10 to 65536 bytes, keys of 1 to 255 bytes and values
  -- shorter than 2^35.
  pub read_buffer-reset_reader :
      (first : List ℕ) (others : List (List ℕ)) (s : List Entry) (ss : List (List Entry))
      (r : BlockBufferReader) (fuel : ℕ)
      → r.decoder.cfg ≡ cfg
      → StoredAll xxh64 cfg (first ∷ others) (s ∷ ss)
      → All (All IsStorable) (s ∷ ss)
      → length (entries_of (s ∷ ss)) ≤ fuel
      → ((reset_reader xxh64 first others r).1 ≡ ok tt)
        × (read_buffer xxh64 fuel (reset_reader xxh64 first others r).0 ≡ entries_of (s ∷ ss))
  unfolding reset_reader
  read_buffer-reset_reader first others [] ss r fuel same (h, hs) st enough =
      absurd (omega (arith, h.some_entry))
  read_buffer-reset_reader first others (e ∷ es) ss r fuel same (h, hs) (st, sts) enough =
      let (sane, met) = Stored-page first (e ∷ es) h st in
      let d = block_decoder first r.decoder.cfg in
      let r' : BlockBufferReader = record r { next_pages = others; decoder = d; it = begin d } in
      (
        checked-ok r' (rw same sane),
        read_buffer-Reads fuel e es ss r'
            (record {
              same_cfg = unfold block_decoder in same;
              meets = rw same met;
              pages = hs;
              storable = sts;
            })
            enough,
      )
