-- ===== src/Block/FindRoundTrip.antt =====
-- src/db/block.cc: `block_decoder::find` in a block that the encoder filled and committed.
use hedge_db.Base.{
  ℕ, suc, ◌+◌, ◌*◌, ◌%◌, ◌^◌, ◌≤◌, ◌≡◌, refl, sym, ◌∙◌, ap, List, [], ◌∷◌, ◌++◌, length, drop,
  arith, All, Bool-cases, inl, inr, some,
}
use hedge_db.Base.Bits.{pow_pos}
use mathlib.Core.Path.{subst}
use hedge_db.Bytes.{contents}
use native.Mathlib.Nat.{mod-eq_of_lt}
use hedge_db.Key.{Key, key_lt}
use hedge_db.Block.Encoder.{BlockEncoder, BlockConfig, commit, block_encoder}
use hedge_db.Block.Decoder.{
  block_decoder, BlockDecoder, find, find_in_group, find_from, upper_bound, nth_offset, key_at,
  restart_offsets,
}
use hedge_db.Block.Iterator.{block_iterator}
use hedge_db.Block.Sequence.{Entry, IsStorable, all_bytes, restarts}
use hedge_db.Block.Space.{IsOpen, IsOpen→HasRoom, block_encoder-IsOpen}
use hedge_db.Block.Push.{push_all, push_all-Run}
use hedge_db.Block.RoundTrip.{behind_entries, page-entries, count-decoder}
use hedge_db.Block.Commit.{length-page}
use hedge_db.Block.Trailer.{IsOffset, restarts-IsOffset, restart_offsets-commit}
use hedge_db.Block.Search.{lookup}
use hedge_db.Block.Find.{Ascending, Avoids-above, join, IsGrouped, groups, lookup-left}
use hedge_db.Block.Lookup.{
  pick, offsets-split, key_at-first, found_at, found_from, upper_bound-first, upper_bound-later,
  offsets_behind,
}

module _ (w : ℕ) (key : Key) (d : BlockDecoder) (behind : List ℕ)
    (group_size : d.cfg.restart_group_size ≡ 2 ^ w) where
  abbrev count : ℕ
  count = d.footer.kv_count

  find_from-first :
      (offsets : List ℕ)
      → upper_bound d.base key offsets ≡ 0
      → find_from d key offsets (upper_bound d.base key offsets) ≡ []
  find_from-first offsets h = ap (find_from d key offsets) h

  find_from-later :
      (o : ℕ) (os : List ℕ)
      → upper_bound d.base key (o ∷ os) ≡ suc (upper_bound d.base key os)
      → find_from d key (o ∷ os) (upper_bound d.base key (o ∷ os))
        ≡ found_from w d.base key count behind 0 o os
  unfolding found_from found_at
  find_from-later o os h =
      let u = upper_bound d.base key os in
      let at = drop (nth_offset u (o ∷ os)) d.base in
      ap (find_from d key (o ∷ os)) h
      ∙ ap (λ (g' : ℕ). find_in_group (g' + 2) key (block_iterator at (u * g') count g')) group_size
      ∙ ap (λ (m : ℕ). find_in_group (2 ^ w + 2) key (block_iterator at (m * 2 ^ w) count (2 ^ w)))
          {x = u} {y = 0 + u} (omega arith)

  -- Among the offsets of its groups, a block finds what its entries have.
  find_from-lookup :
      (gs : List (List Entry))
      → IsGrouped (2 ^ w) gs
      → Ascending (join gs)
      → All IsStorable (join gs)
      → d.base ≡ all_bytes (2 ^ w) 0 [] (join gs) ++ behind
      → length d.base ≤ 2 ^ 16
      → count ≡ length (join gs)
      → let offsets = restarts (2 ^ w) 0 0 [] (join gs) in
        find_from d key offsets (upper_bound d.base key offsets) ≡ lookup key (join gs)
  unfolding upper_bound
  find_from-lookup [] grouped asc ok at size counted = refl
  find_from-lookup ([] ∷ gs) (empty, short, full, rest) asc ok at size counted =
      absurd (omega arith)
  find_from-lookup (((k, v) ∷ c) ∷ gs) grouped asc ok at size counted =
      let kvs = ((k, v) ∷ c) ++ join gs in
      let zero_start : 0 ≡ 0 * 2 ^ w = omega arith in
      let at' : drop 0 d.base ≡ all_bytes (2 ^ w) (0 * 2 ^ w) [] kvs ++ behind =
        at ∙ ap (λ (i : ℕ). all_bytes (2 ^ w) i [] kvs ++ behind) zero_start in
      let os = offsets_behind w d.base key count behind 0 0 [] ((k, v) ∷ c) gs in
      let split : restarts (2 ^ w) 0 0 [] kvs ≡ (0 % 2 ^ 16) ∷ os =
        ap (λ (i : ℕ). restarts (2 ^ w) i 0 [] kvs) zero_start
        ∙ offsets-split w d.base key count behind gs 0 0 [] k v c grouped in
      let first : key_at d.base (0 % 2 ^ 16) ≡ k =
        key_at-first w d.base key count behind 0 0 [] k v (c ++ join gs) ok.0 at' in
      subst
        (λ (offsets : List ℕ).
          find_from d key offsets (upper_bound d.base key offsets) ≡ lookup key kvs)
        (sym split)
        (elim (Bool-cases (key_lt key k)) [
          | inl below ↦
              find_from-first ((0 % 2 ^ 16) ∷ os)
                (upper_bound-first w d.base key count behind _ os k first below)
              ∙ sym (lookup-left key [] kvs (Avoids-above key k v (c ++ join gs) below asc))
          | inr above ↦
              find_from-later (0 % 2 ^ 16) os
                (upper_bound-later w d.base key count behind _ os k first above)
              ∙ pick w d.base key count behind gs 0 0 [] k v c grouped asc ok at' size
                  (omega (arith, counted)) above
        ])

  -- The same for any entries with rising keys.
  find-lookup :
      (kvs : List Entry)
      → Ascending kvs
      → All IsStorable kvs
      → d.base ≡ all_bytes (2 ^ w) 0 [] kvs ++ behind
      → length d.base ≤ 2 ^ 16
      → count ≡ length kvs
      → restart_offsets d ≡ restarts (2 ^ w) 0 0 [] kvs
      → find key d ≡ lookup key kvs
  unfolding find
  find-lookup kvs asc ok at size counted offsets =
      let (gs, (j, grouped)) = groups (length kvs) (2 ^ w) kvs (pow_pos w) (omega arith) in
      ap (λ (os : List ℕ). find_from d key os (upper_bound d.base key os)) offsets
      ∙ subst
          (λ (es : List Entry).
            let os = restarts (2 ^ w) 0 0 [] es in
            find_from d key os (upper_bound d.base key os) ≡ lookup key es)
          j
          (find_from-lookup gs grouped (subst Ascending (sym j) asc)
            (subst (All IsStorable) (sym j) ok)
            (at ∙ ap (λ (es : List Entry). all_bytes (2 ^ w) 0 [] es ++ behind) (sym j)) size
            (counted ∙ ap length (sym j)))

module _ (xxh64 : List ℕ → ℕ → ℕ) (e : BlockEncoder) (o : IsOpen e)
    (small : e.cfg.block_size_in_bytes ≤ 2 ^ 16) (w : ℕ) (kvs : List Entry)
    (group_size : e.cfg.restart_group_size ≡ 2 ^ w) where
  find-commit :
      All IsStorable kvs
      → Ascending kvs
      → e.region.done ≡ all_bytes (2 ^ w) 0 [] kvs
      → e.offsets ≡ restarts (2 ^ w) 0 0 [] kvs
      → e.kvs_count ≡ length kvs
      → (key : Key)
      → find key (block_decoder (contents (commit xxh64 e).region) e.cfg) ≡ lookup key kvs
  unfolding block_decoder
  find-commit storable asc done offsets counted key =
      find-lookup w key (block_decoder (contents (commit xxh64 e).region) e.cfg)
        (behind_entries xxh64 e o) group_size kvs asc storable
        (page-entries xxh64 e o ∙ ap (λ (bs : List ℕ). bs ++ behind_entries xxh64 e o) done)
        (omega (arith, length-page xxh64 e (IsOpen→HasRoom e o)))
        (count-decoder xxh64 e o
          ∙ mod-eq_of_lt (omega (arith, o.counted, o.account, o.fits))
          ∙ counted)
        (restart_offsets-commit xxh64 e (IsOpen→HasRoom e o)
            (subst (All IsOffset) (sym offsets) (restarts-IsOffset (2 ^ w) 0 0 [] kvs)) small
          ∙ offsets)

module _ (xxh64 : List ℕ → ℕ → ℕ) (base : List ℕ) (cfg : BlockConfig) (w : ℕ) (kvs : List Entry)
    (e : BlockEncoder) where
  -- In a block that was filled with entries of rising keys and committed, `find` gives the value of a
  -- key among them, and nothing for any other key; for blocks of 10 to 65536 bytes whose groups have a
  -- power of two of entries, over a buffer of the block's size, if every push succeeds, the keys are not
  -- longer than 255 bytes and the values are shorter than 2^35.
  pub find-push_all :
      length base ≡ cfg.block_size_in_bytes
      → 10 ≤ cfg.block_size_in_bytes
      → cfg.block_size_in_bytes ≤ 2 ^ 16
      → cfg.restart_group_size ≡ 2 ^ w
      → All IsStorable kvs
      → Ascending kvs
      → push_all xxh64 kvs (block_encoder base cfg) ≡ some e
      → (key : Key)
      → find key (block_decoder (contents (commit xxh64 e).region) cfg) ≡ lookup key kvs
  find-push_all whole room small group_size storable asc pushed key =
      let r =
        push_all-Run xxh64 kvs (block_encoder base cfg) (block_encoder-IsOpen base cfg whole room)
          pushed in
      subst
        (λ (c : BlockConfig).
          find key (block_decoder (contents (commit xxh64 e).region) c) ≡ lookup key kvs)
        r.cfg
        (find-commit xxh64 e r.opened
          (omega (arith, ap (λ (c : BlockConfig). c.block_size_in_bytes) r.cfg)) w kvs
          (ap (λ (c : BlockConfig). c.restart_group_size) r.cfg ∙ group_size) storable asc
          (r.done ∙ ap (λ (g' : ℕ). all_bytes g' 0 [] kvs) group_size)
          (r.offsets ∙ ap (λ (g' : ℕ). restarts g' 0 0 [] kvs) group_size)
          (omega (arith, r.kvs_count)) key)
