-- ===== src/Block/Trailer.antt =====
-- src/db/block.cc: the restart offsets that `block_decoder::find` reads from a committed block.
use hedge_db.Base.{
  ℕ, ◌+◌, ◌*◌, ◌-◌, ◌%◌, ◌^◌, ◌≤◌, ◌<◌, ◌≡◌, refl, sym, ◌∙◌, ap, ap₂, List, [], ◌∷◌, ◌++◌, Bool,
  true, false, length, take, drop, append_assoc, arith, All, length-append, take-append,
  drop-append, take-drop-append, if◌then◌else◌,
}
use hedge_db.Bytes.{contents, to_le, of_le, length-to_le, of_le-to_le}
use hedge_db.Key.{Key}
use hedge_db.Block.Encoder.{BlockEncoder, commit, offset_bytes}
use hedge_db.Block.Decoder.{block_decoder, read_offsets, restart_offsets}
use hedge_db.Block.Sequence.{Entry, restarts, is_restart, entry_bytes}
use hedge_db.Block.Space.{HasRoom}
use hedge_db.Block.Commit.{front, sum, contents-commit, length-front, length-offset_bytes}

abbrev pub IsOffset : ℕ → Type 0
IsOffset o = o < 2 ^ 16

offsets-with :
    (b : Bool) (o : ℕ) (os : List ℕ)
    → IsOffset o
    → All IsOffset os
    → All IsOffset (if b then o ∷ os else os)
offsets-with true o os h hs = (h, hs)
offsets-with false o os h hs = hs

pub restarts-IsOffset :
    (g idx pos : ℕ) (prev : Key) (kvs : List Entry) → All IsOffset (restarts g idx pos prev kvs)
restarts-IsOffset g idx pos prev [] = tt
restarts-IsOffset g idx pos prev ((k, v) ∷ kvs) =
    offsets-with (is_restart g idx) (pos % 2 ^ 16)
      (restarts g (idx + 1) (pos + length (entry_bytes g idx prev (k, v))) k kvs) (omega arith)
      (restarts-IsOffset g (idx + 1) (pos + length (entry_bytes g idx prev (k, v))) k kvs)

-- The offsets are read as they were stored.
read_offsets-offset_bytes :
    (os rest : List ℕ) → All IsOffset os → read_offsets (length os) (offset_bytes os ++ rest) ≡ os
unfolding read_offsets offset_bytes
read_offsets-offset_bytes [] rest h = refl
read_offsets-offset_bytes (o ∷ os) rest (h, hs) =
    let tail = offset_bytes os ++ rest in
    let split : (to_le 2 o ++ offset_bytes os) ++ rest ≡ to_le 2 o ++ tail =
      append_assoc (to_le 2 o) (offset_bytes os) rest in
    ap₂ (λ (x : ℕ) (xs : List ℕ). x ∷ xs)
      (ap (λ (bs : List ℕ). of_le (take 2 bs)) split
        ∙ ap of_le (take-append 2 (to_le 2 o) tail (sym (length-to_le 2 o)))
        ∙ of_le-to_le 2 o (omega (arith, h)))
      (ap (λ (bs : List ℕ). read_offsets (length os) (drop 2 bs)) split
        ∙ ap (read_offsets (length os)) (drop-append 2 (to_le 2 o) tail (sym (length-to_le 2 o)))
        ∙ read_offsets-offset_bytes os rest hs)

module _ (xxh64 : List ℕ → ℕ → ℕ) (e : BlockEncoder) (o : HasRoom e) where
  abbrev page : List ℕ
  page = contents (commit xxh64 e).region

  abbrev n : ℕ
  n = length e.offsets

  abbrev footer_bytes : List ℕ
  footer_bytes =
      (to_le 2 (e.kvs_count % 2 ^ 16) ++ to_le 2 e.footer.block_type) ++ to_le 4 (sum xxh64 e o)

  page-offsets : page ≡ front e ++ (offset_bytes e.offsets ++ (to_le 2 n ++ footer_bytes))
  page-offsets = contents-commit xxh64 e o ∙ simp append_assoc

  restart_count :
      e.cfg.block_size_in_bytes ≤ 2 ^ 16
      → of_le (take 2 (drop (e.cfg.block_size_in_bytes - 8 - 2) page)) ≡ n
  restart_count small =
      let before = front e ++ offset_bytes e.offsets in
      let size = length-front xxh64 e o in
      ap (λ (bs : List ℕ). of_le (take 2 (drop (e.cfg.block_size_in_bytes - 8 - 2) bs)))
        (page-offsets
          ∙ sym (append_assoc (front e) (offset_bytes e.offsets) (to_le 2 n ++ footer_bytes)))
      ∙ ap of_le (
          take-drop-append (e.cfg.block_size_in_bytes - 8 - 2) 2 before (to_le 2 n) footer_bytes
            (omega (
              arith,
              size,
              length-append (front e) (offset_bytes e.offsets),
              length-offset_bytes e.offsets,
            ))
            (sym (length-to_le 2 n)))
      ∙ of_le-to_le 2 n (omega (arith, size, small))

  -- The decoder reads the offsets that the encoder collected.
  pub restart_offsets-commit :
      All IsOffset e.offsets
      → e.cfg.block_size_in_bytes ≤ 2 ^ 16
      → restart_offsets (block_decoder page e.cfg) ≡ e.offsets
  unfolding restart_offsets block_decoder
  restart_offsets-commit offs small =
      let at = e.cfg.block_size_in_bytes - 8 - 2 in
      let rest = to_le 2 n ++ footer_bytes in
      ap (λ (m : ℕ). read_offsets m (drop (at - m * 2) page)) (restart_count small)
      ∙ ap (λ (bs : List ℕ). read_offsets n (drop (at - n * 2) bs)) page-offsets
      ∙ ap (read_offsets n) (
          drop-append (at - n * 2) (front e) (offset_bytes e.offsets ++ rest)
            (omega (arith, length-front xxh64 e o)))
      ∙ read_offsets-offset_bytes e.offsets rest offs
