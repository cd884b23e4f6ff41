-- ===== src/Block/Writer.antt =====
-- src/db/block.h: `block_buffer_writer`. Its buffer is a sequence of pages: those in front of `_cur`,
-- the page that the encoder fills, and those behind it. The callback changes a state of the caller.
use hedge_db.Base.{ℕ, List, [], ◌∷◌, ◌++◌, Bool, true, false, ◌==◌, ◌&&◌}
use hedge_db.Base.Status.{Status, ok, err}
use hedge_db.Bytes.{contents}
use hedge_db.Key.{Key}
use hedge_db.Block.Encoder.{BlockEncoder, BlockConfig, block_encoder, reset, push, commit}

pub record BlockBufferWriter : Type 0 where
  pub filled : List (List ℕ)
  pub encoder : BlockEncoder
  pub unused : List (List ℕ)

-- The constructor, over the first page and the others.
abbrev pub block_buffer_writer : List ℕ → List (List ℕ) → BlockConfig → BlockBufferWriter
block_buffer_writer first others cfg = record {
  filled = [];
  encoder = block_encoder first cfg;
  unused = others;
}

abbrev pub is_empty : List (List ℕ) → Bool
is_empty [] = true
is_empty (p ∷ ps) = false

unfoldable pub empty : BlockBufferWriter → Bool
empty w = is_empty w.filled && (w.encoder.kvs_count == 0)

-- The buffer's pages as they are.
abbrev pub memory : BlockBufferWriter → List (List ℕ)
memory w = w.filled ++ contents w.encoder.region ∷ w.unused

abbrev pub reset_to : List (List ℕ) → BlockBufferWriter → BlockBufferWriter
reset_to [] w = w
reset_to (first ∷ others) w = record {
  filled = [];
  encoder = reset first w.encoder;
  unused = others;
}

unfoldable pub reset_writer : BlockBufferWriter → BlockBufferWriter
reset_writer w = reset_to (memory w) w

-- The pages from the buffer's begin to the end of the current block, `bytes_written` of them in bytes.
unfoldable pub written_pages : BlockBufferWriter → List (List ℕ)
written_pages w = w.filled ++ contents w.encoder.region ∷ []

module _ (xxh64 : List ℕ → ℕ → ℕ) where
  unfoldable pub force_commit : BlockBufferWriter → BlockBufferWriter
  force_commit w = record w { encoder = commit xxh64 w.encoder }

  module _ {ℓ} {S : Type ℓ} (on_end_of_block : Key → S → S) where
    -- Behind a push that fails: the next page, where there is one.
    abbrev pub next_page :
        Key
        → List ℕ
        → BlockBufferWriter
        → S
        → BlockEncoder
        → Status
        → List (List ℕ)
        → BlockBufferWriter × S × Status
    next_page key value w s e failed [] =
        (record w { encoder = e }, on_end_of_block e.last_key s, failed)
    next_page key value w s e failed (page ∷ pages) =
        let r = push xxh64 key value (reset page e) in
        (
          record { filled = w.filled ++ contents e.region ∷ []; encoder = r.0; unused = pages },
          on_end_of_block e.last_key s,
          r.1,
        )

    abbrev pub after_push :
        Key
        → List ℕ
        → BlockBufferWriter
        → S
        → BlockEncoder × Status
        → BlockBufferWriter × S × Status
    after_push key value w s (e, ok u) = (record w { encoder = e }, s, ok u)
    after_push key value w s (e, err x) = next_page key value w s e (err x) w.unused

    unfoldable pub push_item : Key → List ℕ → BlockBufferWriter → S → BlockBufferWriter × S × Status
    push_item key value w s = after_push key value w s (push xxh64 key value w.encoder)
