-- ===== src/Tests/BlockExamples.antt =====
-- src/db/block.cc at concrete inputs.
use hedge_db.Base.{
  All, ℕ, ◌≡◌, ◌++◌, false, refl, List, [], ◌∷◌, arith, Option, some, none, length, replicate,
  length-replicate,
}
use hedge_db.Base.Status.{ok}
use hedge_db.Bytes.{contents}
use hedge_db.Varint.{varint_length, bit_width}
use hedge_db.Block.Encoder.{
  BlockConfig, BlockEncoder, block_encoder, commit, push, push_as_restart_key, push_as_delta_key,
  compute_shared_prefix_length,
}
use hedge_db.Block.Decoder.{block_decoder, sanity_check, begin, find}
use hedge_db.Block.Iterator.{read_entries}
use hedge_db.Block.Sequence.{Entry, IsStorable}
use hedge_db.Block.Space.{IsOpen, block_encoder-IsOpen}
use hedge_db.Block.Push.{push_all, push-Outcome, Outcome}
use hedge_db.Block.RoundTrip.{read_entries-push_all}
use hedge_db.Block.Writing.{Stored}
use hedge_db.Block.Reader.{BlockBufferReader, reset_reader, read_buffer}
use hedge_db.Block.ReadAll.{read_buffer-reset_reader}
use hedge_db.Key.{key_lt, key_compare}
use hedge_db.Block.Search.{lookup}
use hedge_db.Block.Find.{Ascending}
use hedge_db.Block.FindRoundTrip.{find-push_all}
use hedge_db.Tests.WalExamples.{no_hash}

abbrev small_config : BlockConfig
small_config = record { block_size_in_bytes = 64; restart_group_size = 4 }

abbrev some_entries : List Entry
some_entries = (1 ∷ 2 ∷ [], 1 ∷ 5 ∷ []) ∷ (1 ∷ 3 ∷ [], 2 ∷ []) ∷ []

whole_buffer : length {A = ℕ} (replicate 64 0) ≡ 64
whole_buffer = length-replicate {A = ℕ} 64 0

abbrev new_encoder : BlockEncoder
new_encoder = block_encoder (replicate 64 0) small_config

new_encoder-IsOpen : IsOpen new_encoder
new_encoder-IsOpen = block_encoder-IsOpen (replicate 64 0) small_config whole_buffer (omega arith)

abbrev encoder_or : BlockEncoder → Option BlockEncoder → BlockEncoder
encoder_or e none = e
encoder_or e (some e') = e'

abbrev filled : BlockEncoder
filled = encoder_or new_encoder (push_all no_hash some_entries new_encoder)

filled-pushed : push_all no_hash some_entries new_encoder ≡ some filled
unfolding push_all push push_as_restart_key push_as_delta_key compute_shared_prefix_length
    varint_length bit_width
filled-pushed = refl

read_entries-push_all_example :
    (sanity_check no_hash (block_decoder (contents (commit no_hash filled).region) small_config)
      ≡ ok tt)
    × (read_entries 3 (begin (block_decoder (contents (commit no_hash filled).region) small_config))
        ≡ some_entries)
read_entries-push_all_example =
    read_entries-push_all no_hash (replicate 64 0) small_config some_entries filled whole_buffer
      (omega arith) (omega arith)
      ((omega arith, omega arith, omega arith), ((omega arith, omega arith, omega arith), tt))
      filled-pushed

push-Outcome_example : Outcome no_hash (1 ∷ 2 ∷ []) (1 ∷ 5 ∷ []) new_encoder
push-Outcome_example = push-Outcome no_hash (1 ∷ 2 ∷ []) (1 ∷ 5 ∷ []) new_encoder new_encoder-IsOpen

some_entries-Ascending : Ascending some_entries
unfolding key_lt key_compare
some_entries-Ascending = ((refl, tt), (tt, tt))

find-push_all_example :
    find (1 ∷ 3 ∷ []) (block_decoder (contents (commit no_hash filled).region) small_config)
    ≡ lookup (1 ∷ 3 ∷ []) some_entries
find-push_all_example =
    find-push_all no_hash (replicate 64 0) small_config 2 some_entries filled whole_buffer
      (omega arith) (omega arith) (omega arith)
      ((omega arith, omega arith, omega arith), ((omega arith, omega arith, omega arith), tt))
      some_entries-Ascending filled-pushed (1 ∷ 3 ∷ [])

abbrev some_page : List ℕ
some_page = contents (commit no_hash filled).region

some_page-Stored : Stored no_hash small_config some_page some_entries
some_page-Stored = record {
  encoder = filled;
  filling = record { base = replicate 64 0; whole = whole_buffer; pushed = filled-pushed };
  committed = refl;
  some_entry = omega arith;
}

abbrev new_reader : BlockBufferReader
new_reader = record {
  next_pages = [];
  decoder = block_decoder [] small_config;
  it = begin (block_decoder [] small_config);
  skip_checksum = false;
}

some_entries-IsStorable : All IsStorable some_entries
some_entries-IsStorable =
    ((omega arith, omega arith, omega arith), ((omega arith, omega arith, omega arith), tt))

read_buffer-reset_reader_example :
    ((reset_reader no_hash some_page (some_page ∷ []) new_reader).1 ≡ ok tt)
    × (read_buffer no_hash 9 (reset_reader no_hash some_page (some_page ∷ []) new_reader).0
        ≡ some_entries ++ some_entries)
unfolding block_decoder
read_buffer-reset_reader_example =
    read_buffer-reset_reader no_hash small_config (omega arith) (omega arith) some_page
      (some_page ∷ []) some_entries (some_entries ∷ []) new_reader 9 refl
      (some_page-Stored, (some_page-Stored, tt))
      (some_entries-IsStorable, (some_entries-IsStorable, tt)) (omega arith)
