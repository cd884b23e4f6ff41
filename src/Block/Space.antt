-- ===== src/Block/Space.antt =====
-- src/db/block.cc: what `push` writes, and that a block keeps room for its trailer.
use hedge_db.Base.{
  ℕ, ◌+◌, ◌*◌, ◌-◌, ◌%◌, ◌^◌, ◌≤◌, ◌≡◌, refl, List, [], ◌∷◌, ◌++◌, length, drop, true, false,
  if◌then◌else◌, ltb, arith, ltb→le, length-append, length-drop,
}
use hedge_db.Key.{Key}
use hedge_db.Bytes.{store}
use hedge_db.Varint.{unsafe_varint, varint_length}
use hedge_db.Varint.Encode.{length-unsafe_varint}
use hedge_db.Block.Encoder.{
  BlockEncoder, BlockConfig, compute_shared_prefix_length, restart_entry, delta_entry,
  block_encoder, restart_space, delta_space, with_restart_key, with_delta_key, size_of_offset,
}
use hedge_db.Block.Sequence.{is_restart, entry_bytes}

-- The account of a block that is being filled: the bytes of the entries, two for each restart
-- offset and ten for the count and the footer are what `_bytes_written` says, and fit.
pub record IsOpen (e : BlockEncoder) : Type 0 where
  pub account : length e.region.done + 2 * length e.offsets + 10 ≡ e.bytes_written
  pub fits : e.bytes_written ≤ e.cfg.block_size_in_bytes
  pub whole : length e.region.done + length e.region.free ≡ e.cfg.block_size_in_bytes
  pub counted : e.kvs_count ≤ length e.region.done

-- What `commit` asks of a block: it is whole, and its trailer has room.
pub record HasRoom (e : BlockEncoder) : Type 0 where
  pub room : 2 * length e.offsets + 10 ≤ e.cfg.block_size_in_bytes
  pub whole : length e.region.done + length e.region.free ≡ e.cfg.block_size_in_bytes

pub IsOpen→HasRoom : (e : BlockEncoder) → IsOpen e → HasRoom e
IsOpen→HasRoom e o = omega arith

pub length-restart_entry :
    (key : Key) (value : List ℕ)
    → length (restart_entry key value)
      ≡ 1 + length key + varint_length (length value) + length value
length-restart_entry key value = omega (
  arith,
  length-append key (unsafe_varint (length value) ++ value),
  length-append (unsafe_varint (length value)) value,
  length-unsafe_varint (length value),
)

pub length-delta_entry :
    (n : ℕ) (key : Key) (value : List ℕ)
    → length (delta_entry n key value)
      ≡ 1 + 1 + (length key - n) + varint_length (length value) + length value
length-delta_entry n key value = omega (
  arith,
  length-append (drop n key) (unsafe_varint (length value) ++ value),
  length-append (unsafe_varint (length value)) value,
  length-unsafe_varint (length value),
  length-drop n key,
)

-- A new block over memory of its size is open, if the size leaves room for the trailer.
pub block_encoder-IsOpen :
    (base : List ℕ) (cfg : BlockConfig)
    → length base ≡ cfg.block_size_in_bytes
    → 10 ≤ cfg.block_size_in_bytes
    → IsOpen (block_encoder base cfg)
block_encoder-IsOpen base cfg whole room = omega arith

-- What a push that succeeds has done.
pub record Pushed (key : Key) (value : List ℕ) (e e' : BlockEncoder) : Type 0 where
  pub cfg : e'.cfg ≡ e.cfg
  pub region :
      e'.region
      ≡ store (entry_bytes e.cfg.restart_group_size e.kvs_count e.last_key (key, value)) e.region
  pub offsets : e'.offsets ≡ (
      if is_restart e.cfg.restart_group_size e.kvs_count
      then e.offsets ++ (length e.region.done % 2 ^ 16) ∷ []
      else e.offsets)
  pub kvs_count : e'.kvs_count ≡ e.kvs_count + 1
  pub last_key : e'.last_key ≡ key
  pub key_size : (1 ≤ length key) × (length key ≤ 256)
  pub opened : IsOpen e'

module _ (key : Key) (value : List ℕ) (e : BlockEncoder) (o : IsOpen e)
    (size : (1 ≤ length key) × (length key ≤ 256)) where
  pub restart-Pushed :
      is_restart e.cfg.restart_group_size e.kvs_count ≡ true
      → ltb e.cfg.block_size_in_bytes (e.bytes_written + restart_space key value + size_of_offset)
        ≡ false
      → Pushed key value e (with_restart_key key value e)
  restart-Pushed start room = record {
    cfg = refl;
    region = rw start refl;
    offsets = rw start refl;
    kvs_count = refl;
    last_key = refl;
    key_size = size;
    opened = record {
      account =
          omega
            (arith, o.account, done, length-append e.offsets (length e.region.done % 2 ^ 16 ∷ []));
      fits = omega (arith, ltb→le _ _ room);
      whole = omega (arith, o.account, o.whole, done, ltb→le _ _ room, free);
      counted = omega (arith, o.counted, done);
    };
  }
    where
      done :
          length (e.region.done ++ restart_entry key value)
          ≡ length e.region.done + restart_space key value
      done = omega (
        arith,
        length-append e.region.done (restart_entry key value),
        length-restart_entry key value,
      )

      free :
          length (drop (length (restart_entry key value)) e.region.free)
          ≡ length e.region.free - restart_space key value
      free = omega (
        arith,
        length-drop (length (restart_entry key value)) e.region.free,
        length-restart_entry key value,
      )

  pub delta-Pushed :
      is_restart e.cfg.restart_group_size e.kvs_count ≡ false
      → let shared = compute_shared_prefix_length e.last_key key in
        ltb e.cfg.block_size_in_bytes (e.bytes_written + delta_space shared key value) ≡ false
        → Pushed key value e (with_delta_key shared key value e)
  delta-Pushed inner room = record {
    cfg = refl;
    region = rw inner refl;
    offsets = rw inner refl;
    kvs_count = refl;
    last_key = refl;
    key_size = size;
    opened = record {
      account = omega (arith, o.account, done);
      fits = omega (arith, ltb→le _ _ room);
      whole = omega (arith, o.account, o.whole, done, ltb→le _ _ room, free);
      counted = omega (arith, o.counted, done);
    };
  }
    where
      n : ℕ
      n = compute_shared_prefix_length e.last_key key

      done :
          length (e.region.done ++ delta_entry n key value)
          ≡ length e.region.done + delta_space n key value
      done = omega (
        arith,
        length-append e.region.done (delta_entry n key value),
        length-delta_entry n key value,
      )

      free :
          length (drop (length (delta_entry n key value)) e.region.free)
          ≡ length e.region.free - delta_space n key value
      free = omega (
        arith,
        length-drop (length (delta_entry n key value)) e.region.free,
        length-delta_entry n key value,
      )
