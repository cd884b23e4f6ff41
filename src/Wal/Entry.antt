-- ===== src/Wal/Entry.antt =====
-- src/db/wal.cc: one entry of a log file, as `_write_entry` writes it and as the generator reads it.
-- The bytes of a file are a list, and `pos` is the rest of the buffer behind the reading position.
use hedge_db.Base.{
  ℕ, ◌-◌, ◌%◌, ◌^◌, List, [], ◌∷◌, ◌++◌, length, take, drop, not, ltb, ◌==◌, if◌then◌else◌, bit_and,
  Option, some, none,
}
use hedge_db.Base.Status.{Expected, Status, ok, err, error, ◌>>=◌}
use hedge_db.Bytes.{to_le, of_le}
use hedge_db.Key.{Key, encode_key_size, decode_key_size, max_key_len}
use Prim.Native.String.{String}

pub record WalEntry : Type 0 where
  pub seq_nr : ℕ
  pub key : Key
  pub value : List ℕ

abbrev pub hasher_seed : ℕ
hasher_seed = 0x9E3779B97F4A7C15

-- `read_from_buf`: `n` bytes and the rest, or nothing where the buffer is too short; then the
-- generator yields an error.
unfoldable pub read_from_buf : String → ℕ → List ℕ → Expected (List ℕ × List ℕ)
read_from_buf what n pos =
    if ltb (length pos) n then err (error what) else ok (take n pos, drop n pos)

abbrev pub head_byte : List ℕ → ℕ
head_byte [] = 0
head_byte (b ∷ bs) = b

abbrev pub write_status : ℕ → Option ℕ → Status
write_status expected_bytes none = err (error "could not write into wal: ")
write_status expected_bytes (some res) =
    if not (res == expected_bytes) then err (error "partial write into wal: ") else ok tt

-- XXH64, as `hasher64` computes it over all bytes of the updates since the last sum.
module _ (xxh64 : List ℕ → ℕ → ℕ) where
  unfoldable pub checksum : List ℕ → ℕ
  checksum bytes = bit_and (xxh64 bytes hasher_seed) (2 ^ 32 - 1) % 2 ^ 32

  -- The five parts of an entry that the checksum covers.
  unfoldable pub covered_bytes : WalEntry → List ℕ
  covered_bytes e =
      to_le 8 e.seq_nr
      ++ (to_le 1 (encode_key_size (length e.key))
          ++ (e.key ++ (to_le 2 (length e.value % 2 ^ 16) ++ e.value)))

  unfoldable pub entry_bytes : WalEntry → List ℕ
  entry_bytes e = covered_bytes e ++ to_le 4 (checksum (covered_bytes e))

  -- `_write_entry`. `pwritev2` gives the file's new bytes, and the number of bytes that it wrote or
  -- `none` for a negative result.
  unfoldable pub write_entry :
      (List ℕ → List ℕ → List ℕ × Option ℕ) → List ℕ → WalEntry → List ℕ × Status
  write_entry pwritev2 file e =
      let expected_bytes = length (entry_bytes e) in
      let res = pwritev2 file (entry_bytes e) in (res.0, write_status expected_bytes res.1)

  -- The last part of an entry: the checksum is compared with that of the bytes read.
  unfoldable pub read_checksum : WalEntry → List ℕ → List ℕ → Expected (WalEntry × List ℕ)
  read_checksum e covered pos =
      read_from_buf "incomplete WAL entry checksum in file " 4 pos >>= λ sum.
      if not (of_le sum.0 == checksum covered)
      then err (error "checksum mismatch for WAL entry with seq_nr ")
      else ok (e, sum.1)

  -- One turn of the generator's loop: an entry and the rest of the buffer, or the error.
  unfoldable pub read_entry : List ℕ → Expected (WalEntry × List ℕ)
  read_entry pos = read_from_buf "incomplete WAL entry sequence number in file " 8 pos >>= λ seq.
      read_from_buf "incomplete WAL entry key size in file " 1 seq.1 >>= λ code.
      let key_size = decode_key_size (head_byte code.0) in
      if ltb max_key_len key_size
      then err (error "invalid encoded key size ")
      else (read_from_buf "incomplete WAL entry key in file " key_size code.1 >>= λ key.
          read_from_buf "incomplete WAL entry value size in file " 2 key.1 >>= λ size.
          read_from_buf "incomplete WAL entry value in file " (of_le size.0) size.1 >>= λ value.
          read_checksum (record { seq_nr = of_le seq.0; key = key.0; value = value.0 })
            (seq.0 ++ (code.0 ++ (key.0 ++ (size.0 ++ value.0)))) value.1)
