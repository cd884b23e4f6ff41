-- ===== src/Wal/Read.antt =====
-- src/db/wal.cc: what the generator reads from what `_write_entry` wrote.
use hedge_db.Base.{
  ℕ, ◌%◌, ◌^◌, ◌≤◌, ◌<◌, ◌≡◌, refl, sym, ◌∙◌, ap, List, [], ◌++◌, length, take, drop, arith,
  append_assoc, append-nil, length-append, length-drop, take-append-drop,
}
use hedge_db.Base.Status.{Expected, ok, err, Error}
use hedge_db.Bytes.{to_le, of_le, length-to_le, of_le-to_le}
use hedge_db.Key.{encode_key_size, decode_key_size, decode-encode_key_size}
use hedge_db.Wal.Entry.{WalEntry, checksum, covered_bytes, entry_bytes, read_entry, head_byte}
use hedge_db.Wal.Format.{Parsed, read_entry_iff}

-- The entries that the log can hold: a key of 1 to 256 bytes, a value shorter than 2^16 bytes with
-- its type tag, and a sequence number of 64 bits.
pub record IsLoggable (e : WalEntry) : Type 0 where
  pub seq_nr : e.seq_nr < 2 ^ 64
  pub key : (1 ≤ length e.key) × (length e.key ≤ 256)
  pub value : length e.value < 2 ^ 16

module _ (xxh64 : List ℕ → ℕ → ℕ) (e : WalEntry) (l : IsLoggable e) where
  abbrev sum_bytes : List ℕ
  sum_bytes = to_le 4 (checksum xxh64 (covered_bytes xxh64 e))

  abbrev code : ℕ
  code = encode_key_size (length e.key)

  key_size : decode_key_size (head_byte (to_le 1 code)) ≡ length e.key
  unfolding to_le
  key_size =
      ap decode_key_size {y = code} (omega (arith, code-lt))
      ∙ decode-encode_key_size (length e.key) l.key.0 l.key.1
    where
      code-lt : code < 256
      code-lt = unfold encode_key_size in omega arith

  parts :
      (rest : List ℕ)
      → entry_bytes xxh64 e ++ rest
        ≡ to_le 8 e.seq_nr
          ++ (to_le 1 code
              ++ (e.key ++ (to_le 2 (length e.value % 2 ^ 16) ++ (e.value ++ (sum_bytes ++ rest)))))
  unfolding entry_bytes covered_bytes
  parts rest = simp append_assoc

  valid_sum :
      of_le sum_bytes
      ≡ checksum xxh64 (
          to_le 8 e.seq_nr
          ++ (to_le 1 code ++ (e.key ++ (to_le 2 (length e.value % 2 ^ 16) ++ e.value))))
  unfolding covered_bytes
  valid_sum =
      of_le-to_le 4 (checksum xxh64 (covered_bytes xxh64 e)) (unfold checksum in omega arith)

  -- What `_write_entry` wrote has the format.
  entry_bytes-Parsed : (rest : List ℕ) → Parsed xxh64 (entry_bytes xxh64 e ++ rest) e rest
  entry_bytes-Parsed rest = record {
    seq = to_le 8 e.seq_nr;
    code = to_le 1 code;
    key = e.key;
    size = to_le 2 (length e.value % 2 ^ 16);
    value = e.value;
    sum = sum_bytes;
    layout = parts rest;
    seq_size = sym (length-to_le 8 e.seq_nr);
    code_size = sym (length-to_le 1 code);
    key_size = key_size;
    key_bound = l.key.1;
    size_size = sym (length-to_le 2 (length e.value % 2 ^ 16));
    value_size = of_le-to_le 2 (length e.value % 2 ^ 16) (omega arith) ∙ omega (arith, l.value);
    sum_size = sym (length-to_le 4 (checksum xxh64 (covered_bytes xxh64 e)));
    valid = valid_sum;
    entry =
        ap (λ (n : ℕ). record { seq_nr = n; key = e.key; value = e.value })
          (sym (of_le-to_le 8 e.seq_nr l.seq_nr));
  }

  pub read_entry-entry_bytes :
      (rest : List ℕ) → read_entry xxh64 (entry_bytes xxh64 e ++ rest) ≡ ok (e, rest)
  read_entry-entry_bytes rest =
      (read_entry_iff xxh64 (entry_bytes xxh64 e ++ rest) e rest).1 (entry_bytes-Parsed rest)

module _ (xxh64 : List ℕ → ℕ → ℕ) where
  -- An entry takes bytes from the buffer.
  pub read_entry-shorter :
      (pos : List ℕ) (e : WalEntry) (rest : List ℕ)
      → read_entry xxh64 pos ≡ ok (e, rest)
      → length rest < length pos
  read_entry-shorter pos e rest h =
      let p = (read_entry_iff xxh64 pos e rest).0 h in
      omega (
        arith,
        ap (λ (bs : List ℕ). length bs) p.layout,
        length-append p.seq (p.code ++ (p.key ++ (p.size ++ (p.value ++ (p.sum ++ rest))))),
        length-append p.code (p.key ++ (p.size ++ (p.value ++ (p.sum ++ rest)))),
        length-append p.key (p.size ++ (p.value ++ (p.sum ++ rest))),
        length-append p.size (p.value ++ (p.sum ++ rest)),
        length-append p.value (p.sum ++ rest),
        length-append p.sum rest,
        p.seq_size,
      )

  -- Bytes behind an entry do not change how it is read.
  read_entry-append :
      (pos more : List ℕ) (e : WalEntry) (rest : List ℕ)
      → read_entry xxh64 pos ≡ ok (e, rest)
      → read_entry xxh64 (pos ++ more) ≡ ok (e, rest ++ more)
  read_entry-append pos more e rest h =
      let p = (read_entry_iff xxh64 pos e rest).0 h in
      (read_entry_iff xxh64 (pos ++ more) e (rest ++ more)).1 (record {
        seq = p.seq;
        code = p.code;
        key = p.key;
        size = p.size;
        value = p.value;
        sum = p.sum;
        layout = ap (λ (bs : List ℕ). bs ++ more) p.layout ∙ simp append_assoc;
        seq_size = p.seq_size;
        code_size = p.code_size;
        key_size = p.key_size;
        key_bound = p.key_bound;
        size_size = p.size_size;
        value_size = p.value_size;
        sum_size = p.sum_size;
        valid = p.valid;
        entry = p.entry;
      })

  -- An entry that is cut short is an error.
  pub read_entry-torn :
      (n : ℕ) (e : WalEntry)
      → IsLoggable e
      → n < length (entry_bytes xxh64 e)
      → (x : Error) × (read_entry xxh64 (take n (entry_bytes xxh64 e)) ≡ err x)
  read_entry-torn n e l h = go (read_entry xxh64 (take n (entry_bytes xxh64 e))) refl
    where
      go :
          (r : Expected (WalEntry × List ℕ))
          → read_entry xxh64 (take n (entry_bytes xxh64 e)) ≡ r
          → (x : Error) × (read_entry xxh64 (take n (entry_bytes xxh64 e)) ≡ err x)
      go (err x) k = (x, k)
      go (ok (e', rest)) k = absurd (
          omega (
            arith,
            length-append rest (drop n (entry_bytes xxh64 e)),
            length-drop n (entry_bytes xxh64 e),
            ap (λ (r : List ℕ). length r) nothing,
          ))
        where
          whole :
              read_entry xxh64 (entry_bytes xxh64 e) ≡ ok (e', rest ++ drop n (entry_bytes xxh64 e))
          whole = rw (take-append-drop n (entry_bytes xxh64 e)) at (
              read_entry-append (take n (entry_bytes xxh64 e)) (drop n (entry_bytes xxh64 e)) e'
                rest k)

          read_whole : read_entry xxh64 (entry_bytes xxh64 e) ≡ ok (e, [])
          read_whole =
              rw (append-nil (entry_bytes xxh64 e)) at (read_entry-entry_bytes xxh64 e l [])

          nothing : rest ++ drop n (entry_bytes xxh64 e) ≡ []
          nothing = cc (whole, read_whole)
