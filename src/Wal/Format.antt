-- ===== src/Wal/Format.antt =====
-- src/db/wal.cc: the format of an entry, as the comment in `read_wal_file_generator` lays it out, and
-- that the generator accepts what has this format and nothing else.
use hedge_db.Base.{
  ℕ, ◌≤◌, ◌≡◌, refl, sym, ◌∙◌, ap, List, ◌++◌, length, take, drop, ltb, ◌==◌, ==_iff, le→ltb,
  ltb→le, arith, length-append, take-append, drop-append, Bool-cases, inl, inr, length-take, ◌↔◌,
  take-append-drop,
}
use hedge_db.Base.Status.{ok, bind-ok}
use hedge_db.Bytes.{of_le}
use hedge_db.Key.{decode_key_size, max_key_len}
use Prim.Native.String.{String}
use hedge_db.Wal.Entry.{WalEntry, checksum, read_from_buf, read_entry, read_checksum, head_byte}

pub read_from_buf-append :
    (what : String) (n : ℕ) (xs rest : List ℕ)
    → n ≡ length xs
    → read_from_buf what n (xs ++ rest) ≡ ok (xs, rest)
unfolding read_from_buf
read_from_buf-append what n xs rest h =
    rw
      (
        le→ltb (length (xs ++ rest)) n (omega (arith, length-append xs rest)),
        take-append n xs rest h,
        drop-append n xs rest h,
      )
      refl

pub read_from_buf-ok :
    (what : String) (n : ℕ) (pos : List ℕ) (r : List ℕ × List ℕ)
    → read_from_buf what n pos ≡ ok r
    → (pos ≡ r.0 ++ r.1) × (n ≡ length r.0)
unfolding read_from_buf
read_from_buf-ok what n pos r h = elim (Bool-cases (ltb (length pos) n)) [
  | inl short ↦ cc (rw short at h)
  | inr long ↦
      let same : (take n pos, drop n pos) ≡ r = cc (rw long at h) in
      (
        sym (take-append-drop n pos) ∙ ap (λ (q : List ℕ × List ℕ). q.0 ++ q.1) same,
        omega (arith, length-take n pos, ltb→le _ _ long)
            ∙ ap (λ (q : List ℕ × List ℕ). length q.0) same,
      )
]

-- An entry at the front of some bytes, and the bytes behind it.
pub record Parsed (xxh64 : List ℕ → ℕ → ℕ) (pos : List ℕ) (e : WalEntry) (rest : List ℕ)
    : Type 0 where
  pub seq : List ℕ
  pub code : List ℕ
  pub key : List ℕ
  pub size : List ℕ
  pub value : List ℕ
  pub sum : List ℕ
  pub layout : pos ≡ seq ++ (code ++ (key ++ (size ++ (value ++ (sum ++ rest)))))
  pub seq_size : 8 ≡ length seq
  pub code_size : 1 ≡ length code
  pub key_size : decode_key_size (head_byte code) ≡ length key
  pub key_bound : length key ≤ 256
  pub size_size : 2 ≡ length size
  pub value_size : of_le size ≡ length value
  pub sum_size : 4 ≡ length sum
  pub valid : of_le sum ≡ checksum xxh64 (seq ++ (code ++ (key ++ (size ++ value))))
  pub entry : e ≡ record { seq_nr = of_le seq; key = key; value = value }

behind : (xs : List ℕ) {ys zs : List ℕ} → ys ≡ zs → xs ++ ys ≡ xs ++ zs
behind xs h = ap (λ (r : List ℕ). xs ++ r) h

module _ (xxh64 : List ℕ → ℕ → ℕ) (pos : List ℕ) (e : WalEntry) (rest : List ℕ) where
  read_checksum-Parsed :
      (p : Parsed xxh64 pos e rest)
      → read_checksum xxh64 e (p.seq ++ (p.code ++ (p.key ++ (p.size ++ p.value)))) (p.sum ++ rest)
        ≡ ok (e, rest)
  unfolding read_checksum
  read_checksum-Parsed p =
      rw
        (
          read_from_buf-append "incomplete WAL entry checksum in file " 4 p.sum rest p.sum_size,
          (==_iff (of_le p.sum)
                (checksum xxh64 (p.seq ++ (p.code ++ (p.key ++ (p.size ++ p.value)))))).1
              p.valid,
        )
        refl

  Parsed-read_entry : Parsed xxh64 pos e rest → read_entry xxh64 pos ≡ ok (e, rest)
  unfolding read_entry
  Parsed-read_entry p =
      rw
        (
          p.layout,
          read_from_buf-append "incomplete WAL entry sequence number in file " 8 p.seq _ p.seq_size,
          read_from_buf-append "incomplete WAL entry key size in file " 1 p.code _ p.code_size,
          p.key_size,
          le→ltb max_key_len (length p.key) p.key_bound,
          read_from_buf-append "incomplete WAL entry key in file " (length p.key) p.key _ refl,
          read_from_buf-append "incomplete WAL entry value size in file " 2 p.size _ p.size_size,
          p.value_size,
          read_from_buf-append "incomplete WAL entry value in file " (length p.value) p.value _
              refl,
          sym p.entry,
        )
        (read_checksum-Parsed p)

  read_entry-Parsed : read_entry xxh64 pos ≡ ok (e, rest) → Parsed xxh64 pos e rest
  unfolding read_entry read_checksum
  read_entry-Parsed h =
      bind-ok (read_from_buf "incomplete WAL entry sequence number in file " 8 pos) _ (e, rest) h
        λ seq h₁ k₁.
          bind-ok (read_from_buf "incomplete WAL entry key size in file " 1 seq.1) _ (e, rest) k₁
            λ code h₂ k₂. elim (Bool-cases (ltb max_key_len (decode_key_size (head_byte code.0)))) [
              | inl long ↦ cc (rw long at k₂)
              | inr bound ↦
                  bind-ok
                    (read_from_buf "incomplete WAL entry key in file "
                      (decode_key_size (head_byte code.0)) code.1)
                    _ (e, rest) (rw bound at k₂)
                    λ key h₃ k₃.
                      bind-ok (read_from_buf "incomplete WAL entry value size in file " 2 key.1) _
                        (e, rest) k₃
                        λ size h₄ k₄.
                          bind-ok
                            (read_from_buf "incomplete WAL entry value in file " (of_le size.0)
                              size.1)
                            _ (e, rest) k₄
                            λ value h₅ k₅.
                              bind-ok
                                (read_from_buf "incomplete WAL entry checksum in file " 4 value.1) _
                                (e, rest) k₅
                                λ sum h₆ k₆.
                                  elim (Bool-cases (
                                    of_le sum.0
                                    == checksum xxh64
                                        (seq.0 ++ (code.0 ++ (key.0 ++ (size.0 ++ value.0)))))) [
                                          | inr wrong ↦ cc (rw wrong at k₆)
                                          | inl right ↦
                                              let same = rw right at k₆ in
                                              let (l₁, n₁) = read_from_buf-ok _ 8 pos seq h₁ in
                                              let (l₂, n₂) = read_from_buf-ok _ 1 seq.1 code h₂ in
                                              let (l₃, n₃) =
                                                read_from_buf-ok _
                                                  (decode_key_size (head_byte code.0)) code.1 key
                                                  h₃ in
                                              let (l₄, n₄) = read_from_buf-ok _ 2 key.1 size h₄ in
                                              let (l₅, n₅) =
                                                read_from_buf-ok _ (of_le size.0) size.1 value h₅ in
                                              let (l₆, n₆) = read_from_buf-ok _ 4 value.1 sum h₆ in
                                              let entry_read : WalEntry = record {
                                                seq_nr = of_le seq.0;
                                                key = key.0;
                                                value = value.0;
                                              } in
                                              let pair : (entry_read, sum.1) ≡ (e, rest) = cc in
                                              record {
                                                seq = seq.0;
                                                code = code.0;
                                                key = key.0;
                                                size = size.0;
                                                value = value.0;
                                                sum = sum.0;
                                                layout =
                                                    l₁
                                                    ∙ behind seq.0 (
                                                        l₂
                                                        ∙ behind code.0 (
                                                            l₃
                                                            ∙ behind key.0 (
                                                            l₄
                                                            ∙ behind size.0 (
                                                            l₅
                                                            ∙ behind value.0 (
                                                            l₆
                                                            ∙ behind sum.0 (
                                                            ap (λ (r : WalEntry × List ℕ). r.1)
                                                            pair))))));
                                                seq_size = n₁;
                                                code_size = n₂;
                                                key_size = n₃;
                                                size_size = n₄;
                                                value_size = n₅;
                                                sum_size = n₆;
                                                key_bound = omega (arith, n₃, ltb→le _ _ bound);
                                                valid = (==_iff _ _).0 right;
                                                entry =
                                                    sym (ap (λ (r : WalEntry × List ℕ). r.0) pair);
                                              }
                                        ]
            ]

  -- The generator takes an entry from the front of the buffer exactly when the buffer starts with the
  -- entry's bytes: the sizes, the bounds and the checksum are right.
  pub read_entry_iff : (read_entry xxh64 pos ≡ ok (e, rest)) ↔ Parsed xxh64 pos e rest
  read_entry_iff = (read_entry-Parsed, Parsed-read_entry)
