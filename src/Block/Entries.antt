-- ===== src/Block/Entries.antt =====
-- src/db/block.cc: what the iterator reads from an entry that the encoder wrote.
use hedge_db.Base.{
  ℕ, ◌-◌, ◌^◌, ◌≤◌, ◌<◌, ◌≡◌, refl, sym, ap₂, inl, inr, Bool-cases, ==_iff, List, [], ◌∷◌, ◌++◌,
  length, take, drop, ◌==◌, take-append, drop-append, take-append_more, append_assoc, arith,
  length-drop,
}
use native.Mathlib.Nat.{mod-eq_of_lt}
use hedge_db.Key.{Key, decode-encode_key_size}
use hedge_db.Varint.{unsafe_varint, varint_length}
use hedge_db.Varint.Encode.{length-unsafe_varint, length-unsafe_varint-le}
use hedge_db.Varint.Decode.{try_decode_varint-unsafe_varint}
use hedge_db.Block.Encoder.{compute_shared_prefix_length, restart_entry, delta_entry}
use hedge_db.Block.Iterator.{
  BlockIterator, decoded_value_size, read_value, read_restart_key, read_delta_key, resize,
}

-- The size of a value below 2^35 is read from the five bytes that the iterator looks at.
decoded_value_size-unsafe_varint :
    (n : ℕ) (rest : List ℕ)
    → n < 2 ^ 35
    → decoded_value_size (unsafe_varint n ++ rest) ≡ (n, varint_length n)
unfolding decoded_value_size
decoded_value_size-unsafe_varint n rest h =
    rw
      (
        take-append_more 5 (unsafe_varint n) rest (length-unsafe_varint-le 4 n (omega arith)),
        try_decode_varint-unsafe_varint n (take (5 - length (unsafe_varint n)) rest) (omega arith),
      )
      refl

abbrev value_bytes : List ℕ → List ℕ → List ℕ
value_bytes value rest = unsafe_varint (length value) ++ (value ++ rest)

-- A common prefix of two keys.
pub shared-le :
    (prev key : Key)
    → (compute_shared_prefix_length prev key ≤ length prev)
      × (compute_shared_prefix_length prev key ≤ length key)
unfolding compute_shared_prefix_length
shared-le [] key = omega arith
shared-le (p ∷ prev) [] = omega arith
shared-le (p ∷ prev) (c ∷ key) = ground (arith, shared-le prev key)

resize-shared :
    (prev key : Key)
    → resize (compute_shared_prefix_length prev key) prev
        ++ drop (compute_shared_prefix_length prev key) key
      ≡ key
unfolding compute_shared_prefix_length resize
resize-shared [] key = refl
resize-shared (p ∷ prev) [] = refl
resize-shared (p ∷ prev) (c ∷ key) = elim (Bool-cases (c == p)) [
  | inl same ↦
      rw same
        (ap₂ (λ (x : ℕ) (r : Key). x ∷ r) (sym ((==_iff c p).0 same)) (resize-shared prev key))
  | inr other ↦ rw other refl
]

module _ (key : Key) (value rest : List ℕ) (it : BlockIterator)
    (small : length value < 2 ^ 35) where
  read_value-entry :
      read_value key (unsafe_varint (length value) ++ (value ++ rest)) it
      ≡ record it { key = key; value = value; head = rest }
  unfolding read_value
  read_value-entry =
      rw
        (
          decoded_value_size-unsafe_varint (length value) (value ++ rest) small,
          drop-append (varint_length (length value)) (unsafe_varint (length value)) (value ++ rest)
              (sym (length-unsafe_varint (length value))),
          take-append (length value) value rest refl,
          drop-append (length value) value rest refl,
        )
        refl

  -- The key's bytes lie before the value's.
  read_value-behind_key :
      (n : ℕ) (k front : Key)
      → n ≡ length k
      → front ++ k ≡ key
      → read_value
          (front ++ take n (k ++ value_bytes value rest))
          (drop n (k ++ value_bytes value rest))
          it
        ≡ record it { key = key; value = value; head = rest }
  read_value-behind_key n k front e whole =
      rw
        (
          take-append n k (value_bytes value rest) e,
          drop-append n k (value_bytes value rest) e,
          whole,
        )
        read_value-entry

  -- A restart entry is read back.
  pub read_restart_key-restart_entry :
      1 ≤ length key
      → length key ≤ 256
      → it.head ≡ restart_entry key value ++ rest
      → read_restart_key it ≡ record it { key = key; value = value; head = rest }
  unfolding read_restart_key read_value
  read_restart_key-restart_entry lo hi at =
      rw (at, append_assoc, append_assoc)
        (read_value-behind_key _ key [] (decode-encode_key_size (length key) lo hi) refl)

  -- A delta entry is read back behind the key that it was encoded against.
  pub read_delta_key-delta_entry :
      (prev : Key)
      → compute_shared_prefix_length prev key < 256
      → length key - compute_shared_prefix_length prev key < 256
      → it.key ≡ prev
      → it.head ≡ delta_entry (compute_shared_prefix_length prev key) key value ++ rest
      → read_delta_key it ≡ record it { key = key; value = value; head = rest }
  unfolding read_delta_key read_value
  read_delta_key-delta_entry prev short delta same at =
      rw (at, same, append_assoc, append_assoc, mod-eq_of_lt short, mod-eq_of_lt delta)
        (read_value-behind_key _ (drop shared key) (resize shared prev)
          (sym (length-drop shared key)) (resize-shared prev key))
    where
      shared : ℕ
      shared = compute_shared_prefix_length prev key
