-- ===== src/Value.antt =====
-- include/types.h: the values of the store and their form as bytes.
use hedge_db.Base.{
  ℕ, zero, suc, ◌+◌, ◌-◌, ◌/◌, ◌%◌, ◌^◌, ◌≤◌, ◌<◌, ◌≡◌, refl, sym, ◌∙◌, ap, ap₂, List, [], ◌∷◌,
  ◌++◌, length, take, drop, Bool, true, not, ltb, ◌==◌, ◌&&◌, if◌then◌else◌, bit_and, bit_or, arith,
  lt→ltb, length-append, take-append, drop-append, ==_iff, take-drop-append, take_all, append_assoc,
  le→ltb,
}
use hedge_db.Base.Bits.{and_mask, or_high}
use hedge_db.Base.Status.{Expected, ok, err, error}
use hedge_db.Bytes.{to_le, of_le, length-to_le, of_le-to_le}

-- uint64_t, uint32_t and uint32_t; the top bit of `raw_offset` is the flag of a deletion.
pub record ValuePtr : Type 0 where
  pub raw_offset : ℕ
  pub size : ℕ
  pub table_id : ℕ

abbrev pub size_of_value_ptr : ℕ
size_of_value_ptr = 16

-- The object's bytes, as `memcpy` takes them.
unfoldable pub value_ptr_bytes : ValuePtr → List ℕ
value_ptr_bytes p = to_le 8 p.raw_offset ++ (to_le 4 p.size ++ to_le 4 p.table_id)

unfoldable pub value_ptr_of_bytes : List ℕ → ValuePtr
value_ptr_of_bytes bs = record {
  raw_offset = of_le (take 8 bs);
  size = of_le (take 4 (drop 8 bs));
  table_id = of_le (take 4 (drop 12 bs));
}

unfoldable pub is_deleted : ValuePtr → Bool
is_deleted p = p.raw_offset / 2 ^ 63 == 1

abbrev pub deleted_mask : ℕ
deleted_mask = 2 ^ 63

unfoldable pub offset : ValuePtr → ℕ
offset p = bit_and p.raw_offset (2 ^ 64 - 1 - deleted_mask)

unfoldable pub apply_delete : ValuePtr → ValuePtr
apply_delete p = record p { raw_offset = bit_or p.raw_offset deleted_mask }

-- `operator<`.
unfoldable pub value_ptr_lt : ValuePtr → ValuePtr → Bool
value_ptr_lt a b =
    if ltb b.table_id a.table_id
    then true
    else if ltb (offset b) (offset a)
    then true
    else is_deleted a && not (is_deleted b)

pub data Value : Type 0 where
  value_ptr : ValuePtr → Value
  in_place : List ℕ → Value
  tombstone : Value

-- `value_type`, as the first byte of a value's bytes.
abbrev pub tag_value_ptr : ℕ
tag_value_ptr = 0

abbrev pub tag_in_place_value : ℕ
tag_in_place_value = 1

abbrev pub tag_tombstone : ℕ
tag_tombstone = 2

-- A span without a byte has no meaning in the source.
unfoldable pub value_from_span : List ℕ → Expected Value
value_from_span [] = err (error "Invalid value type")
value_from_span (tag ∷ span) =
    if tag == tag_value_ptr
    then (if not (length span + 1 == 1 + size_of_value_ptr)
        then err (error "Invalid span size for value_ptr_t")
        else ok (value_ptr (value_ptr_of_bytes span)))
    else if tag == tag_in_place_value
    then ok (in_place span)
    else if tag == tag_tombstone
    then (if not (length span + 1 == 1)
        then err (error "Invalid span size for tombstone_t")
        else ok tombstone)
    else err (error "Invalid value type")

-- A value's bytes behind its tag, as `put_async` and the block encoder store them.
abbrev pub tagged : Value → List ℕ
tagged (value_ptr p) = tag_value_ptr ∷ value_ptr_bytes p
tagged (in_place bs) = tag_in_place_value ∷ bs
tagged tombstone = tag_tombstone ∷ []

pub record IsValuePtr (p : ValuePtr) : Type 0 where
  pub raw_offset : p.raw_offset < 2 ^ 64
  pub size : p.size < 2 ^ 32
  pub table_id : p.table_id < 2 ^ 32

abbrev pub IsValue : Value → Type 0
IsValue (value_ptr p) = IsValuePtr p
IsValue (in_place bs) = Unit {0}
IsValue tombstone = Unit {0}

length-value_ptr_bytes : (p : ValuePtr) → length (value_ptr_bytes p) ≡ 16
unfolding value_ptr_bytes
length-value_ptr_bytes p = omega (
  arith,
  length-append (to_le 8 p.raw_offset) (to_le 4 p.size ++ to_le 4 p.table_id),
  length-append (to_le 4 p.size) (to_le 4 p.table_id),
  length-to_le 8 p.raw_offset,
  length-to_le 4 p.size,
  length-to_le 4 p.table_id,
)

value_ptr_of_bytes-value_ptr_bytes :
    (p : ValuePtr) → IsValuePtr p → value_ptr_of_bytes (value_ptr_bytes p) ≡ p
unfolding value_ptr_of_bytes value_ptr_bytes
value_ptr_of_bytes-value_ptr_bytes p h =
    ap₂ (λ (o : ℕ) (r : ℕ × ℕ). record { raw_offset = o; size = r.0; table_id = r.1 })
      (ap of_le (take-append 8 (to_le 8 p.raw_offset) _ (sym (length-to_le 8 p.raw_offset)))
        ∙ of_le-to_le 8 p.raw_offset h.raw_offset)
      (ap₂ (λ (m n : ℕ). (m, n))
        (ap of_le (
            take-drop-append 8 4 (to_le 8 p.raw_offset) (to_le 4 p.size) (to_le 4 p.table_id)
              (sym (length-to_le 8 p.raw_offset)) (sym (length-to_le 4 p.size)))
          ∙ of_le-to_le 4 p.size h.size)
        (ap of_le (
            ap (take 4) last_four
            ∙ take_all 4 (to_le 4 p.table_id) (omega (arith, length-to_le 4 p.table_id)))
          ∙ of_le-to_le 4 p.table_id h.table_id))
  where
    last_four :
        drop 12 (to_le 8 p.raw_offset ++ (to_le 4 p.size ++ to_le 4 p.table_id))
        ≡ to_le 4 p.table_id
    last_four =
        ap (drop 12)
          (sym (append_assoc (to_le 8 p.raw_offset) (to_le 4 p.size) (to_le 4 p.table_id)))
        ∙ drop-append 12 (to_le 8 p.raw_offset ++ to_le 4 p.size) (to_le 4 p.table_id) (
            omega (
              arith,
              length-append (to_le 8 p.raw_offset) (to_le 4 p.size),
              length-to_le 8 p.raw_offset,
              length-to_le 4 p.size,
            ))

-- A value that was stored behind its tag is read back, if a pointer's parts fit their fields.
pub value_from_span-tagged : (v : Value) → IsValue v → value_from_span (tagged v) ≡ ok v
unfolding value_from_span
value_from_span-tagged (value_ptr p) h =
    rw
      (
        (==_iff (length (value_ptr_bytes p) + 1) 17).1 (omega (arith, length-value_ptr_bytes p)),
        value_ptr_of_bytes-value_ptr_bytes p h,
      )
      refl
value_from_span-tagged (in_place bs) h = refl
value_from_span-tagged tombstone h = refl

-- Where one pointer has the newer table and the other the greater offset, each is before the other.
pub value_ptr_lt-both :
    (a b : ValuePtr)
    → b.table_id < a.table_id
    → offset a < offset b
    → (value_ptr_lt a b ≡ true) × (value_ptr_lt b a ≡ true)
unfolding value_ptr_lt
value_ptr_lt-both a b newer greater = (
  rw (lt→ltb _ _ newer) refl,
  rw (le→ltb a.table_id b.table_id (omega arith), lt→ltb (offset a) (offset b) greater) refl,
)

or_one : (q : ℕ) → q ≤ 1 → bit_or q 1 ≡ 1
or_one zero h = refl
or_one (suc zero) h = refl
or_one (suc (suc q)) h = absurd (omega arith)

-- Marking a pointer of 64 bits as deleted sets the flag and leaves the offset.
pub offset-apply_delete :
    (p : ValuePtr)
    → p.raw_offset < 2 ^ 64
    → (is_deleted (apply_delete p) ≡ true) × (offset (apply_delete p) ≡ offset p)
unfolding apply_delete is_deleted offset
offset-apply_delete p h = (
  (==_iff (bit_or p.raw_offset (2 ^ 63) / 2 ^ 63) 1).1 (omega (arith, flagged)),
  and_mask 63 (bit_or p.raw_offset (2 ^ 63))
      ∙ omega (arith, flagged)
      ∙ sym (and_mask 63 p.raw_offset),
)
  where
    flagged : bit_or p.raw_offset (2 ^ 63) ≡ 2 ^ 63 + p.raw_offset % 2 ^ 63
    flagged = omega (arith, or_high 63 p.raw_offset 1, or_one (p.raw_offset / 2 ^ 63) (omega arith))
