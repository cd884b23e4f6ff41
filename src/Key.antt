-- ===== src/Key.antt =====
-- include/key.h: a key as its bytes, the order of `std::string_view`, and the form in which a key is
-- stored: one byte for its length less one, then its bytes.
pub mod Order
use hedge_db.Base.{
  ℕ, zero, suc, ◌+◌, ◌*◌, ◌-◌, ◌/◌, ◌%◌, ◌^◌, ◌≤◌, ◌<◌, ◌≡◌, refl, sym, ◌∙◌, ap, List, [], ◌∷◌,
  ◌++◌, arith, length, take, drop, take-append, Bool, true, false, not,
}
use Prim.Native.Nat.{compare, Ordering}

abbrev pub max_key_len : ℕ
max_key_len = 256

abbrev pub Key : Type 0
Key = List ℕ

-- `<=>` of the string views: bytes compare as unsigned numbers, and a prefix is smaller.
unfoldable pub key_compare : Key → Key → Ordering
key_compare [] [] = Ordering.eq
key_compare [] (y ∷ ys) = Ordering.lt
key_compare (x ∷ xs) [] = Ordering.gt
key_compare (x ∷ xs) (y ∷ ys) =
    let rest = key_compare xs ys in
    elim (compare x y) [
      | Ordering.lt ↦ Ordering.lt
      | Ordering.eq ↦ rest
      | Ordering.gt ↦ Ordering.gt
    ]

-- operator<, operator<= and operator==.
abbrev pub is_lt : Ordering → Bool
is_lt Ordering.lt = true
is_lt Ordering.eq = false
is_lt Ordering.gt = false

abbrev pub is_eq : Ordering → Bool
is_eq Ordering.lt = false
is_eq Ordering.eq = true
is_eq Ordering.gt = false

unfoldable pub key_lt : Key → Key → Bool
key_lt a b = is_lt (key_compare a b)

unfoldable pub key_eq : Key → Key → Bool
key_eq a b = is_eq (key_compare a b)

-- `static_cast<uint8_t>(key_size - 1)` on a size_t.
unfoldable pub encode_key_size : ℕ → ℕ
encode_key_size key_size = (key_size + 2 ^ 64 - 1) % 2 ^ 64 % 256

unfoldable pub decode_key_size : ℕ → ℕ
decode_key_size encoded = encoded + 1

unfoldable pub write_key_unsafe : Key → List ℕ
unfolding encode_key_size
write_key_unsafe k = encode_key_size (length k) ∷ k

-- A read from memory that ends before the first byte has no meaning in the source.
unfoldable pub read_key_unsafe : List ℕ → Key
unfolding decode_key_size
read_key_unsafe [] = []
read_key_unsafe (b ∷ src) = take (decode_key_size b) src

unfoldable pub serialized_key_total_length : Key → ℕ
serialized_key_total_length k = length k + 1

pub deserialized_key_total_length : ℕ → ℕ
deserialized_key_total_length l = l - 1

pub decode-encode_key_size : (n : ℕ) → 1 ≤ n → n ≤ 256 → decode_key_size (encode_key_size n) ≡ n
unfolding encode_key_size decode_key_size
decode-encode_key_size n lo hi = omega arith

-- A key of 1 to 256 bytes is read back, whatever follows it.
pub read-write_key_unsafe :
    (k : Key) (rest : List ℕ)
    → 1 ≤ length k
    → length k ≤ 256
    → read_key_unsafe (write_key_unsafe k ++ rest) ≡ k
unfolding read_key_unsafe write_key_unsafe
read-write_key_unsafe k rest lo hi =
    take-append _ k rest (unfold decode_key_size encode_key_size in omega arith)
