-- ===== src/Sst/FooterRead.antt =====
-- src/db/sst.h: a footer is read back from its bytes.
use hedge_db.Base.{
  ℕ, zero, suc, ◌+◌, ◌*◌, ◌^◌, ◌<◌, ◌≡◌, refl, sym, ◌∙◌, ap, List, [], ◌∷◌, ◌++◌, length,
  length-append, take, drop, take-append, drop-append, drop-drop, append_assoc, some, get_elem?,
  All, arith,
}
use hedge_db.Bytes.{to_le, of_le, length-to_le, of_le-to_le}
use hedge_db.Sst.Footer.{SstFooter, words, footer_fields, footer_bytes, footer_of_bytes}

abbrev IsWord : ℕ → Type 0
IsWord w = w < 2 ^ 64

-- A footer whose fields are of 64 bits, and whose header and version have their sizes.
pub record IsFooter (f : SstFooter) : Type 0 where
  pub header : length f.header ≡ 16
  pub version : f.version < 256
  pub fields : All IsWord (footer_fields f)

of_le-words :
    (ws rest : List ℕ) (i n w : ℕ)
    → All IsWord ws
    → n ≡ 8 * i
    → get_elem? ws i ≡ some w
    → of_le (take 8 (drop n (words ws ++ rest))) ≡ w
of_le-words [] rest i n w h e g = absurd (cc)
of_le-words (x ∷ ws) rest zero n w (h, hs) e g =
    let same : x ≡ w = cc in
    ap (λ (m : ℕ). of_le (take 8 (drop m ((to_le 8 x ++ words ws) ++ rest)))) {x = n} {y = 0}
      (omega arith)
    ∙ ap (λ (bs : List ℕ). of_le (take 8 bs)) (append_assoc (to_le 8 x) (words ws) rest)
    ∙ ap of_le (take-append 8 (to_le 8 x) (words ws ++ rest) (sym (length-to_le 8 x)))
    ∙ of_le-to_le 8 x (omega arith)
    ∙ same
of_le-words (x ∷ ws) rest (suc i) n w (h, hs) e g =
    ap (λ (m : ℕ). of_le (take 8 (drop m ((to_le 8 x ++ words ws) ++ rest)))) {x = n}
      {y = 8 + 8 * i} (omega arith)
    ∙ ap (λ (bs : List ℕ). of_le (take 8 bs))
        (sym (drop-drop 8 (8 * i) ((to_le 8 x ++ words ws) ++ rest))
          ∙ ap (drop (8 * i)) (
              ap (drop 8) (append_assoc (to_le 8 x) (words ws) rest)
              ∙ drop-append 8 (to_le 8 x) (words ws ++ rest) (sym (length-to_le 8 x))))
    ∙ of_le-words ws rest i (8 * i) w hs refl g

module _ (padding : ℕ → List ℕ) (padded : length (padding 7) ≡ 7) (f : SstFooter) (h : IsFooter f)
    (rest : List ℕ) where
  abbrev bytes : List ℕ
  bytes = footer_bytes padding f ++ rest

  split : bytes ≡ f.header ++ (f.version ∷ (padding 7 ++ (words (footer_fields f) ++ rest)))
  unfolding footer_bytes
  split =
      append_assoc f.header (f.version ∷ (padding 7 ++ words (footer_fields f))) rest
      ∙ ap (λ (bs : List ℕ). f.header ++ (f.version ∷ bs))
          (append_assoc (padding 7) (words (footer_fields f)) rest)

  behind_version : drop 24 bytes ≡ words (footer_fields f) ++ rest
  behind_version =
      ap (drop 24) split
      ∙ sym (
          drop-drop 16 8
            (f.header ++ (f.version ∷ (padding 7 ++ (words (footer_fields f) ++ rest)))))
      ∙ ap (drop 8) (drop-append 16 f.header _ (sym h.header))
      ∙ drop-append 7 (padding 7) (words (footer_fields f) ++ rest) (sym padded)

  header-read : take 16 bytes ≡ f.header
  header-read = ap (take 16) split ∙ take-append 16 f.header _ (sym h.header)

  version-read : of_le (take 1 (drop 16 bytes)) ≡ f.version
  unfolding of_le
  version-read =
      ap (λ (bs : List ℕ). of_le (take 1 bs))
        (ap (drop 16) split
          ∙ drop-append 16 f.header (f.version ∷ (padding 7 ++ (words (footer_fields f) ++ rest)))
              (sym h.header))
      ∙ omega arith

  field-read :
      (i n w : ℕ)
      → n ≡ 8 * i
      → get_elem? (footer_fields f) i ≡ some w
      → of_le (take 8 (drop n (drop 24 bytes))) ≡ w
  field-read i n w e g =
      ap (λ (bs : List ℕ). of_le (take 8 (drop n bs))) behind_version
      ∙ of_le-words (footer_fields f) rest i n w h.fields e g

  -- A footer is read back from its bytes, whatever follows them.
  pub footer_of_bytes-footer_bytes : footer_of_bytes bytes ≡ f
  unfolding footer_of_bytes
  footer_of_bytes-footer_bytes =
      rw
        (
          header-read,
          version-read,
          field-read 0 0 f.upper_bound (omega arith) refl,
          field-read 1 8 f.indexed_keys (omega arith) refl,
          field-read 2 16 f.meta_index_entries (omega arith) refl,
          field-read 3 24 f.index_offset (omega arith) refl,
          field-read 4 32 f.meta_index_offset (omega arith) refl,
          field-read 5 40 f.qf_offset (omega arith) refl,
          field-read 6 48 f.qf_size (omega arith) refl,
          field-read 7 56 f.footer_offset (omega arith) refl,
          field-read 8 64 f.epoch (omega arith) refl,
          field-read 9 72 f.max_seq_nr (omega arith) refl,
        )
        refl

  pub length-footer_bytes : length (footer_bytes padding f) ≡ 104
  unfolding footer_bytes
  length-footer_bytes = omega (
    arith,
    h.header,
    length-append f.header (f.version ∷ (padding 7 ++ words (footer_fields f))),
    length-append (padding 7) (words (footer_fields f)),
    padded,
    length-words (footer_fields f),
  )
    where
      length-words : (ws : List ℕ) → length (words ws) ≡ 8 * length ws
      length-words [] = refl
      length-words (w ∷ ws) =
          omega (arith, length-append (to_le 8 w) (words ws), length-to_le 8 w, length-words ws)
