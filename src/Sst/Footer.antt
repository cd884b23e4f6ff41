-- ===== src/Sst/Footer.antt =====
-- src/db/sst.h: `sst_footer` and its bytes, and src/db/index_ops.h: `sst_footer_builder`. The object's
-- bytes are those of its fields on a little-endian machine, with seven bytes of padding behind the
-- version, whose content nobody sets.
use hedge_db.Base.{ℕ, ◌*◌, List, [], ◌∷◌, ◌++◌, take, drop, Option, some, none}
use hedge_db.Base.Status.{Expected, ok, err, error, ◌>>=◌}
use Prim.Native.String.{String}
use hedge_db.Bytes.{to_le, of_le}

-- `header` and `version` are those of `magic` and `current_footer_version` in a footer that is built.
pub record SstFooter : Type 0 where
  pub header : List ℕ
  pub version : ℕ
  pub upper_bound : ℕ
  pub indexed_keys : ℕ
  pub meta_index_entries : ℕ
  pub index_offset : ℕ
  pub meta_index_offset : ℕ
  pub qf_offset : ℕ
  pub qf_size : ℕ
  pub footer_offset : ℕ
  pub epoch : ℕ
  pub max_seq_nr : ℕ

-- "hedge_FOOTER".
abbrev pub magic : List ℕ
magic = 104 ∷ 101 ∷ 100 ∷ 103 ∷ 101 ∷ 95 ∷ 70 ∷ 79 ∷ 79 ∷ 84 ∷ 69 ∷ 82 ∷ []

abbrev pub current_footer_version : ℕ
current_footer_version = 1

abbrev pub size_of_footer : ℕ
size_of_footer = 104

pub record SstFooterBuilder : Type 0 where
  pub upper_bound : Option ℕ
  pub indexed_kv : Option ℕ
  pub meta_index_entries : Option ℕ
  pub index_offset : Option ℕ
  pub meta_index_offset : Option ℕ
  pub qf_offset : Option ℕ
  pub qf_size : Option ℕ
  pub footer_offset : Option ℕ
  pub epoch : Option ℕ
  pub max_seq_nr : Option ℕ

abbrev pub required : String → Option ℕ → Expected ℕ
required text none = err (error text)
required text (some n) = ok n

abbrev pub value_or : ℕ → Option ℕ → ℕ
value_or d none = d
value_or d (some n) = n

unfoldable pub build : SstFooterBuilder → Expected SstFooter
build b = required "Footer upper_bound not set" b.upper_bound >>= λ (upper_bound : ℕ).
    required "Footer indexed_keys not set" b.indexed_kv >>= λ (indexed_keys : ℕ).
    required "Footer meta_index_entries not set" b.meta_index_entries
    >>= λ (meta_index_entries : ℕ).
        required "Footer index_offset not set" b.index_offset >>= λ (index_offset : ℕ).
        required "Footer meta_index_offset not set" b.meta_index_offset
        >>= λ (meta_index_offset : ℕ).
            required "Footer footer_offset not set" b.footer_offset >>= λ (footer_offset : ℕ).
            required "Footer epoch not set" b.epoch >>= λ (epoch : ℕ).
            required "Footer max_seq_nr not set" b.max_seq_nr >>= λ (max_seq_nr : ℕ). ok (record {
              header = magic ++ 0 ∷ 0 ∷ 0 ∷ 0 ∷ [];
              version = current_footer_version;
              upper_bound = upper_bound;
              indexed_keys = indexed_keys;
              meta_index_entries = meta_index_entries;
              index_offset = index_offset;
              meta_index_offset = meta_index_offset;
              qf_offset = value_or 0 b.qf_offset;
              qf_size = value_or 0 b.qf_size;
              footer_offset = footer_offset;
              epoch = epoch;
              max_seq_nr = max_seq_nr;
            })

abbrev pub words : List ℕ → List ℕ
words [] = []
words (w ∷ ws) = to_le 8 w ++ words ws

abbrev pub footer_fields : SstFooter → List ℕ
footer_fields f =
    f.upper_bound ∷ f.indexed_keys ∷ f.meta_index_entries ∷ f.index_offset ∷ f.meta_index_offset
    ∷ f.qf_offset ∷ f.qf_size ∷ f.footer_offset ∷ f.epoch ∷ f.max_seq_nr ∷ []

module _ (padding : ℕ → List ℕ) where
  unfoldable pub footer_bytes : SstFooter → List ℕ
  footer_bytes f = f.header ++ (f.version ∷ (padding 7 ++ words (footer_fields f)))

-- The word at an index of memory.
abbrev word_at : List ℕ → ℕ → ℕ
word_at bs i = of_le (take 8 (drop (8 * i) bs))

-- `memcpy` into the object.
unfoldable pub footer_of_bytes : List ℕ → SstFooter
footer_of_bytes bs =
    let w = drop 24 bs in
    record {
      header = take 16 bs;
      version = of_le (take 1 (drop 16 bs));
      upper_bound = of_le (take 8 w);
      indexed_keys = of_le (take 8 (drop 8 w));
      meta_index_entries = of_le (take 8 (drop 16 w));
      index_offset = of_le (take 8 (drop 24 w));
      meta_index_offset = of_le (take 8 (drop 32 w));
      qf_offset = of_le (take 8 (drop 40 w));
      qf_size = of_le (take 8 (drop 48 w));
      footer_offset = of_le (take 8 (drop 56 w));
      epoch = of_le (take 8 (drop 64 w));
      max_seq_nr = of_le (take 8 (drop 72 w));
    }
