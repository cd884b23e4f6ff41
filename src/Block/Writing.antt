-- ===== src/Block/Writing.antt =====
-- src/db/block.h: what `block_buffer_writer` writes of a sequence of entries.
use hedge_db.Base.{
  ℕ, ◌+◌, ◌-◌, ◌≤◌, ◌≡◌, refl, ◌⊎◌, inl, inr, List, [], ◌∷◌, ◌++◌, length, some, arith,
}
use hedge_db.Base.Status.{Status, ok, err, error_code, buffer_full}
use hedge_db.Bytes.{contents}
use hedge_db.Base.Bits.{zero-and}
use hedge_db.Key.{Key}
use hedge_db.Block.Encoder.{BlockEncoder, BlockConfig, block_encoder, push, commit, restart_space}
use hedge_db.Block.Sequence.{Entry, last_of}
use hedge_db.Block.Space.{IsOpen, block_encoder-IsOpen, length-restart_entry}
use hedge_db.Block.Push.{push_all, push_all-Run, push-Outcome, IsSized, entry_size, go_on}

module _ (xxh64 : List ℕ → ℕ → ℕ) (cfg : BlockConfig) where
  abbrev pub size : ℕ
  size = cfg.block_size_in_bytes

  -- An encoder that was filled with some entries from a page's memory.
  pub record Filling (kvs : List Entry) (e : BlockEncoder) : Type 0 where
    pub base : List ℕ
    pub whole : length base ≡ size
    pub pushed : push_all xxh64 kvs (block_encoder base cfg) ≡ some e

  -- A page that holds some entries, at least one.
  pub record Stored (page : List ℕ) (kvs : List Entry) : Type 0 where
    pub encoder : BlockEncoder
    pub filling : Filling kvs encoder
    pub committed : page ≡ contents (commit xxh64 encoder).region
    pub some_entry : 1 ≤ length kvs

  abbrev pub StoredAll : List (List ℕ) → List (List Entry) → Type 0
  StoredAll [] [] = Unit {0}
  StoredAll [] (s ∷ ss) = ⊥
  StoredAll (p ∷ ps) [] = ⊥
  StoredAll (p ∷ ps) (s ∷ ss) = Stored p s × StoredAll ps ss

  pub StoredAll-append :
      (ps qs : List (List ℕ)) (ss ts : List (List Entry))
      → StoredAll ps ss
      → StoredAll qs ts
      → StoredAll (ps ++ qs) (ss ++ ts)
  StoredAll-append [] qs [] ts h k = k
  StoredAll-append [] qs (s ∷ ss) ts h k = absurd h
  StoredAll-append (p ∷ ps) qs [] ts h k = absurd h
  StoredAll-append (p ∷ ps) qs (s ∷ ss) ts (h, hs) k = (h, StoredAll-append ps qs ss ts hs k)

  -- An entry that a page has room for, with its offset and the trailer.
  abbrev pub IsFitting : Entry → Type 0
  IsFitting (k, v) = IsSized k × (restart_space k v + 2 + 10 ≤ size)

  push_all-snoc :
      (kvs : List Entry) (k : Key) (v : List ℕ) (e e₁ e₂ : BlockEncoder)
      → push_all xxh64 kvs e ≡ some e₁
      → push xxh64 k v e₁ ≡ (e₂, ok tt)
      → push_all xxh64 (kvs ++ (k, v) ∷ []) e ≡ some e₂
  unfolding push_all
  push_all-snoc [] k v e e₁ e₂ h p = let same : e ≡ e₁ = cc in rw (same, p) refl
  push_all-snoc ((k', v') ∷ kvs) k v e e₁ e₂ h p =
      step (λ e' h'. push_all-snoc kvs k v e' e₁ e₂ h' p) (push xxh64 k' v' e) refl h
    where
      step :
          ((e' : BlockEncoder)
            → push_all xxh64 kvs e' ≡ some e₁
            → push_all xxh64 (kvs ++ (k, v) ∷ []) e' ≡ some e₂)
          → (r : BlockEncoder × Status) → push xxh64 k' v' e ≡ r
          → go_on xxh64 (push_all xxh64 kvs) r ≡ some e₁
          → go_on xxh64 (push_all xxh64 (kvs ++ (k, v) ∷ [])) r ≡ some e₂
      step rest (e', ok u) same h = rest e' h
      step rest (e', err x) same h = cc

  first_size :
      (base : List ℕ) (k : Key) (v : List ℕ)
      → entry_size (block_encoder base cfg) (k, v) ≡ restart_space k v
  first_size base k v = rw (zero-and (cfg.restart_group_size - 1)) (length-restart_entry k v)

  module _ (room : 10 ≤ size) where
    pub opened : (kvs : List Entry) (e : BlockEncoder) → Filling kvs e → IsOpen e
    opened kvs e f =
        (push_all-Run xxh64 kvs (block_encoder f.base cfg)
          (block_encoder-IsOpen f.base cfg f.whole room) f.pushed).opened

    pub last_key-Filling :
        (kvs : List Entry) (e : BlockEncoder) → Filling kvs e → e.last_key ≡ last_of [] kvs
    last_key-Filling kvs e f =
        (push_all-Run xxh64 kvs (block_encoder f.base cfg)
          (block_encoder-IsOpen f.base cfg f.whole room) f.pushed).last_key

    pub cfg-Filling : (kvs : List Entry) (e : BlockEncoder) → Filling kvs e → e.cfg ≡ cfg
    cfg-Filling kvs e f =
        (push_all-Run xxh64 kvs (block_encoder f.base cfg)
          (block_encoder-IsOpen f.base cfg f.whole room) f.pushed).cfg

    pub kvs_count-Filling :
        (kvs : List Entry) (e : BlockEncoder) → Filling kvs e → e.kvs_count ≡ length kvs
    kvs_count-Filling kvs e f = omega (
      arith,
      (push_all-Run xxh64 kvs (block_encoder f.base cfg)
          (block_encoder-IsOpen f.base cfg f.whole room) f.pushed).kvs_count,
    )

    extend :
        (kvs : List Entry) (k : Key) (v : List ℕ) (e e' : BlockEncoder)
        → Filling kvs e
        → push xxh64 k v e ≡ (e', ok tt)
        → Filling (kvs ++ (k, v) ∷ []) e'
    extend kvs k v e e' f p = record {
      base = f.base;
      whole = f.whole;
      pushed = push_all-snoc kvs k v (block_encoder f.base cfg) e e' f.pushed p;
    }

    -- A page that has nothing yet takes an entry that fits.
    pub fresh :
        (base : List ℕ) (k : Key) (v : List ℕ)
        → length base ≡ size
        → IsFitting (k, v)
        → (e : BlockEncoder) × ((push xxh64 k v (block_encoder base cfg) ≡ (e, ok tt))
            × Filling ((k, v) ∷ []) e)
    fresh base k v whole fit =
        elim (push-Outcome xxh64 k v (block_encoder base cfg)
          (block_encoder-IsOpen base cfg whole room)) [
            | inl (bad, refused) ↦ absurd (bad fit.0)
            | inr (inl (sized, full, tight)) ↦
                absurd (omega (arith, tight, fit.1, first_size base k v))
            | inr (inr (e, done, p)) ↦ (
              e,
              (
                done,
                extend [] k v (block_encoder base cfg) e
                    (record { base = base; whole = whole; pushed = unfold push_all in refl }) done,
              ),
            )
          ]

    -- What a push does to a page that is being filled: it is written behind the others, or the page is
    -- committed as it is and has at least one entry.
    abbrev pub Pushing : List Entry → Key → List ℕ → BlockEncoder → Type 0
    Pushing kvs k v e =
        ((e' : BlockEncoder) × ((push xxh64 k v e ≡ (e', ok tt)) × Filling (kvs ++ (k, v) ∷ []) e'))
        ⊎ ((push xxh64 k v e ≡ (commit xxh64 e, err (error_code buffer_full))) × (1 ≤ length kvs))

    pub pushing :
        (kvs : List Entry) (k : Key) (v : List ℕ) (e : BlockEncoder)
        → IsFitting (k, v)
        → Filling kvs e
        → Pushing kvs k v e
    pushing kvs k v e fit f = elim (push-Outcome xxh64 k v e (opened kvs e f)) [
      | inl (bad, refused) ↦ absurd (bad fit.0)
      | inr (inl (sized, full, tight)) ↦ inr (full, some_before kvs f full)
      | inr (inr (e', done, p)) ↦ inl (e', (done, extend kvs k v e e' f done))
    ]
      where
        some_before :
            (kvs : List Entry)
            → Filling kvs e
            → push xxh64 k v e ≡ (commit xxh64 e, err (error_code buffer_full))
            → 1 ≤ length kvs
        some_before [] f full =
            let same : some (block_encoder f.base cfg) ≡ some e = unfold push_all in f.pushed in
            let (e', (done, filled)) = fresh f.base k v f.whole fit in
            absurd (cc (same, full, done))
        some_before (x ∷ xs) f full = omega arith
