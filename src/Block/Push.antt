-- ===== src/Block/Push.antt =====
-- src/db/block.cc: the three outcomes of `block_encoder::push`, and a run of pushes.
use hedge_db.Base.{
  ℕ, ◌+◌, ◌%◌, ◌^◌, ◌≤◌, ◌<◌, ap₂, if◌then◌else◌, length-append, ◌≡◌, refl, sym, ◌∙◌, ap, ◌⊎◌, inl,
  inr, Bool-cases, List, [], ◌∷◌, ◌++◌, length, Bool, true, false, ltb, ◌==◌, ◌||◌, append_assoc,
  append-nil, arith, All, ltb→lt, Option, some, none,
}
use hedge_db.Base.Status.{Status, ok, err, error, error_code, buffer_full}
use hedge_db.Key.{Key}
use hedge_db.Block.Encoder.{
  BlockEncoder, compute_shared_prefix_length, push_as_restart_key, push_as_delta_key, push, commit,
  max_key_len, restart_space, delta_space, with_restart_key, with_delta_key,
}
use hedge_db.Block.Sequence.{is_restart, entry_bytes, all_bytes, restarts, last_of, Entry}
use hedge_db.Block.Space.{
  IsOpen, Pushed, restart-Pushed, delta-Pushed, length-restart_entry, length-delta_entry,
}

abbrev pub IsSized : Key → Type 0
IsSized key = (1 ≤ length key) × (length key ≤ max_key_len)

abbrev pub entry_size : BlockEncoder → Entry → ℕ
entry_size e kv = length (entry_bytes e.cfg.restart_group_size e.kvs_count e.last_key kv)

abbrev pub bad_size : Key → Bool
bad_size key = ltb max_key_len (length key) || (length key == 0)

module _ (xxh64 : List ℕ → ℕ → ℕ) (key : Key) (value : List ℕ) (e : BlockEncoder) where
  -- `push` refuses a key whose size is out of range and changes nothing; or it finds the block too
  -- full, commits it and reports BUFFER_FULL; or it writes the entry.
  abbrev pub Outcome : Type 0
  Outcome =
      ((¬ (IsSized key)) × (push xxh64 key value e ≡ (e, err (error "invalid key size"))))
      ⊎ (IsSized key
          × (push xxh64 key value e ≡ (commit xxh64 e, err (error_code buffer_full)))
          × (e.cfg.block_size_in_bytes < e.bytes_written + entry_size e (key, value) + 2))
      ⊎ ((e' : BlockEncoder) × (push xxh64 key value e ≡ (e', ok tt)) × Pushed key value e e')

  push-restart :
      IsOpen e
      → IsSized key
      → bad_size key ≡ false
      → is_restart e.cfg.restart_group_size e.kvs_count ≡ true
      → Outcome
  unfolding push push_as_restart_key
  push-restart o sized good start =
      elim (Bool-cases
        (ltb e.cfg.block_size_in_bytes (e.bytes_written + restart_space key value + 2))) [
          | inl full ↦ inr (
              inl (
                sized,
                rw (good, start, full) refl,
                rw start (omega (arith, ltb→lt _ _ full, length-restart_entry key value)),
              ))
          | inr room ↦ inr (
              inr (
                with_restart_key key value e,
                rw (good, start, room) refl,
                restart-Pushed key value e o sized start room,
              ))
        ]

  push-delta :
      IsOpen e
      → IsSized key
      → bad_size key ≡ false
      → is_restart e.cfg.restart_group_size e.kvs_count ≡ false
      → Outcome
  unfolding push push_as_delta_key
  push-delta o sized good inner =
      let n = compute_shared_prefix_length e.last_key key in
      elim (Bool-cases
        (ltb e.cfg.block_size_in_bytes (e.bytes_written + delta_space n key value))) [
          | inl full ↦ inr (
              inl (
                sized,
                rw (good, inner, full) refl,
                rw inner (omega (arith, ltb→lt _ _ full, length-delta_entry n key value)),
              ))
          | inr room ↦ inr (
              inr (
                with_delta_key n key value e,
                rw (good, inner, room) refl,
                delta-Pushed key value e o sized inner room,
              ))
        ]

  push-bad : bad_size key ≡ true → push xxh64 key value e ≡ (e, err (error "invalid key size"))
  unfolding push
  push-bad bad = rw bad refl

  bad_size-IsSized : bad_size key ≡ false → IsSized key
  bad_size-IsSized h = ground arith

  bad_size-unsized : bad_size key ≡ true → ¬ (IsSized key)
  bad_size-unsized h s = ground arith

  -- `push` has one of the three outcomes, on every open block.
  pub push-Outcome : IsOpen e → Outcome
  push-Outcome o = elim (Bool-cases (bad_size key)) [
    | inl bad ↦ inl (bad_size-unsized bad, push-bad bad)
    | inr good ↦ elim (Bool-cases (is_restart e.cfg.restart_group_size e.kvs_count)) [
      | inl start ↦ push-restart o (bad_size-IsSized good) good start
      | inr inner ↦ push-delta o (bad_size-IsSized good) good inner
    ]
  ]

  pub push-Pushed :
      {e' : BlockEncoder} → IsOpen e → push xxh64 key value e ≡ (e', ok tt) → Pushed key value e e'
  push-Pushed {e'} o h = elim (push-Outcome o) [
    | inl (bad, refused) ↦ cc
    | inr (inl (sized, full, room)) ↦ cc
    | inr (inr (e₁, done, p)) ↦ rw (ap (λ (r : BlockEncoder × Status). r.0) (sym done ∙ h)) at p
  ]

-- What a run of pushes that succeeds has written behind what the block held.
pub record Run (kvs : List Entry) (e e' : BlockEncoder) : Type 0 where
  pub cfg : e'.cfg ≡ e.cfg
  pub done :
      e'.region.done
      ≡ e.region.done ++ all_bytes e.cfg.restart_group_size e.kvs_count e.last_key kvs
  pub offsets :
      e'.offsets
      ≡ e.offsets
        ++ restarts e.cfg.restart_group_size e.kvs_count (length e.region.done) e.last_key kvs
  pub kvs_count : e'.kvs_count ≡ e.kvs_count + length kvs
  pub last_key : e'.last_key ≡ last_of e.last_key kvs
  pub opened : IsOpen e'
  pub sized : All (λ (kv : Entry). IsSized kv.0) kvs

Run-refl : (e : BlockEncoder) → IsOpen e → Run [] e e
Run-refl e o = record {
  cfg = refl;
  done = sym (append-nil e.region.done);
  offsets = sym (append-nil e.offsets);
  kvs_count = omega arith;
  last_key = refl;
  opened = o;
  sized = tt;
}

append_if :
    (b : Bool) (xs ys : List ℕ) (o : ℕ)
    → (if b then xs ++ o ∷ [] else xs) ++ ys ≡ xs ++ (if b then o ∷ ys else ys)
append_if true xs ys o = append_assoc xs (o ∷ []) ys
append_if false xs ys o = refl

Run-step :
    (k : Key) (v : List ℕ) (kvs : List Entry) (e e₁ e' : BlockEncoder)
    → Pushed k v e e₁
    → Run kvs e₁ e'
    → Run ((k, v) ∷ kvs) e e'
Run-step k v kvs e e₁ e' p r = record {
  cfg = r.cfg ∙ p.cfg;
  done = r.done ∙ rw (p.region, p.cfg, p.kvs_count, p.last_key) (append_assoc e.region.done _ _);
  offsets =
      r.offsets
      ∙ ap₂ (λ (xs ys : List ℕ). xs ++ ys) p.offsets later
      ∙ append_if start e.offsets next (pos % 2 ^ 16);
  kvs_count = omega (arith, r.kvs_count, p.kvs_count);
  last_key = r.last_key ∙ ap (λ (k' : Key). last_of k' kvs) p.last_key;
  opened = r.opened;
  sized = (p.key_size, r.sized);
}
  where
    g : ℕ
    g = e.cfg.restart_group_size

    start : Bool
    start = is_restart g e.kvs_count

    pos : ℕ
    pos = length e.region.done

    next : List ℕ
    next =
        restarts g (e.kvs_count + 1) (pos + length (entry_bytes g e.kvs_count e.last_key (k, v))) k
          kvs

    later :
        restarts e₁.cfg.restart_group_size e₁.kvs_count (length e₁.region.done) e₁.last_key kvs
        ≡ next
    later =
        rw
          (
            p.region,
            p.cfg,
            p.kvs_count,
            p.last_key,
            length-append e.region.done (entry_bytes g e.kvs_count e.last_key (k, v)),
          )
          refl

-- A run of pushes, `none` if one of them fails.
module _ (xxh64 : List ℕ → ℕ → ℕ) where
  abbrev pub go_on :
      (BlockEncoder → Option BlockEncoder) → BlockEncoder × Status → Option BlockEncoder
  go_on next (e, ok u) = next e
  go_on next (e, err x) = none

  unfoldable pub push_all : List Entry → BlockEncoder → Option BlockEncoder
  push_all [] e = some e
  push_all ((k, v) ∷ kvs) e = go_on (push_all kvs) (push xxh64 k v e)

  pub push_all-Run :
      (kvs : List Entry) (e : BlockEncoder) {e' : BlockEncoder}
      → IsOpen e
      → push_all kvs e ≡ some e'
      → Run kvs e e'
  unfolding push_all
  push_all-Run [] e {e'} o h = let same : e' ≡ e = cc in rw same (Run-refl e o)
  push_all-Run ((k, v) ∷ kvs) e {e'} o h = elim (push-Outcome xxh64 k v e o) [
    | inl (bad, refused) ↦ cc (rw refused at h)
    | inr (inl (sized, full, room)) ↦ cc (rw full at h)
    | inr (inr (e₁, done, p)) ↦
        Run-step k v kvs e e₁ e' p (push_all-Run kvs e₁ p.opened (rw done at h))
  ]
