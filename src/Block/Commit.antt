-- ===== src/Block/Commit.antt =====
-- src/db/block.cc: what `commit` leaves in the block.
use hedge_db.Base.{
  ℕ, ◌+◌, ◌*◌, ◌-◌, ◌%◌, ◌^◌, ◌≤◌, ◌<◌, ◌≡◌, refl, sym, take-append, ◌∙◌, ap, ap₂, List, [], ◌∷◌,
  ◌++◌, length, take, drop, append_assoc, append-nil, arith, length-append, length-drop,
  length-take, take-append_less, drop-drop, drop_all,
}
use hedge_db.Bytes.{Region, store, contents, seek, to_le, length-to_le}
use hedge_db.Block.Encoder.{BlockEncoder, BlockConfig, commit, offset_bytes, checksum_of}
use hedge_db.Block.Space.{HasRoom}

pub length-offset_bytes : (os : List ℕ) → length (offset_bytes os) ≡ 2 * length os
unfolding offset_bytes
length-offset_bytes [] = refl
length-offset_bytes (o ∷ os) =
    omega
      (arith, length-append (to_le 2 o) (offset_bytes os), length-to_le 2 o, length-offset_bytes os)

store-store : (xs ys : List ℕ) (r : Region) → store ys (store xs r) ≡ store (xs ++ ys) r
store-store xs ys r =
    ap₂ (λ (d f : List ℕ). record { done = d; free = f }) (append_assoc r.done xs ys)
      (rw (length-append xs ys) (drop-drop (length xs) (length ys) r.free))

-- The bytes in front of the trailer, and the trailer without the checksum, of a block that is
-- committed.
abbrev pub front : BlockEncoder → List ℕ
front e = take (e.cfg.block_size_in_bytes - length e.offsets * 2 - 2 - 8) (contents e.region)

abbrev pub trailer : BlockEncoder → List ℕ
trailer e =
    offset_bytes e.offsets
    ++ (to_le 2 (length e.offsets)
        ++ (to_le 2 (e.kvs_count % 2 ^ 16) ++ to_le 2 e.footer.block_type))

module _ (xxh64 : List ℕ → ℕ → ℕ) (e : BlockEncoder) (o : HasRoom e) where
  pub length-front : length (front e) + 2 * length e.offsets + 10 ≡ e.cfg.block_size_in_bytes
  length-front = omega (
    arith,
    o.room,
    o.whole,
    length-append e.region.done e.region.free,
    length-take (e.cfg.block_size_in_bytes - length e.offsets * 2 - 2 - 8) (contents e.region),
  )

  pub length-trailer : length (trailer e) ≡ 2 * length e.offsets + 6
  length-trailer = omega (
    arith,
    length-append (offset_bytes e.offsets) (
        to_le 2 (length e.offsets)
        ++ (to_le 2 (e.kvs_count % 2 ^ 16) ++ to_le 2 e.footer.block_type)),
    length-append (to_le 2 (length e.offsets))
        (to_le 2 (e.kvs_count % 2 ^ 16) ++ to_le 2 e.footer.block_type),
    length-append (to_le 2 (e.kvs_count % 2 ^ 16)) (to_le 2 e.footer.block_type),
    length-to_le 2 (length e.offsets),
    length-to_le 2 (e.kvs_count % 2 ^ 16),
    length-to_le 2 e.footer.block_type,
    length-offset_bytes e.offsets,
  )

  -- The checksum of the block's bytes in front of it.
  abbrev pub sum : ℕ
  sum = checksum_of xxh64 (front e ++ trailer e) (e.cfg.block_size_in_bytes - 4)

  pub sum-lt : sum < 2 ^ 32
  unfolding checksum_of
  sum-lt = omega arith

  pub checksum_of-more :
      (rest : List ℕ)
      → checksum_of xxh64 ((front e ++ trailer e) ++ rest) (e.cfg.block_size_in_bytes - 4) ≡ sum
  unfolding checksum_of
  checksum_of-more rest =
      rw (take-append_less (e.cfg.block_size_in_bytes - 4) (front e ++ trailer e) rest short) refl
    where
      short : e.cfg.block_size_in_bytes - 4 ≤ length (front e ++ trailer e)
      short = omega (arith, length-append (front e) (trailer e), length-front, length-trailer)

  -- The region at the place of the trailer.
  abbrev at_trailer : Region
  at_trailer = seek (e.cfg.block_size_in_bytes - length e.offsets * 2 - 2 - 8) e.region

  stored_trailer :
      store
        (to_le 2 (e.kvs_count % 2 ^ 16) ++ to_le 2 e.footer.block_type)
        (store (to_le 2 (length e.offsets)) (store (offset_bytes e.offsets) at_trailer))
      ≡ store (trailer e) at_trailer
  stored_trailer =
      ap (store (to_le 2 (e.kvs_count % 2 ^ 16) ++ to_le 2 e.footer.block_type))
        (store-store (offset_bytes e.offsets) (to_le 2 (length e.offsets)) at_trailer)
      ∙ store-store (offset_bytes e.offsets ++ to_le 2 (length e.offsets)) _ at_trailer
      ∙ ap (λ (bs : List ℕ). store bs at_trailer)
          (append_assoc (offset_bytes e.offsets) (to_le 2 (length e.offsets)) _)

  nothing_left :
      (s : ℕ) → drop (length (to_le 4 s)) (drop (length (trailer e)) at_trailer.free) ≡ []
  nothing_left s = drop_all (length (to_le 4 s)) (drop (length (trailer e)) at_trailer.free) (
      omega (
        arith,
        length-to_le 4 s,
        length-trailer,
        length-front,
        length-drop (length (trailer e)) at_trailer.free,
        length-drop (e.cfg.block_size_in_bytes - length e.offsets * 2 - 2 - 8) (contents e.region),
        length-append e.region.done e.region.free,
        o.whole,
      ))

  -- A block that is committed: what the encoder wrote, the trailer, and the checksum of both.
  pub contents-commit : contents (commit xxh64 e).region ≡ (front e ++ trailer e) ++ to_le 4 sum
  unfolding commit
  contents-commit =
      ap
        (λ (w : Region).
          contents
            (store (to_le 4 (checksum_of xxh64 (contents w) (e.cfg.block_size_in_bytes - 4))) w))
        stored_trailer
      ∙ rw (checksum_of-more (drop (length (trailer e)) at_trailer.free), nothing_left sum)
          (append-nil _)

  pub length-page : length (contents (commit xxh64 e).region) ≡ e.cfg.block_size_in_bytes
  length-page = omega (
    arith,
    ap length contents-commit,
    length-append (front e ++ trailer e) (to_le 4 sum),
    length-append (front e) (trailer e),
    length-to_le 4 sum,
    length-front,
    length-trailer,
  )

module _ (xxh64 : List ℕ → ℕ → ℕ) (e : BlockEncoder) (o : HasRoom e) where
  pub commit-HasRoom : HasRoom (commit xxh64 e)
  commit-HasRoom = record {
    room = unfold commit in o.room;
    whole =
        same_size (length-append (commit xxh64 e).region.done (commit xxh64 e).region.free)
          (length-page xxh64 e o);
  }
    where
      same_size :
          {n m : ℕ}
          → n ≡ m
          → n ≡ e.cfg.block_size_in_bytes
          → m ≡ (commit xxh64 e).cfg.block_size_in_bytes
      same_size p q = unfold commit in sym p ∙ q

  -- What `commit` leaves as it is.
  pub commit_fields :
      ((commit xxh64 e).cfg ≡ e.cfg)
      × ((commit xxh64 e).offsets ≡ e.offsets)
      × ((commit xxh64 e).kvs_count ≡ e.kvs_count)
      × ((commit xxh64 e).footer.block_type ≡ e.footer.block_type)
      × ((commit xxh64 e).last_key ≡ e.last_key)
  unfolding commit
  commit_fields = (refl, refl, refl, refl, refl)

  abbrev twice : BlockEncoder
  twice = commit xxh64 e

  front-commit : front twice ≡ front e
  front-commit =
      let (c, n, k, b, l) = commit_fields in
      let size = e.cfg.block_size_in_bytes - length e.offsets * 2 - 2 - 8 in
      ap₂ (λ (s m : ℕ). take (s - m * 2 - 2 - 8) (contents twice.region))
        (ap (λ (x : BlockConfig). x.block_size_in_bytes) c) (ap length n)
      ∙ ap (take size)
          (contents-commit xxh64 e o ∙ append_assoc (front e) (trailer e) (to_le 4 (sum xxh64 e o)))
      ∙ take-append size (front e) (trailer e ++ to_le 4 (sum xxh64 e o))
          (omega (arith, length-front xxh64 e o))

  trailer-commit : trailer twice ≡ trailer e
  trailer-commit = let (c, n, k, b, l) = commit_fields in rw (n, k, b) refl

  -- A block that is committed again stays as it is.
  pub contents-commit-commit : contents (commit xxh64 twice).region ≡ contents twice.region
  contents-commit-commit =
      contents-commit xxh64 twice commit-HasRoom
      ∙ ap₂ (λ (bs : List ℕ) (size : ℕ). bs ++ to_le 4 (checksum_of xxh64 bs (size - 4)))
          (ap₂ (λ (xs ys : List ℕ). xs ++ ys) front-commit trailer-commit)
          (ap (λ (x : BlockConfig). x.block_size_in_bytes) commit_fields.0)
      ∙ sym (contents-commit xxh64 e o)
