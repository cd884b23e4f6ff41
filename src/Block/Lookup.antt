-- ===== src/Block/Lookup.antt =====
-- src/db/block.cc: the choice of the group in `block_decoder::find`, and what it finds.
use hedge_db.Base.{
  ℕ, suc, ◌+◌, ◌*◌, ◌%◌, ◌^◌, ◌≤◌, ◌<◌, ◌≡◌, refl, sym, ◌∙◌, ap, ap₂, ◌⊎◌, inl, inr, Bool-cases,
  List, [], ◌∷◌, ◌++◌, length, take, drop, true, false, append_assoc, arith, length-append,
  length-drop, take-append, drop-append, drop-drop, All,
}
use native.Mathlib.Nat.{mod-eq_of_lt, add-mul}
use mathlib.Core.Path.{subst}
use hedge_db.Key.{Key, key_lt, decode_key_size, encode_key_size, decode-encode_key_size}
use hedge_db.Varint.{unsafe_varint}
use hedge_db.Block.Iterator.{block_iterator, first_byte}
use hedge_db.Block.Decoder.{key_at, upper_bound, nth_offset, find_in_group}
use hedge_db.Block.Sequence.{last_of, Entry, IsStorable, all_bytes, restarts}
use hedge_db.Block.Groups.{all_bytes-append, restarts-append, is_restart-first, restarts-group}
use hedge_db.Block.Search.{lookup, find_in_group-lookup}
use hedge_db.Block.Find.{
  Ascending, lookup-left, lookup-right, Avoids-above, Avoids-below, Ascending-right, All-left,
  All-right, join, IsGrouped,
}

module _ (w : ℕ) (base : List ℕ) (key : Key) (count : ℕ) (behind : List ℕ) where
  abbrev pub g : ℕ
  g = 2 ^ w

  -- A group's first entry holds its whole key, whatever stands in front of it.
  all_bytes-start :
      (n : ℕ) (prev prev' k : Key) (v : List ℕ) (kvs : List Entry)
      → all_bytes g (n * g) prev ((k, v) ∷ kvs) ≡ all_bytes g (n * g) prev' ((k, v) ∷ kvs)
  all_bytes-start n prev prev' k v kvs = rw (is_restart-first w n) refl

  pub key_at-first :
      (n pos : ℕ) (prev k : Key) (v : List ℕ) (kvs : List Entry)
      → IsStorable (k, v)
      → drop pos base ≡ all_bytes g (n * g) prev ((k, v) ∷ kvs) ++ behind
      → key_at base pos ≡ k
  unfolding key_at
  key_at-first n pos prev k v kvs s at =
      let rest = (unsafe_varint (length v) ++ v) ++ (all_bytes g (n * g + 1) k kvs ++ behind) in
      let start : drop pos base ≡ encode_key_size (length k) ∷ (k ++ rest) =
        at ∙ rw (is_restart-first w n) (simp append_assoc) in
      let tail : drop (pos + 1) base ≡ k ++ rest = sym (drop-drop pos 1 base) ∙ ap (drop 1) start in
      ap₂ (λ (m : ℕ) (bs : List ℕ). take m bs)
        (ap (λ (bs : List ℕ). decode_key_size (first_byte bs)) start
          ∙ decode-encode_key_size (length k) s.0 (omega (arith, s)))
        tail
      ∙ take-append (length k) k rest refl

  -- The group of a number, read from its place.
  find_in_first :
      (gs : List (List Entry)) (n pos : ℕ) (prev k : Key) (v : List ℕ) (c : List Entry)
      → IsGrouped g (((k, v) ∷ c) ∷ gs)
      → All IsStorable (((k, v) ∷ c) ++ join gs)
      → drop pos base ≡ all_bytes g (n * g) prev (((k, v) ∷ c) ++ join gs) ++ behind
      → count ≡ n * g + length (((k, v) ∷ c) ++ join gs)
      → find_in_group (g + 2) key (block_iterator (drop pos base) (n * g) count g)
        ≡ lookup key ((k, v) ∷ c)
  unfolding block_iterator
  find_in_first gs n pos prev k v c (some', short, full, rest) ok at counted =
      let group = (k, v) ∷ c in
      let total = length-append group (join gs) in
      find_in_group-lookup group (join gs) (g + 2) key behind _
        (All-left IsStorable group (join gs) ok)
        (at ∙ ap (λ (bs : List ℕ). bs ++ behind) (all_bytes-start n prev [] k v (c ++ join gs)))
        (omega arith) (omega (arith, total)) (ends full) (omega arith)
    where
      ends :
          (length ((k, v) ∷ c) ≡ g) ⊎ (gs ≡ [])
          → (n * g + g ≤ n * g + length ((k, v) ∷ c)) ⊎ (count ≤ n * g + length ((k, v) ∷ c))
      ends (inl full) = inl (omega arith)
      ends (inr last) = inr (
          omega (
            arith,
            counted,
            length-append ((k, v) ∷ c) (join gs),
            ap (λ (r : List (List Entry)). length (join r)) last,
          ))

  -- The offsets of the groups behind a group.
  abbrev pub offsets_behind : ℕ → ℕ → Key → List Entry → List (List Entry) → List ℕ
  offsets_behind n pos prev c gs =
      restarts g (n * g + g) (pos + length (all_bytes g (n * g) prev c)) (last_of prev c) (join gs)

  pub offsets-split :
      (gs : List (List Entry)) (n pos : ℕ) (prev k : Key) (v : List ℕ) (c : List Entry)
      → IsGrouped g (((k, v) ∷ c) ∷ gs)
      → restarts g (n * g) pos prev (((k, v) ∷ c) ++ join gs)
        ≡ (pos % 2 ^ 16) ∷ offsets_behind n pos prev ((k, v) ∷ c) gs
  offsets-split gs n pos prev k v c (some', short, full, rest) =
      restarts-append g (n * g) pos prev ((k, v) ∷ c) (join gs)
      ∙ ap₂ (λ (xs ys : List ℕ). xs ++ ys) (restarts-group w n pos prev k v c (omega arith))
          (by_size full)
    where
      later : ℕ → List (List Entry) → List ℕ
      later i gs =
          restarts g i (pos + length (all_bytes g (n * g) prev ((k, v) ∷ c)))
            (last_of prev ((k, v) ∷ c)) (join gs)

      by_size :
          (length ((k, v) ∷ c) ≡ g) ⊎ (gs ≡ [])
          → later (n * g + length ((k, v) ∷ c)) gs ≡ later (n * g + g) gs
      by_size (inl full) = ap (λ (i : ℕ). later (n * g + i) gs) full
      by_size (inr last) =
          ap (later (n * g + length ((k, v) ∷ c))) last ∙ sym (ap (later (n * g + g)) last)

  bytes_pos :
      (n : ℕ) (prev k : Key) (v : List ℕ) (kvs : List Entry)
      → 1 ≤ length (all_bytes g (n * g) prev ((k, v) ∷ kvs) ++ behind)
  bytes_pos n prev k v kvs = rw (is_restart-first w n) (omega arith)

  -- The entries behind a full group stand behind its bytes.
  drop-group :
      (n pos : ℕ) (prev : Key) (c kvs : List Entry)
      → length c ≡ g
      → drop pos base ≡ all_bytes g (n * g) prev (c ++ kvs) ++ behind
      → drop (pos + length (all_bytes g (n * g) prev c)) base
        ≡ all_bytes g ((n + 1) * g) (last_of prev c) kvs ++ behind
  drop-group n pos prev c kvs full at =
      let front = all_bytes g (n * g) prev c in
      let back = all_bytes g (n * g + length c) (last_of prev c) kvs in
      sym (drop-drop pos (length front) base)
      ∙ ap (drop (length front)) (
          at
          ∙ ap (λ (bs : List ℕ). bs ++ behind) (all_bytes-append g (n * g) prev c kvs)
          ∙ append_assoc front back behind)
      ∙ drop-append (length front) front (back ++ behind) refl
      ∙ ap (λ (i : ℕ). all_bytes g i (last_of prev c) kvs ++ behind) (next_start n ∙ refl)
    where
      next_start : (m : ℕ) → m * g + length c ≡ (m + 1) * g
      next_start m = omega (arith, full, add-mul m 1 g)

  unfoldable pub found_at : ℕ → ℕ → List ℕ
  found_at offset idx = find_in_group (g + 2) key (block_iterator (drop offset base) idx count g)

  unfoldable pub found_from : ℕ → ℕ → List ℕ → List ℕ
  found_from n offset os =
      found_at (nth_offset (upper_bound base key os) (offset ∷ os))
        ((n + upper_bound base key os) * g)

  found_from-here :
      (n pos : ℕ) (os : List ℕ)
      → pos < 2 ^ 16
      → upper_bound base key os ≡ 0
      → found_from n (pos % 2 ^ 16) os ≡ found_at pos (n * g)
  unfolding found_from
  found_from-here n pos os small h =
      ap (λ (u : ℕ). found_at (nth_offset u ((pos % 2 ^ 16) ∷ os)) ((n + u) * g)) h
      ∙ ap (λ (p : ℕ). found_at p ((n + 0) * g)) (mod-eq_of_lt small)
      ∙ ap (λ (m : ℕ). found_at pos (m * g)) {x = n + 0} (omega arith)

  found_from-later :
      (n pos o : ℕ) (os : List ℕ)
      → upper_bound base key (o ∷ os) ≡ suc (upper_bound base key os)
      → found_from n pos (o ∷ os) ≡ found_from (n + 1) o os
  unfolding found_from
  found_from-later n pos o os h =
      ap (λ (u : ℕ). found_at (nth_offset u (pos ∷ o ∷ os)) ((n + u) * g)) h
      ∙ ap (λ (m : ℕ). found_at (nth_offset (upper_bound base key os) (o ∷ os)) (m * g))
          {x = n + suc (upper_bound base key os)} (omega arith)

  abbrev pub Chosen : ℕ → ℕ → List ℕ → List Entry → Type 0
  Chosen n pos os kvs = found_from n (pos % 2 ^ 16) os ≡ lookup key kvs

  pub upper_bound-first :
      (o : ℕ) (os : List ℕ) (k : Key)
      → key_at base o ≡ k
      → key_lt key k ≡ true
      → upper_bound base key (o ∷ os) ≡ 0
  unfolding upper_bound
  upper_bound-first o os k e h = rw (e, h) refl

  pub upper_bound-later :
      (o : ℕ) (os : List ℕ) (k : Key)
      → key_at base o ≡ k
      → key_lt key k ≡ false
      → upper_bound base key (o ∷ os) ≡ suc (upper_bound base key os)
  unfolding upper_bound
  upper_bound-later o os k e h = rw (e, h) refl

  pub place-lt :
      (pos : ℕ) (bs : List ℕ)
      → drop pos base ≡ bs
      → 1 ≤ length bs
      → length base ≤ 2 ^ 16
      → pos < 2 ^ 16
  place-lt pos bs e h k = omega (arith, ap length e, length-drop pos base)

  -- The group that `upper_bound` leads to has the key's value, if any group from here on has it.
  pub pick :
      (gs : List (List Entry)) (n pos : ℕ) (prev k : Key) (v : List ℕ) (c : List Entry)
      → IsGrouped g (((k, v) ∷ c) ∷ gs)
      → Ascending (((k, v) ∷ c) ++ join gs)
      → All IsStorable (((k, v) ∷ c) ++ join gs)
      → drop pos base ≡ all_bytes g (n * g) prev (((k, v) ∷ c) ++ join gs) ++ behind
      → length base ≤ 2 ^ 16
      → count ≡ n * g + length (((k, v) ∷ c) ++ join gs)
      → key_lt key k ≡ false
      → Chosen n pos (offsets_behind n pos prev ((k, v) ∷ c) gs) (((k, v) ∷ c) ++ join gs)
  unfolding upper_bound found_at
  pick [] n pos prev k v c grouped asc ok at size counted h =
      found_from-here n pos [] (place-lt pos _ at (bytes_pos n prev k v (c ++ [])) size) refl
      ∙ find_in_first [] n pos prev k v c grouped ok at counted
      ∙ sym (lookup-left key ((k, v) ∷ c) [] tt)
  pick ([] ∷ gs) n pos prev k v c (some', short, full, (empty, short', full', rest)) asc ok at size
        counted h =
      absurd (omega arith)
  pick (((kd, vd) ∷ d) ∷ gs) n pos prev k v c grouped asc ok at size counted h =
      let group = (k, v) ∷ c in
      let next = ((kd, vd) ∷ d) ++ join gs in
      let full : length group ≡ g = is_full grouped.2 in
      let pos' = pos + length (all_bytes g (n * g) prev group) in
      let prev' = last_of prev group in
      let at' : drop pos' base ≡ all_bytes g ((n + 1) * g) prev' next ++ behind =
        drop-group n pos prev group next full at in
      let small' = place-lt pos' _ at' (bytes_pos (n + 1) prev' kd vd (d ++ join gs)) size in
      let later = offsets_behind (n + 1) pos' prev' ((kd, vd) ∷ d) gs in
      let split : offsets_behind n pos prev group (((kd, vd) ∷ d) ∷ gs) ≡ (pos' % 2 ^ 16) ∷ later =
        ap (λ (i : ℕ). restarts g i pos' prev' next) (sym (next_start n))
        ∙ offsets-split gs (n + 1) pos' prev' kd vd d grouped.3 in
      let first : key_at base (pos' % 2 ^ 16) ≡ kd =
        ap (key_at base) (mod-eq_of_lt small')
        ∙ key_at-first (n + 1) pos' prev' kd vd (d ++ join gs)
            (All-right IsStorable group next ok).0 at' in
      subst (λ (os : List ℕ). Chosen n pos os (group ++ next)) (sym split)
        (elim (Bool-cases (key_lt key kd)) [
          | inl below ↦
              found_from-here n pos ((pos' % 2 ^ 16) ∷ later)
                (place-lt pos _ at (bytes_pos n prev k v (c ++ next)) size)
                (upper_bound-first _ later kd first below)
              ∙ find_in_first (((kd, vd) ∷ d) ∷ gs) n pos prev k v c grouped ok at counted
              ∙ sym (
                  lookup-left key group next
                    (Avoids-above key kd vd (d ++ join gs) below (Ascending-right group next asc)))
          | inr above ↦
              found_from-later n (pos % 2 ^ 16) (pos' % 2 ^ 16) later
                (upper_bound-later _ later kd first above)
              ∙ pick gs (n + 1) pos' prev' kd vd d grouped.3 (Ascending-right group next asc)
                  (All-right IsStorable group next ok) at' size
                  (omega (arith, counted, length-append group next, full, next_start n)) above
              ∙ sym (
                  lookup-right key group next
                    (Avoids-below key kd vd group (d ++ join gs) above asc))
        ])
    where
      is_full : (length ((k, v) ∷ c) ≡ g) ⊎ ((((kd, vd) ∷ d) ∷ gs) ≡ []) → length ((k, v) ∷ c) ≡ g
      is_full (inl full) = full
      is_full (inr last) = absurd (omega (arith, ap length last))

      next_start : (m : ℕ) → (m + 1) * g ≡ m * g + g
      next_start m = omega (arith, add-mul m 1 g)
