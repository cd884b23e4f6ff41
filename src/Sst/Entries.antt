-- ===== src/Sst/Entries.antt =====
-- src/db/index_ops.cc: `_write_index` writes the newest version of every key.
use hedge_db.Base.{
  ℕ, ◌≤◌, ◌≡◌, refl, sym, ◌∙◌, ap, max, inl, inr, List, [], ◌∷◌, ◌++◌, length, append_assoc,
  append-nil, true, false, Option, some, none, All, Bool-cases, arith, map,
}
use mathlib.Core.Path.{subst}
use hedge_db.Base.Status.{Expected, ok, ◌>>=◌}
use hedge_db.Key.{Key}
use hedge_db.Memtable.Entry.{MemtableEntry}
use hedge_db.Memtable.Drain.{firsts, firsts_after}
use hedge_db.Block.Encoder.{BlockConfig}
use hedge_db.Block.Sequence.{Entry}
use hedge_db.Block.Writing.{IsFitting}
use hedge_db.Sst.File.{FileOps, FileView}
use hedge_db.Sst.WriteBuffer.{MetaIndex}
use hedge_db.Sst.WriteIndex.{
  IndexState, try_item, or_flush, retried, write_entry, write_entries, insert_qf, same_as_prev,
}
use hedge_db.Sst.Written.{Written, Frame, flush_index-Written, try_item-Attempt}

-- The entries that are written, where `prev` is the key written last: the first one of each key.
abbrev pub newest : Option Key → List MemtableEntry → List MemtableEntry
newest none its = firsts its
newest (some k) its = firsts_after k its

newest-nil : (p : Option Key) → newest p [] ≡ []
newest-nil none = refl
newest-nil (some k) = refl

newest-skip :
    (p : Option Key) (it : MemtableEntry) (its : List MemtableEntry)
    → same_as_prev p it.key ≡ true
    → newest p (it ∷ its) ≡ newest p its
newest-skip none it its h = absurd (cc)
newest-skip (some k) it its h = rw h refl

newest-take :
    (p : Option Key) (it : MemtableEntry) (its : List MemtableEntry)
    → same_as_prev p it.key ≡ false
    → newest p (it ∷ its) ≡ it ∷ newest (some it.key) its
newest-take none it its h = refl
newest-take (some k) it its h = rw h refl

abbrev pub entry_of : MemtableEntry → Entry
entry_of it = (it.key, it.value)

abbrev pub max_seq : ℕ → List MemtableEntry → ℕ
max_seq n [] = n
max_seq n (it ∷ its) = max_seq (max n it.seq) its

module _ {F Q : Type 0} (ops : FileOps F) (view : FileView ops) (xxh64 : List ℕ → ℕ → ℕ)
    (insert : Key → Q → Q) (cfg : BlockConfig) (room : 10 ≤ cfg.block_size_in_bytes)
    (meta : MetaIndex) where
  abbrev pub filter_of : Option Q → List MemtableEntry → Option Q
  filter_of q [] = q
  filter_of q (it ∷ its) = filter_of (insert_qf ops xxh64 insert it.key q) its

  abbrev pub IsWritten : List Entry → IndexState F Q → Type 0
  IsWritten = Written ops view xxh64 insert cfg room meta

  abbrev pub Same : IndexState F Q → IndexState F Q → Type 0
  Same = Frame ops view xxh64 insert cfg room meta

  -- An entry that fits a page is written, at the second call of `write_item` at the latest.
  or_flush-Written :
      (kvs : List Entry) (k : Key) (v : List ℕ) (s : IndexState F Q)
      → IsFitting xxh64 cfg (k, v)
      → IsWritten kvs s
      → (s' : IndexState F Q) × ((or_flush ops xxh64 insert k v (try_item ops xxh64 insert k v s)
            ≡ ok s')
          × (Same s s' × IsWritten (kvs ++ (k, v) ∷ []) s'))
  or_flush-Written kvs k v s fit c =
      elim (try_item-Attempt ops view xxh64 insert cfg room meta kvs k v fit s c) [
        | inl (s', (same, (frame, w))) ↦ (s', (ap (or_flush ops xxh64 insert k v) same, (frame, w)))
        | inr (s₁, (e, (full, (frame, (closed, some_entry))))) ↦
            let (s₂, (flushed, (frame', (w, nothing)))) =
              flush_index-Written ops view xxh64 insert cfg room meta kvs s₁ closed in
            elim (try_item-Attempt ops view xxh64 insert cfg room meta kvs k v fit s₂ w) [
              | inl (s', (same, (frame'', w'))) ↦ (
                s',
                (
                  ap (or_flush ops xxh64 insert k v) full
                      ∙ ap
                          (λ (r : Expected (IndexState F Q)). r >>= λ (x : IndexState F Q).
                            retried ops xxh64 insert (try_item ops xxh64 insert k v x))
                          flushed
                      ∙ ap (retried ops xxh64 insert) same,
                  (
                    (
                      frame''.0 ∙ frame'.0 ∙ frame.0,
                      frame''.1 ∙ frame'.1 ∙ frame.1,
                      frame''.2 ∙ frame'.2 ∙ frame.2,
                    ),
                    w',
                  ),
                ),
              )
              | inr (s', (e', (full', (frame'', (closed', still))))) ↦
                  absurd (omega (arith, ap length nothing, still))
            ]
      ]

  -- The whole of the loop.
  pub record Result (kvs : List Entry) (s : IndexState F Q) (its : List MemtableEntry)
      (s' : IndexState F Q) : Type 0 where
    pub written : IsWritten (kvs ++ map entry_of its) s'
    pub qf : s'.qf ≡ filter_of s.qf its
    pub seq : s'.max_seq_nr ≡ max_seq s.max_seq_nr its

  prepared : MemtableEntry → IndexState F Q → IndexState F Q
  prepared it s = record s {
    prev_key = some it.key;
    max_seq_nr = max s.max_seq_nr it.seq;
    qf = insert_qf ops xxh64 insert it.key s.qf;
  }

  prepared-Written :
      (kvs : List Entry) (it : MemtableEntry) (s : IndexState F Q)
      → IsWritten kvs s
      → IsWritten kvs (prepared it s)
  unfolding prepared
  prepared-Written kvs it s w = record {
    done = w.done;
    segs = w.segs;
    cur = w.cur;
    on_file = record {
      file_pages = w.on_file.file_pages;
      stored = w.on_file.stored;
      sizes = w.on_file.sizes;
      content = w.on_file.content;
      offset = w.on_file.offset;
    };
    writing = w.writing;
    started = w.started;
    last_keys = w.last_keys;
    entries = w.entries;
    counted = w.counted;
  }

  write_entries-cons :
      (it : MemtableEntry) (its : List MemtableEntry) (s s' : IndexState F Q)
      → write_entry ops xxh64 insert it s ≡ ok s'
      → write_entries ops xxh64 insert (it ∷ its) s ≡ write_entries ops xxh64 insert its s'
  unfolding write_entries
  write_entries-cons it its s s' h =
      ap (λ (r : Expected (IndexState F Q)). r >>= write_entries ops xxh64 insert its) h

  Written-entries :
      (kvs kvs' : List Entry) (s : IndexState F Q) → kvs ≡ kvs' → IsWritten kvs s → IsWritten kvs' s
  Written-entries kvs kvs' s h w = subst (λ (es : List Entry). IsWritten es s) h w

  write_entry-skip :
      (it : MemtableEntry) (s : IndexState F Q)
      → same_as_prev s.prev_key it.key ≡ true
      → write_entry ops xxh64 insert it s ≡ ok s
  unfolding write_entry
  write_entry-skip it s h = rw h refl

  write_entry-take :
      (it : MemtableEntry) (s : IndexState F Q)
      → same_as_prev s.prev_key it.key ≡ false
      → write_entry ops xxh64 insert it s
        ≡ or_flush ops xxh64 insert it.key it.value
            (try_item ops xxh64 insert it.key it.value (prepared it s))
  unfolding write_entry prepared
  write_entry-take it s h = rw h refl

  pub write_entries-Result :
      (its : List MemtableEntry) (kvs : List Entry) (s : IndexState F Q)
      → All (λ (it : MemtableEntry). IsFitting xxh64 cfg (entry_of it)) its
      → IsWritten kvs s
      → (s' : IndexState F Q) × ((write_entries ops xxh64 insert its s ≡ ok s')
          × Result kvs s (newest s.prev_key its) s')
  unfolding prepared
  write_entries-Result [] kvs s h w = (
    s,
    (
      unfold write_entries in refl,
      subst (λ (its : List MemtableEntry). Result kvs s its s) (sym (newest-nil s.prev_key))
          (record {
            written = Written-entries kvs (kvs ++ []) s (sym (append-nil kvs)) w;
            qf = refl;
            seq = refl;
          }),
    ),
  )
  write_entries-Result (it ∷ its) kvs s (h, hs) w =
      elim (Bool-cases (same_as_prev s.prev_key it.key)) [
        | inl same ↦
            let (s', (done, r)) = write_entries-Result its kvs s hs w in
            (
              s',
              (
                write_entries-cons it its s s (write_entry-skip it s same) ∙ done,
                subst (λ (es : List MemtableEntry). Result kvs s es s')
                    (sym (newest-skip s.prev_key it its same)) r,
              ),
            )
        | inr other ↦
            let (s₁, (stepped, (frame, w₁))) =
              or_flush-Written kvs it.key it.value (prepared it s) h
                (prepared-Written kvs it s w) in
            let (s', (done, r)) = write_entries-Result its (kvs ++ entry_of it ∷ []) s₁ hs w₁ in
            let rest = newest (some it.key) its in
            let r' : Result (kvs ++ entry_of it ∷ []) s₁ rest s' =
              subst (λ (p : Option Key). Result (kvs ++ entry_of it ∷ []) s₁ (newest p its) s')
                frame.1 r in
            (
              s',
              (
                write_entries-cons it its s s₁ (write_entry-take it s other ∙ stepped) ∙ done,
                subst (λ (es : List MemtableEntry). Result kvs s es s')
                    (sym (newest-take s.prev_key it its other))
                    (record {
                      written =
                          Written-entries _ _ s'
                            (append_assoc kvs (entry_of it ∷ []) (map entry_of rest)) r'.written;
                      qf = r'.qf ∙ ap (λ (q : Option Q). filter_of q rest) frame.0;
                      seq = r'.seq ∙ ap (λ (n : ℕ). max_seq n rest) frame.2;
                    }),
              ),
            )
      ]
