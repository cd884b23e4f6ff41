-- ===== src/Sst/Table.antt =====
-- src/db/index_ops.cc: the table that `_write_index` leaves in the file.
use hedge_db.Base.{
  ℕ, ◌≤◌, ◌≡◌, refl, sym, ◌∙◌, ap, ap₂, inl, inr, List, [], ◌∷◌, ◌++◌, length, append_assoc,
  append-nil, Bool, true, false, ◌&&◌, Option, none, All, ◌==◌, arith, map,
}
use mathlib.Core.Path.{subst}
use hedge_db.Base.Status.{Expected, ok, ◌>>=◌}
use hedge_db.Key.{Key, write_key_unsafe}
use hedge_db.Memtable.Entry.{MemtableEntry}
use hedge_db.Memtable.Drain.{firsts}
use hedge_db.Block.Encoder.{BlockConfig}
use hedge_db.Block.Sequence.{Entry, last_of}
use hedge_db.Block.Push.{push_all}
use hedge_db.Block.Find.{join}
use hedge_db.Block.Writer.{empty, is_empty}
use hedge_db.Block.Writing.{StoredAll, IsFitting, last_key-Filling, kvs_count-Filling}
use hedge_db.Block.WriterSteps.{IsPage, Writing-IsFlushable}
use hedge_db.Sst.File.{FileOps, FileView, Holds, concat}
use hedge_db.Sst.WriteBuffer.{
  MetaIndex, merge_write_buffer, empty_meta_index, append_meta_index_key, add_last_key,
  buffer_empty,
}
use hedge_db.Sst.WriteIndex.{IndexState, flush_remaining, write_index}
use hedge_db.Sst.Written.{
  Written, Closed, Frame, meta_after, meta_after-append, join-append, flush_index-Written,
}
use hedge_db.Sst.Entries.{entry_of, max_seq, filter_of, write_entries-Result}

abbrev pub last_key : List Entry → Key
last_key es = last_of [] es

meta_after-keys :
    (m : MetaIndex) (segs : List (List Entry))
    → (meta_after m segs).keys ≡ m.keys ++ map last_key segs
meta_after-keys m [] = sym (append-nil m.keys)
meta_after-keys m (s ∷ ss) =
    meta_after-keys (add_last_key (last_key s) m) ss
    ∙ append_assoc m.keys (last_key s ∷ []) (map last_key ss)

meta_after-encoded :
    (m : MetaIndex) (segs : List (List Entry))
    → (meta_after m segs).encoded ≡ m.encoded ++ concat (map write_key_unsafe (map last_key segs))
unfolding append_meta_index_key
meta_after-encoded m [] = sym (append-nil m.encoded)
meta_after-encoded m (s ∷ ss) =
    meta_after-encoded (add_last_key (last_key s) m) ss
    ∙ append_assoc m.encoded (write_key_unsafe (last_key s))
        (concat (map write_key_unsafe (map last_key ss)))

both_false : (a b : Bool) → b ≡ false → (a && b) ≡ false
both_false true b h = h
both_false false b h = refl

not_zero : (n : ℕ) → 1 ≤ n → (n == 0) ≡ false
not_zero n h = ground arith

no_pages :
    (xxh64 : List ℕ → ℕ → ℕ) (cfg : BlockConfig) (ps : List (List ℕ))
    → StoredAll xxh64 cfg ps []
    → ps ≡ []
no_pages xxh64 cfg [] h = refl
no_pages xxh64 cfg (p ∷ ps) h = absurd h

module _ {F Q : Type 0} (ops : FileOps F) (view : FileView ops) (xxh64 : List ℕ → ℕ → ℕ)
    (insert : Key → Q → Q) (cfg : BlockConfig) (room : 10 ≤ cfg.block_size_in_bytes) where
  -- A table in a file: pages that hold sequences of entries, a meta index of the last key of each
  -- page, and the number of entries.
  pub record Table (kvs : List Entry) (s : IndexState F Q) : Type 0 where
    pub pages : List (List ℕ)
    pub segs : List (List Entry)
    pub stored : StoredAll xxh64 cfg pages segs
    pub sizes : All (IsPage xxh64 cfg room) pages
    pub content : Holds ops view s.file (concat pages)
    pub entries : join segs ≡ kvs
    pub keys : s.meta_index.keys ≡ map last_key segs
    pub encoded : s.meta_index.encoded ≡ concat (map write_key_unsafe s.meta_index.keys)
    pub bytes_written : s.bytes_written ≡ length (concat pages)
    pub counted : s.write_buffer.indexed_kvs ≡ length kvs

  module _ (kvs : List Entry) (s : IndexState F Q)
      (w : Written ops view xxh64 insert cfg room empty_meta_index kvs s) where
    table : w.cur ≡ [] → w.segs ≡ [] → Table kvs s
    table h k =
        let keys =
          w.last_keys
          ∙ ap (meta_after empty_meta_index)
              (ap (λ (ss : List (List Entry)). w.done ++ ss) k ∙ append-nil w.done) in
        record {
          pages = w.on_file.file_pages;
          segs = w.done;
          stored = w.on_file.stored;
          sizes = w.on_file.sizes;
          content = w.on_file.content;
          entries =
              sym (
                ap₂ (λ (ss : List (List Entry)) (c : List Entry). join (w.done ++ ss) ++ c) k h
                ∙ append-nil _
                ∙ ap join (append-nil w.done))
              ∙ w.entries;
          keys = ap (λ (m : MetaIndex). m.keys) keys ∙ meta_after-keys empty_meta_index w.done;
          encoded =
              ap (λ (m : MetaIndex). m.encoded) keys
              ∙ meta_after-encoded empty_meta_index w.done
              ∙ ap (λ (ks : List Key). concat (map write_key_unsafe ks))
                  (sym (
                    ap (λ (m : MetaIndex). m.keys) keys ∙ meta_after-keys empty_meta_index w.done));
          bytes_written = w.on_file.offset;
          counted = w.counted;
        }

    buffer_empty-false : 1 ≤ length w.cur → buffer_empty s.write_buffer ≡ false
    unfolding buffer_empty empty
    buffer_empty-false some_entry =
        both_false (is_empty s.write_buffer.block_writer.filled)
          (s.write_buffer.block_writer.encoder.kvs_count == 0)
          (not_zero s.write_buffer.block_writer.encoder.kvs_count (
            omega (
              arith,
              kvs_count-Filling xxh64 cfg room w.cur s.write_buffer.block_writer.encoder
                  w.writing.current,
            )))

    buffer_empty-true : w.segs ≡ [] → w.cur ≡ [] → buffer_empty s.write_buffer ≡ true
    unfolding buffer_empty empty
    buffer_empty-true h k =
        let pages : s.write_buffer.block_writer.filled ≡ [] =
          no_pages xxh64 cfg _
            (subst (StoredAll xxh64 cfg s.write_buffer.block_writer.filled) h w.writing.pages) in
        let count : s.write_buffer.block_writer.encoder.kvs_count ≡ 0 =
          kvs_count-Filling xxh64 cfg room w.cur s.write_buffer.block_writer.encoder
            w.writing.current
          ∙ ap length k in
        rw (pages, count) refl

    closing : IndexState F Q
    closing = record s {
      meta_index = add_last_key s.write_buffer.block_writer.encoder.last_key s.meta_index;
    }

    closing-Closed :
        1 ≤ length w.cur → Closed ops view xxh64 insert cfg room empty_meta_index kvs closing
    unfolding closing
    closing-Closed some_entry = record {
      done = w.done;
      segs = w.segs;
      cur = w.cur;
      on_file = record {
        file_pages = w.on_file.file_pages;
        stored = w.on_file.stored;
        sizes = w.on_file.sizes;
        content = w.on_file.content;
        offset = w.on_file.offset;
      };
      flushable =
          Writing-IsFlushable xxh64 cfg room w.segs w.cur s.write_buffer.block_writer w.writing
            some_entry;
      last_keys =
          ap₂ add_last_key
            (last_key-Filling xxh64 cfg room w.cur s.write_buffer.block_writer.encoder
              w.writing.current)
            w.last_keys
          ∙ sym (meta_after-append empty_meta_index (w.done ++ w.segs) (w.cur ∷ []))
          ∙ ap (meta_after empty_meta_index) (append_assoc w.done w.segs (w.cur ∷ []));
      entries =
          ap join (sym (append_assoc w.done w.segs (w.cur ∷ [])))
          ∙ join-append (w.done ++ w.segs) (w.cur ∷ [])
          ∙ ap (λ (r : List Entry). join (w.done ++ w.segs) ++ r) (append-nil w.cur)
          ∙ w.entries;
      counted = w.counted;
    }

  pub flush_remaining-Table :
      (kvs : List Entry) (s : IndexState F Q)
      → Written ops view xxh64 insert cfg room empty_meta_index kvs s
      → (s' : IndexState F Q) × ((flush_remaining ops xxh64 insert s ≡ ok s')
          × (Frame ops view xxh64 insert cfg room empty_meta_index s s' × Table kvs s'))
  unfolding flush_remaining closing
  flush_remaining-Table kvs s w = elim w.started [
    | inr (h, k) ↦
        (s, (rw (buffer_empty-true kvs s w h k) refl, ((refl, refl, refl), table kvs s w k h)))
    | inl some_entry ↦
        let (s', (flushed, (frame, (w', nothing)))) =
          flush_index-Written ops view xxh64 insert cfg room empty_meta_index kvs (closing kvs s w)
            (closing-Closed kvs s w some_entry) in
        (
          s',
          (
            rw (buffer_empty-false kvs s w some_entry) flushed,
            (frame, table kvs s' w' nothing (no_segs kvs s' w' nothing)),
          ),
        )
  ]
    where
      no_segs :
          (kvs : List Entry) (s : IndexState F Q)
          (w : Written ops view xxh64 insert cfg room empty_meta_index kvs s)
          → w.cur ≡ []
          → w.segs ≡ []
      no_segs kvs s w h = elim w.started [
        | inl some_entry ↦ absurd (omega (arith, ap length h, some_entry))
        | inr (k, same) ↦ k
      ]

  module _ (first : List ℕ) (others : List (List ℕ)) (entries : List MemtableEntry) (qf : Option Q)
      (file : F) where
    start : IndexState F Q
    start = record {
      write_buffer = merge_write_buffer first others cfg;
      bytes_written = 0;
      meta_index = empty_meta_index;
      qf = qf;
      prev_key = none;
      max_seq_nr = 0;
      file = file;
    }

    start-Written :
        length first ≡ cfg.block_size_in_bytes
        → All (IsPage xxh64 cfg room) others
        → view.laws.bytes file ≡ view.before
        → Written ops view xxh64 insert cfg room empty_meta_index [] start
    unfolding start
    start-Written whole wholes opened = record {
      done = [];
      segs = [];
      cur = [];
      on_file = record {
        file_pages = [];
        stored = tt;
        sizes = tt;
        content = opened;
        offset = refl;
      };
      writing = record {
        pages = tt;
        current = record { base = first; whole = whole; pushed = unfold push_all in refl };
        sizes = tt;
        spare = wholes;
      };
      started = inr (refl, refl);
      last_keys = refl;
      entries = refl;
      counted = refl;
    }

    -- `_write_index` over a file just opened succeeds where each entry fits a page: the file then starts
    -- with a table of the first entry of each key, and has behind it the bytes that it had there, none
    -- if it was empty; the filter has got their keys, and the sequence number that is returned is the
    -- greatest of theirs.
    pub write_index-Table :
        length first ≡ cfg.block_size_in_bytes
        → All (IsPage xxh64 cfg room) others
        → view.laws.bytes file ≡ view.before
        → All (λ (it : MemtableEntry). IsFitting xxh64 cfg (entry_of it)) entries
        → (s : IndexState F Q) × ((write_index ops xxh64 insert
                (merge_write_buffer first others cfg)
                entries
                qf
                empty_meta_index
                file
              ≡ ok s)
            × (Table (map entry_of (firsts entries)) s
                × ((s.qf
                      ≡ filter_of ops view xxh64 insert cfg room empty_meta_index qf
                          (firsts entries))
                    × (s.max_seq_nr ≡ max_seq 0 (firsts entries)))))
    unfolding write_index start
    write_index-Table whole wholes opened fit =
        let (s₁, (stepped, r)) =
          write_entries-Result ops view xxh64 insert cfg room empty_meta_index entries [] start fit
            (start-Written whole wholes opened) in
        let (s, (flushed, (frame, t))) =
          flush_remaining-Table (map entry_of (firsts entries)) s₁ r.written in
        (
          s,
          (
            ap (λ (m : Expected (IndexState F Q)). m >>= flush_remaining ops xxh64 insert) stepped
                ∙ flushed,
            (t, (frame.0 ∙ r.qf, frame.2 ∙ r.seq)),
          ),
        )
