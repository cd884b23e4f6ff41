-- ===== src/Sst/Written.antt =====
-- src/db/index_ops.cc: what `_write_index` keeps from one entry to the next.
use hedge_db.Base.{
  ℕ, ◌+◌, ◌≤◌, ◌≡◌, refl, sym, ◌∙◌, ap, ◌⊎◌, inl, inr, List, [], ◌∷◌, ◌++◌, length, length-append,
  append_assoc, append-nil, Option, All, All-append, arith,
}
use mathlib.Core.Path.{subst}
use hedge_db.Base.Status.{Status, ok, err, Error}
use hedge_db.Key.{Key}
use hedge_db.Block.Encoder.{BlockConfig}
use hedge_db.Block.Sequence.{Entry, last_of}
use hedge_db.Block.Find.{join}
use hedge_db.Block.Writer.{BlockBufferWriter, written_pages, force_commit, reset_writer, push_item}
use hedge_db.Block.Writing.{StoredAll, StoredAll-append, IsFitting}
use hedge_db.Block.WriterSteps.{
  IsPage, IsWriting, IsFlushable, push_item-Step, written-StoredAll, written-IsPage,
  reset_writer-IsWriting,
}
use hedge_db.Sst.File.{FileOps, FileView, Holds, concat, concat-append, written-Holds, reported_at}
use hedge_db.Sst.WriteBuffer.{
  MetaIndex, add_last_key, write_buffer_item, item_written, flush_buffer, write_result,
}
use hedge_db.Sst.WriteIndex.{IndexState, flush_index, flushed, try_item}

-- The meta index behind some sequences, each in one page.
abbrev pub meta_after : MetaIndex → List (List Entry) → MetaIndex
meta_after m [] = m
meta_after m (s ∷ ss) = meta_after (add_last_key (last_of [] s) m) ss

pub meta_after-append :
    (m : MetaIndex) (ss ts : List (List Entry))
    → meta_after m (ss ++ ts) ≡ meta_after (meta_after m ss) ts
meta_after-append m [] ts = refl
meta_after-append m (s ∷ ss) ts = meta_after-append (add_last_key (last_of [] s) m) ss ts

pub join-append : (ss ts : List (List Entry)) → join (ss ++ ts) ≡ join ss ++ join ts
join-append [] ts = refl
join-append (s ∷ ss) ts = rw (join-append ss ts) (sym (append_assoc s (join ss) (join ts)))

module _ {F Q : Type 0} (ops : FileOps F) (view : FileView ops) (xxh64 : List ℕ → ℕ → ℕ)
    (insert : Key → Q → Q) (cfg : BlockConfig) (room : 10 ≤ cfg.block_size_in_bytes)
    (meta : MetaIndex) where
  -- The file holds the pages of some sequences, and behind them what it had before.
  pub record OnFile (segs : List (List Entry)) (s : IndexState F Q) : Type 0 where
    pub file_pages : List (List ℕ)
    pub stored : StoredAll xxh64 cfg file_pages segs
    pub sizes : All (IsPage xxh64 cfg room) file_pages
    pub content : Holds ops view s.file (concat file_pages)
    pub offset : s.bytes_written ≡ length (concat file_pages)

  -- The entries are in the pages of the file, the buffer's full pages and the current page; the meta
  -- index has the last key of all but the current page.
  pub record Written (kvs : List Entry) (s : IndexState F Q) : Type 0 where
    pub done : List (List Entry)
    pub segs : List (List Entry)
    pub cur : List Entry
    pub on_file : OnFile done s
    pub writing : IsWriting xxh64 cfg room segs cur s.write_buffer.block_writer
    pub started : (1 ≤ length cur) ⊎ ((segs ≡ []) × (cur ≡ []))
    pub last_keys : s.meta_index ≡ meta_after meta (done ++ segs)
    pub entries : join (done ++ segs) ++ cur ≡ kvs
    pub counted : s.write_buffer.indexed_kvs ≡ length kvs

  -- The same before a flush, when the meta index has the current page's last key, too.
  pub record Closed (kvs : List Entry) (s : IndexState F Q) : Type 0 where
    pub done : List (List Entry)
    pub segs : List (List Entry)
    pub cur : List Entry
    pub on_file : OnFile done s
    pub flushable : IsFlushable xxh64 cfg room segs cur s.write_buffer.block_writer
    pub last_keys : s.meta_index ≡ meta_after meta (done ++ (segs ++ cur ∷ []))
    pub entries : join (done ++ (segs ++ cur ∷ [])) ≡ kvs
    pub counted : s.write_buffer.indexed_kvs ≡ length kvs

  -- What neither a write nor a flush changes.
  abbrev pub Frame : IndexState F Q → IndexState F Q → Type 0
  Frame s s' = (s'.qf ≡ s.qf) × (s'.prev_key ≡ s.prev_key) × (s'.max_seq_nr ≡ s.max_seq_nr)

  OnFile-same :
      (segs : List (List Entry)) (s s' : IndexState F Q)
      → OnFile segs s
      → s'.file ≡ s.file
      → s'.bytes_written ≡ s.bytes_written
      → OnFile segs s'
  OnFile-same segs s s' o e h = record {
    file_pages = o.file_pages;
    stored = o.stored;
    sizes = o.sizes;
    content = ap view.laws.bytes e ∙ o.content;
    offset = h ∙ o.offset;
  }

  module _ (kvs : List Entry) (s : IndexState F Q) (c : Closed kvs s) where
    abbrev pages : List (List ℕ)
    pages = written_pages (force_commit xxh64 s.write_buffer.block_writer)

    abbrev written : F × Option ℕ
    written = ops.write s.file (concat pages) s.bytes_written

    abbrev after : IndexState F Q
    after = record s {
      write_buffer = record s.write_buffer {
        block_writer = reset_writer (force_commit xxh64 s.write_buffer.block_writer);
      };
      file = written.0;
      bytes_written = s.bytes_written + length (concat pages);
    }

    flush_index-after : flush_index ops xxh64 insert s ≡ ok after
    unfolding flush_index flush_buffer
    flush_index-after =
        ap
          (λ (r : Option ℕ). flushed ops xxh64 insert s (
            record s.write_buffer {
              block_writer = reset_writer (force_commit xxh64 s.write_buffer.block_writer);
            },
            written.0,
            write_result r,
          ))
          (reported_at ops view s.file (concat c.on_file.file_pages) (concat pages) s.bytes_written
            c.on_file.content c.on_file.offset)

    after-OnFile : OnFile (c.done ++ (c.segs ++ c.cur ∷ [])) after
    after-OnFile =
        let all_pages = concat-append c.on_file.file_pages pages in
        record {
          file_pages = c.on_file.file_pages ++ pages;
          stored =
              StoredAll-append xxh64 cfg c.on_file.file_pages pages c.done (c.segs ++ c.cur ∷ [])
                c.on_file.stored
                (written-StoredAll xxh64 cfg room c.segs c.cur s.write_buffer.block_writer
                  c.flushable);
          sizes =
              All-append (IsPage xxh64 cfg room) c.on_file.file_pages pages c.on_file.sizes (
                written-IsPage xxh64 cfg room c.segs c.cur s.write_buffer.block_writer c.flushable);
          content = subst (Holds ops view written.0) (sym all_pages) (
              written-Holds ops view s.file (concat c.on_file.file_pages) (concat pages)
                s.bytes_written c.on_file.content c.on_file.offset);
          offset = omega (
            arith,
            c.on_file.offset,
            ap length all_pages,
            length-append (concat c.on_file.file_pages) (concat pages),
          );
        }

    -- A flush empties the buffer and the current page.
    pub flush_index-Written :
        (s' : IndexState F Q) × ((flush_index ops xxh64 insert s ≡ ok s')
          × (Frame s s' × ((v : Written kvs s') × (v.cur ≡ []))))
    flush_index-Written = (
      after,
      (
        flush_index-after,
        (
          (refl, refl, refl),
          (
            record {
              done = c.done ++ (c.segs ++ c.cur ∷ []);
              segs = [];
              cur = [];
              on_file = after-OnFile;
              writing =
                  reset_writer-IsWriting xxh64 cfg room c.segs c.cur s.write_buffer.block_writer
                    c.flushable;
              started = inr (refl, refl);
              last_keys =
                  c.last_keys
                  ∙ ap (meta_after meta) (sym (append-nil (c.done ++ (c.segs ++ c.cur ∷ []))));
              entries =
                  append-nil _
                  ∙ ap join (append-nil (c.done ++ (c.segs ++ c.cur ∷ [])))
                  ∙ c.entries;
              counted = c.counted;
            },
            refl,
          ),
        ),
      ),
    )

  -- A call of `write_item` writes the entry, or closes the current page and reports that the buffer
  -- is full.
  module _ (kvs : List Entry) (k : Key) (v : List ℕ) (fit : IsFitting xxh64 cfg (k, v))
      (s : IndexState F Q) (c : Written kvs s) where
    abbrev Attempt : Type 0
    Attempt =
        ((s' : IndexState F Q) × ((try_item ops xxh64 insert k v s ≡ (s', ok tt))
            × (Frame s s' × Written (kvs ++ (k, v) ∷ []) s')))
        ⊎ ((s' : IndexState F Q) × ((e : Error) × ((try_item ops xxh64 insert k v s ≡ (s', err e))
                × (Frame s s' × (Closed kvs s' × (1 ≤ length c.cur))))))

    tried : BlockBufferWriter × MetaIndex × Status → IndexState F Q × Status
    tried r =
        let r' = item_written xxh64 s.write_buffer r in
        (record s { write_buffer = r'.0; meta_index = r'.1 }, r'.2)

    try_item-tried :
        (r : BlockBufferWriter × MetaIndex × Status)
        → push_item xxh64 add_last_key k v s.write_buffer.block_writer s.meta_index ≡ r
        → try_item ops xxh64 insert k v s ≡ tried r
    unfolding try_item write_buffer_item tried
    try_item-tried r h = ap tried h

    closed_keys :
        add_last_key (last_of [] c.cur) s.meta_index
        ≡ meta_after meta (c.done ++ (c.segs ++ c.cur ∷ []))
    closed_keys =
        ap (add_last_key (last_of [] c.cur)) c.last_keys
        ∙ sym (meta_after-append meta (c.done ++ c.segs) (c.cur ∷ []))
        ∙ ap (meta_after meta) (append_assoc c.done c.segs (c.cur ∷ []))

    closed_entries : join (c.done ++ (c.segs ++ c.cur ∷ [])) ≡ kvs
    closed_entries =
        ap join (sym (append_assoc c.done c.segs (c.cur ∷ [])))
        ∙ join-append (c.done ++ c.segs) (c.cur ∷ [])
        ∙ ap (λ (r : List Entry). join (c.done ++ c.segs) ++ r) (append-nil c.cur)
        ∙ c.entries

    pub try_item-Attempt : Attempt
    unfolding tried
    try_item-Attempt =
        elim (push_item-Step xxh64 cfg room add_last_key c.segs c.cur k v
          s.write_buffer.block_writer s.meta_index c.writing fit) [
            | inl (w', (same, i)) ↦ inl (
              _,
              (
                try_item-tried _ same,
                (
                  (refl, refl, refl),
                  record {
                    done = c.done;
                    segs = c.segs;
                    cur = c.cur ++ (k, v) ∷ [];
                    on_file = OnFile-same c.done s _ c.on_file refl refl;
                    writing = i;
                    started = inl (omega (arith, length-append c.cur ((k, v) ∷ [])));
                    last_keys = c.last_keys;
                    entries =
                        sym (append_assoc (join (c.done ++ c.segs)) c.cur ((k, v) ∷ []))
                        ∙ ap (λ (r : List Entry). r ++ (k, v) ∷ []) c.entries;
                    counted = omega (arith, c.counted, length-append kvs ((k, v) ∷ []));
                  },
                ),
              ),
            )
            | inr (inl (w', (same, (i, some_entry)))) ↦ inl (
              _,
              (
                try_item-tried _ same,
                (
                  (refl, refl, refl),
                  record {
                    done = c.done;
                    segs = c.segs ++ c.cur ∷ [];
                    cur = (k, v) ∷ [];
                    on_file = OnFile-same c.done s _ c.on_file refl refl;
                    writing = i;
                    started = inl (omega arith);
                    last_keys = closed_keys;
                    entries = ap (λ (r : List Entry). r ++ (k, v) ∷ []) closed_entries;
                    counted = omega (arith, c.counted, length-append kvs ((k, v) ∷ []));
                  },
                ),
              ),
            )
            | inr (inr (w', (same, (f, some_entry)))) ↦ inr (
              _,
              (
                _,
                (
                  try_item-tried _ same,
                  (
                    (refl, refl, refl),
                    (
                      record {
                        done = c.done;
                        segs = c.segs;
                        cur = c.cur;
                        on_file = OnFile-same c.done s _ c.on_file refl refl;
                        flushable = f;
                        last_keys = closed_keys;
                        entries = closed_entries;
                        counted = c.counted;
                      },
                      some_entry,
                    ),
                  ),
                ),
              ),
            )
          ]
