-- ===== src/Block/WriterSteps.antt =====
-- src/db/block.h: the steps of `block_buffer_writer`, and its flush.
use hedge_db.Base.{
  ℕ, ◌≤◌, ◌≡◌, refl, sym, ◌∙◌, ap, ap₂, ◌⊎◌, inl, inr, List, [], ◌∷◌, ◌++◌, length, some, All,
  All-append, arith, length-append,
}
use mathlib.Core.Path.{subst}
use hedge_db.Base.Status.{Status, ok, err, error_code, buffer_full}
use hedge_db.Bytes.{contents}
use hedge_db.Key.{Key}
use hedge_db.Block.Encoder.{BlockEncoder, BlockConfig, block_encoder, reset, push, commit}
use hedge_db.Block.Sequence.{Entry, last_of}
use hedge_db.Block.Space.{IsOpen→HasRoom, HasRoom}
use hedge_db.Block.Push.{push_all}
use hedge_db.Block.Commit.{contents-commit-commit, commit-HasRoom, commit_fields, length-page}
use hedge_db.Block.Writer.{
  BlockBufferWriter, reset_to, reset_writer, written_pages, force_commit, next_page, after_push,
  push_item,
}
use hedge_db.Block.Writing.{
  Filling, Stored, StoredAll, StoredAll-append, IsFitting, opened, last_key-Filling, cfg-Filling,
  fresh, pushing,
}

module _ (xxh64 : List ℕ → ℕ → ℕ) (cfg : BlockConfig) (room : 10 ≤ cfg.block_size_in_bytes) where
  abbrev pub IsPage : List ℕ → Type 0
  IsPage p = length p ≡ cfg.block_size_in_bytes

  -- A writer whose full pages hold some sequences of entries and whose current page holds another.
  pub record IsWriting (segs : List (List Entry)) (cur : List Entry) (w : BlockBufferWriter)
      : Type 0 where
    pub pages : StoredAll xxh64 cfg w.filled segs
    pub current : Filling xxh64 cfg cur w.encoder
    pub sizes : All IsPage w.filled
    pub spare : All IsPage w.unused

  -- A writer that is committed and flushed now has written its sequences, the current one included.
  pub record IsFlushable (segs : List (List Entry)) (cur : List Entry) (w : BlockBufferWriter)
      : Type 0 where
    pub pages : StoredAll xxh64 cfg w.filled segs
    pub current : Stored xxh64 cfg (contents (commit xxh64 w.encoder).region) cur
    pub sizes : All IsPage w.filled
    pub spare : All IsPage w.unused
    pub same_cfg : w.encoder.cfg ≡ cfg
    pub has_room : HasRoom w.encoder

  stored :
      (kvs : List Entry) (e : BlockEncoder)
      → Filling xxh64 cfg kvs e
      → 1 ≤ length kvs
      → Stored xxh64 cfg (contents (commit xxh64 e).region) kvs
  stored kvs e f h = record { encoder = e; filling = f; committed = refl; some_entry = h }

  Filling-IsPage :
      (kvs : List Entry) (e : BlockEncoder)
      → Filling xxh64 cfg kvs e
      → IsPage (contents (commit xxh64 e).region)
  Filling-IsPage kvs e f =
      length-page xxh64 e (IsOpen→HasRoom e (opened xxh64 cfg room kvs e f))
      ∙ ap (λ (c : BlockConfig). c.block_size_in_bytes) (cfg-Filling xxh64 cfg room kvs e f)

  pub Writing-IsFlushable :
      (segs : List (List Entry)) (cur : List Entry) (w : BlockBufferWriter)
      → IsWriting segs cur w
      → 1 ≤ length cur
      → IsFlushable segs cur w
  Writing-IsFlushable segs cur w i h = record {
    pages = i.pages;
    current = stored cur w.encoder i.current h;
    sizes = i.sizes;
    spare = i.spare;
    same_cfg = cfg-Filling xxh64 cfg room cur w.encoder i.current;
    has_room = IsOpen→HasRoom w.encoder (opened xxh64 cfg room cur w.encoder i.current);
  }

  Stored-IsPage : (page : List ℕ) (kvs : List Entry) → Stored xxh64 cfg page kvs → IsPage page
  Stored-IsPage page kvs s = ap length s.committed ∙ Filling-IsPage kvs s.encoder s.filling

  module _ (segs : List (List Entry)) (cur : List Entry) (w : BlockBufferWriter)
      (f : IsFlushable segs cur w) where
    pub written-StoredAll :
        StoredAll xxh64 cfg (written_pages (force_commit xxh64 w)) (segs ++ cur ∷ [])
    unfolding written_pages force_commit
    written-StoredAll =
        StoredAll-append xxh64 cfg w.filled (_ ∷ []) segs (cur ∷ []) f.pages (f.current, tt)

    pub written-IsPage : All IsPage (written_pages (force_commit xxh64 w))
    unfolding written_pages force_commit
    written-IsPage = All-append IsPage w.filled _ f.sizes (Stored-IsPage _ cur f.current, tt)

    reset_to-IsWriting :
        (ps : List (List ℕ)) (w' : BlockBufferWriter)
        → All IsPage ps
        → 1 ≤ length ps
        → w'.encoder.cfg ≡ cfg
        → IsWriting [] [] (reset_to ps w')
    unfolding push_all
    reset_to-IsWriting [] w' h k c = absurd (omega arith)
    reset_to-IsWriting (p ∷ ps) w' (h, hs) k c = record {
      pages = tt;
      current = record {
        base = p;
        whole = h;
        pushed = ap (λ (c' : BlockConfig). some (block_encoder p c')) (sym c);
      };
      sizes = tt;
      spare = hs;
    }

    pub reset_writer-IsWriting : IsWriting [] [] (reset_writer (force_commit xxh64 w))
    unfolding reset_writer force_commit
    reset_writer-IsWriting =
        reset_to-IsWriting (w.filled ++ contents (commit xxh64 w.encoder).region ∷ w.unused)
          (force_commit xxh64 w)
          (All-append IsPage w.filled _ f.sizes (Stored-IsPage _ cur f.current, f.spare))
          (omega
            (arith, length-append w.filled (contents (commit xxh64 w.encoder).region ∷ w.unused)))
          ((commit_fields xxh64 w.encoder f.has_room).0 ∙ f.same_cfg)

  -- What a push of an entry that fits does to the writer and to the caller's state: it stands in the
  -- current page; or in the next one, and the state has the last key of the page in front of it; or
  -- there is no other page, and the writer is committed.
  module _ {ℓ} {S : Type ℓ} (on_end_of_block : Key → S → S) where
    abbrev pub Step : List (List Entry) → List Entry → Key → List ℕ → BlockBufferWriter → S → Type ℓ
    Step segs cur k v w s =
        ((w' : BlockBufferWriter) × ((push_item xxh64 on_end_of_block k v w s ≡ (w', s, ok tt))
            × IsWriting segs (cur ++ (k, v) ∷ []) w'))
        ⊎ (((w' : BlockBufferWriter) × ((push_item xxh64 on_end_of_block k v w s
                  ≡ (w', on_end_of_block (last_of [] cur) s, ok tt))
                × (IsWriting (segs ++ cur ∷ []) ((k, v) ∷ []) w' × (1 ≤ length cur))))
            ⊎ ((w' : BlockBufferWriter) × ((push_item xxh64 on_end_of_block k v w s
                    ≡ (w', on_end_of_block (last_of [] cur) s, err (error_code buffer_full)))
                  × (IsFlushable segs cur w' × (1 ≤ length cur)))))

    module _ (segs : List (List Entry)) (cur : List Entry) (k : Key) (v : List ℕ)
        (w : BlockBufferWriter) (s : S) (i : IsWriting segs cur w)
        (fit : IsFitting xxh64 cfg (k, v)) where
      same_page :
          (e' : BlockEncoder)
          → push xxh64 k v w.encoder ≡ (e', ok tt)
          → Filling xxh64 cfg (cur ++ (k, v) ∷ []) e'
          → Step segs cur k v w s
      unfolding push_item
      same_page e' done f = inl (
        record w { encoder = e' },
        (
          ap (after_push xxh64 on_end_of_block k v w s) done,
          record { pages = i.pages; current = f; sizes = i.sizes; spare = i.spare },
        ),
      )

      last_key-commit : (commit xxh64 w.encoder).last_key ≡ last_of [] cur
      unfolding commit
      last_key-commit = last_key-Filling xxh64 cfg room cur w.encoder i.current

      has_room : HasRoom w.encoder
      has_room = IsOpen→HasRoom w.encoder (opened xxh64 cfg room cur w.encoder i.current)

      reset-commit : (page : List ℕ) → reset page (commit xxh64 w.encoder) ≡ block_encoder page cfg
      reset-commit page = ap (block_encoder page) (
          (commit_fields xxh64 w.encoder has_room).0
          ∙ cfg-Filling xxh64 cfg room cur w.encoder i.current)

      full_push :
          push xxh64 k v w.encoder ≡ (commit xxh64 w.encoder, err (error_code buffer_full))
          → (unused : List (List ℕ)) → unused ≡ w.unused
          → push_item xxh64 on_end_of_block k v w s
            ≡ next_page xxh64 on_end_of_block k v w s
                (commit xxh64 w.encoder)
                (err (error_code buffer_full))
                unused
      unfolding push_item
      full_push full unused same =
          ap (after_push xxh64 on_end_of_block k v w s) full
          ∙ ap
              (next_page xxh64 on_end_of_block k v w s (commit xxh64 w.encoder)
                (err (error_code buffer_full)))
              (sym same)

      full_page :
          push xxh64 k v w.encoder ≡ (commit xxh64 w.encoder, err (error_code buffer_full))
          → 1 ≤ length cur
          → (unused : List (List ℕ)) → unused ≡ w.unused
          → All IsPage unused
          → Step segs cur k v w s
      full_page full some_entry [] same h = inr (
          inr (
            record w { encoder = commit xxh64 w.encoder },
            (
              moved
                  ∙ ap
                      (λ (key : Key). (
                        record w { encoder = commit xxh64 w.encoder },
                        on_end_of_block key s,
                        err (error_code buffer_full),
                      ))
                      last_key-commit,
              (flushable, some_entry),
            ),
          ))
        where
          moved :
              push_item xxh64 on_end_of_block k v w s
              ≡ next_page xxh64 on_end_of_block k v w s
                  (commit xxh64 w.encoder)
                  (err (error_code buffer_full))
                  []
          moved = full_push full [] same

          flushable : IsFlushable segs cur (record w { encoder = commit xxh64 w.encoder })
          flushable = record {
            pages = i.pages;
            current =
                subst (λ (p : List ℕ). Stored xxh64 cfg p cur)
                  (sym (contents-commit-commit xxh64 w.encoder has_room))
                  (stored cur w.encoder i.current some_entry);
            sizes = i.sizes;
            spare = i.spare;
            same_cfg =
                (commit_fields xxh64 w.encoder has_room).0
                ∙ cfg-Filling xxh64 cfg room cur w.encoder i.current;
            has_room = commit-HasRoom xxh64 w.encoder has_room;
          }
      full_page full some_entry (page ∷ pages) same (h, hs) =
          let (e', (done, f)) = fresh xxh64 cfg room page k v h fit in
          inr (
            inl (
              record {
                filled = w.filled ++ contents (commit xxh64 w.encoder).region ∷ [];
                encoder = e';
                unused = pages;
              },
              (
                full_push full (page ∷ pages) same
                    ∙ ap₂
                        (λ (key : Key) (r : BlockEncoder × Status). (
                          record {
                            filled = w.filled ++ contents (commit xxh64 w.encoder).region ∷ [];
                            encoder = r.0;
                            unused = pages;
                          },
                          on_end_of_block key s,
                          r.1,
                        ))
                        last_key-commit (ap (push xxh64 k v) (reset-commit page) ∙ done),
                (
                  record {
                    pages =
                        StoredAll-append xxh64 cfg w.filled (_ ∷ []) segs (cur ∷ []) i.pages
                          (stored cur w.encoder i.current some_entry, tt);
                    current = f;
                    sizes =
                        All-append IsPage w.filled _ i.sizes
                          (Filling-IsPage cur w.encoder i.current, tt);
                    spare = hs;
                  },
                  some_entry,
                ),
              ),
            ))

      pub push_item-Step : Step segs cur k v w s
      push_item-Step = elim (pushing xxh64 cfg room cur k v w.encoder fit i.current) [
        | inl (e', (done, f)) ↦ same_page e' done f
        | inr (full, some_entry) ↦ full_page full some_entry w.unused refl i.spare
      ]
