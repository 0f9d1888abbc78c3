-- ===== src/Broker/Sessions/Publishing.antt =====
-- What the publisher's session does to the file and the box: each message that comes is appended.
use so.Prelude.{
  ℕ, zero, suc, ◌+◌, ◌%◌, ◌^◌, ◌≤◌, ◌<◌, ◌≡◌, ◌⊎◌, refl, sym, ap, ◌∙◌, inl, inr, false, some, List,
  [], ◌∷◌, ◌++◌, append_assoc, append-nil, length, length-append, get_elem?, take, drop, arith,
  lt→ltb, subst,
}
use native.Mathlib.Decide.{dec_lt}
use so.Prelude.Int.{ℤ, pos}
use so.Prelude.Run.{◌>>=◌}
use so.Prelude.Returns
use so.Prelude.Returns.{Returns, returns, mono}
use so.Prelude.Bytes.{overwrite, strncpy_bytes, length-strncpy_bytes, drop_all}
use so.Fs.Types.{Inode, OpenFileEntry, Fs, taken, free}
use so.Fs.Access.{block_size, data_blocks}
use so.Fs.Operations.{tfs_write}
use so.Fs.RoundTrip.{length-file_bytes}
use so.Fs.Sound.Keep.{OthersKept}
use so.Fs.Valid.{Holds, IsOpen, IsValid, file_bytes}
use so.Broker.{Broker, in_boxes, in_fs}
use so.Broker.Create.{with_fs-Returns}
use so.Broker.Sessions.{grow_box, store_message, recieve_loop}
use so.Broker.Sessions.Stored.{
  stored, total, HasBox, HasBox-find_box, grown_boxes, grow_box-grown, grown-HasBox,
}
use so.Boxes.{Boxes}
use so.Client.Publisher.Frames.{frames}
use so.Client.Subscriber.Messages.{AreMessages, read_pipe-frame, text_of_frame}
use so.Fs.Write.{moved}
use so.Fs.Write.Contents.{Wrote}
use so.Fs.Write.Outcome.{tfs_write-none}
use so.Fs.Write.Spec.{room, NoSpace, Outcome, tfs_write_lem}

-- Handle `h` is at the end of a file in inode `k` with these bytes, and there is a block for more.
pub record AtEnd (s : Fs) (h k : ℕ) (bytes : List ℕ) : Type 0 where
  pub valid : IsValid s
  pub unlocked : s.locked ≡ false
  pub entry : OpenFileEntry
  pub inode : Inode
  pub is_open : IsOpen s h entry
  pub number : entry.of_inumber ≡ pos k
  pub holds : Holds s k inode
  pub same : file_bytes s inode ≡ bytes
  pub at_end : entry.of_offset ≡ length bytes
  pub space :
      (0 < length bytes) ⊎ ((b : ℕ) × (b < data_blocks s) × (get_elem? s.free_blocks b ≡ some free))

overwrite-end : (xs bytes : List ℕ) → overwrite xs (length xs) bytes ≡ xs ++ bytes
overwrite-end xs bytes =
    ap (λ t. t ++ (bytes ++ drop (length xs + length bytes) xs)) (take_all xs)
    ∙ ap (λ t. xs ++ (bytes ++ t)) (drop_all (length xs + length bytes) xs (omega arith))
    ∙ ap (λ t. xs ++ t) (append-nil bytes)
  where
    take_all : (ys : List ℕ) → take (length ys) ys ≡ ys
    take_all [] = refl
    take_all (y ∷ ys) = ap (λ t. y ∷ t) (take_all ys)

-- What a write at the end of the file ends in.
abbrev pub Appended : Fs → ℕ → ℕ → List ℕ → Fs → Type 0
Appended s h k bytes s' = AtEnd s' h k bytes × (s'.fs_params ≡ s.fs_params) × OthersKept s h s'

module _ (s : Fs) (h k : ℕ) (bytes text rest : List ℕ) (at : AtEnd s h k bytes)
    (fits : length bytes + length text ≤ block_size s) where
  size : length bytes ≡ at.inode.i_size
  size = ap length (sym at.same) ∙ length-file_bytes s k at.inode at.valid at.holds

  all_fits : room s at.entry (length text) ≡ length text
  all_fits = omega (arith, at.at_end)

  small : length text < 2 ^ 63
  small = omega (arith, at.valid.shape.small_blocks)

  no_full : NoSpace s at.inode → ⊥
  no_full (empty, all) = go at.space
    where
      go :
          (0 < length bytes)
            ⊎ ((b : ℕ) × (b < data_blocks s) × (get_elem? s.free_blocks b ≡ some free))
          → ⊥
      go (inl some_bytes) = omega (arith, size)
      go (inr (b, inside, is_free)) =
          let is_taken = all b (omega arith) (omega arith) in let wrong : free ≡ taken = cc in cc

  take-text : (t u : List ℕ) → take (length t) (t ++ u) ≡ t
  take-text [] u = refl
  take-text (c ∷ t) u = ap (λ z. c ∷ z) (take-text t u)

  Wrote-AtEnd :
      0 < length text
      → (s' : Fs) → Wrote s h at.entry k at.inode (text ++ rest) (room s at.entry (length text)) s'
      → Appended s h k (bytes ++ text) s'
  Wrote-AtEnd some_text s' w =
      let (n', holds', contents) = w.contents in
      (
        record {
          valid = w.valid;
          unlocked = w.unlocked;
          entry = moved at.entry (room s at.entry (length text));
          inode = n';
          is_open = w.handle;
          number = at.number;
          holds = holds';
          same =
              contents
              ∙ ap
                  (λ t.
                    overwrite (file_bytes s at.inode) at.entry.of_offset (take t (text ++ rest)))
                  all_fits
              ∙ ap (λ t. overwrite t at.entry.of_offset (take (length text) (text ++ rest))) at.same
              ∙ ap (λ t. overwrite bytes t (take (length text) (text ++ rest))) at.at_end
              ∙ ap (overwrite bytes (length bytes)) (take-text text rest)
              ∙ overwrite-end bytes text;
          at_end = omega (arith, at.at_end, all_fits, length-append bytes text);
          space = inl (omega (arith, length-append bytes text));
        },
        w.params,
        (λ i e ne opened. w.other_handles i e ne opened),
      )

  -- `tfs_write` of a text at the end of the file appends it.
  pub tfs_write-Appended :
      Returns
        (λ r s'. Appended s h k (bytes ++ text) s')
        (tfs_write (pos h) (text ++ rest) (length text) s)
  tfs_write-Appended = elim (dec_lt 0 (length text)) [
    | yes some_text ↦
        mono
          (tfs_write_lem s h k (length text) at.entry at.inode (text ++ rest) at.valid at.unlocked
            at.is_open at.number at.holds small (omega (arith, length-append text rest)))
          (λ r s' outcome. go some_text r s' outcome)
    | no nothing ↦
        let no_room : room s at.entry (length text) ≡ 0 = omega arith in
        rw
          (tfs_write-none s h k (length text) at.entry at.inode (text ++ rest) at.valid.shape
            at.unlocked at.is_open at.number at.holds.1 (omega (arith, at.at_end)) small
            (omega (arith, length-append text rest)) no_room)
          (returns (
            subst (λ t. AtEnd s h k t)
                (sym (ap (λ t. bytes ++ t) (no_text text (omega arith)) ∙ append-nil bytes)) at,
            refl,
            (λ i e ne opened. opened),
          ))
  ]
    where
      no_text : (t : List ℕ) → length t ≡ 0 → t ≡ []
      no_text [] e = refl
      no_text (c ∷ t) e = absurd (omega arith)

      go :
          0 < length text
          → (r : ℤ) (s' : Fs) → Outcome s h at.entry k at.inode (text ++ rest) (length text) r s'
          → Appended s h k (bytes ++ text) s'
      go some_text r s' (inl (count, w)) = Wrote-AtEnd some_text s' w
      go some_text r s' (inr (failed, same, some_room, full)) = absurd (no_full full)

-- What the session leaves behind: the file with more bytes, the box grown, and the rest as it was.
pub record Received (b : Broker) (h k i : ℕ) (name bytes more : List ℕ) (size n : ℕ) (b' : Broker)
    : Type 0 where
  pub fs : Fs
  pub boxes : Boxes
  pub rest : b' ≡ record b { fs = fs; boxes = boxes }
  pub file : Appended b.fs h k (bytes ++ more) fs
  pub box : HasBox boxes name i ((size + n) % 2 ^ 64)

module _ (b : Broker) (h k i : ℕ) (name bytes : List ℕ) (size : ℕ) (at : AtEnd b.fs h k bytes)
    (box : HasBox b.boxes name i size) where
  store_message-Received :
      (text : List ℕ)
      → length bytes + length text + 1 ≤ block_size b.fs
      → Returns
          (λ u b'. Received b h k i name bytes (text ++ (0 ∷ [])) size (length text) b')
          (store_message (pos h) i text b)
  unfolding store_message
  store_message-Received text fits = rw (lt→ltb i 64 box.inside) (
      Returns.bind
        (with_fs-Returns b (tfs_write-Appended b.fs h k bytes text (0 ∷ []) at (omega arith)))
        (λ r b'. λ (s, (at_s, params, kept), same). rw same (terminated s at_s params kept)))
    where
      terminated :
          (s : Fs)
          → AtEnd s h k (bytes ++ text)
          → s.fs_params ≡ b.fs.fs_params
          → OthersKept b.fs h s
          → Returns
              (λ u b'. Received b h k i name bytes (text ++ (0 ∷ [])) size (length text) b')
              ((in_fs (tfs_write (pos h) (0 ∷ []) 1) >>= (λ z. in_boxes (grow_box i (length text))))
                (record b { fs = s }))
      terminated s at_s params kept =
          let blocks : block_size s ≡ block_size b.fs = ap (λ t. t.block_size) params in
          Returns.bind
            (with_fs-Returns (record b { fs = s })
              (tfs_write-Appended s h k (bytes ++ text) (0 ∷ []) [] at_s
                (omega (arith, length-append bytes text))))
            (λ r b'. λ (s', (at_s', params', kept'), same).
              rw (same, grow_box-grown b.boxes name i size (length text) box)
                (returns (record {
                  fs = s';
                  boxes = grown_boxes b.boxes i box.box (length text);
                  rest = refl;
                  file = (
                    subst (λ t. AtEnd s' h k t) (append_assoc bytes text (0 ∷ [])) at_s',
                    params' ∙ params,
                    (λ j e ne opened. kept' j e ne (kept j e ne opened)),
                  );
                  box = grown-HasBox b.boxes name i size (length text) box;
                })))

-- More of the session: what comes behind goes on from what is left.
Received-trans :
    (b b' b'' : Broker) (h k i : ℕ) (name bytes more more' : List ℕ) (size n n' : ℕ)
    (first : Received b h k i name bytes more size n b')
    → Received b' h k i name (bytes ++ more) more' ((size + n) % 2 ^ 64) n' b''
    → Received b h k i name bytes (more ++ more') size (n + n') b''
Received-trans b b' b'' h k i name bytes more more' size n n' first second =
    let same_size : ((size + n) % 2 ^ 64 + n') % 2 ^ 64 ≡ (size + (n + n')) % 2 ^ 64 =
      omega arith in
    let same_fs : b'.fs ≡ first.fs = ap (λ t. t.fs) first.rest in
    record {
      fs = second.fs;
      boxes = second.boxes;
      rest =
          second.rest
          ∙ ap {A = Broker} {B = Broker} (λ t. record t { fs = second.fs; boxes = second.boxes })
              first.rest;
      file = (
        subst (λ t. AtEnd second.fs h k t) (append_assoc bytes more more') second.file.0,
        second.file.1 ∙ ap (λ t. t.fs_params) same_fs ∙ first.file.1,
        (λ j e ne opened.
            second.file.2 j e ne
              (subst (λ t. IsOpen t j e) (sym same_fs) (first.file.2 j e ne opened))),
      );
      box = subst (λ t. HasBox second.boxes name i t) same_size second.box;
    }

-- Let messages of at most 1023 bytes, none of them zero, come through a publisher's pipe as frames.
-- On a valid file system with the mutex free, let the handle be at the end of the file of a box
-- that `find_box` finds among the 64, let the messages with a terminator each fit into the block
-- behind the file's bytes, and let the file have bytes or some block be FREE. Then the loop, with
-- more rounds than messages, returns the box's index; behind the file's bytes are the messages,
-- each with its terminator, and the handle is at the end again; every other handle is what it was;
-- the box is found as before, its size more by the bytes of the messages, terminators not counted,
-- modulo 2^64; and nothing but the files and the boxes is changed.
pub recieve_loop-Received :
    (ms : List (List ℕ)) (fuel : ℕ) (b : Broker) (h k i : ℕ) (name buffer bytes : List ℕ) (size : ℕ)
    → AreMessages ms
    → length ms < fuel
    → length buffer ≡ 1024
    → length bytes + length (stored ms) ≤ block_size b.fs
    → AtEnd b.fs h k bytes
    → HasBox b.boxes name i size
    → size < 2 ^ 64
    → Returns
        (λ r b'. (r ≡ pos i) × Received b h k i name bytes (stored ms) size (total ms) b')
        (recieve_loop fuel (pos h) name (pos i) buffer (frames 9 ms) b)
unfolding recieve_loop
recieve_loop-Received ms zero b h k i name buffer bytes size are enough whole fits at box small =
    absurd (omega arith)
recieve_loop-Received [] (suc fuel) b h k i name buffer bytes size are enough whole fits at box
      small =
    let same_size : size ≡ (size + 0) % 2 ^ 64 = omega arith in
    returns (
      refl,
      record {
        fs = b.fs;
        boxes = b.boxes;
        rest = refl;
        file = (
          subst (λ t. AtEnd b.fs h k t) (sym (append-nil bytes)) at,
          refl,
          (λ j e ne opened. opened),
        );
        box = subst (λ t. HasBox b.boxes name i t) same_size box;
      },
    )
recieve_loop-Received (m ∷ ms) (suc fuel) b h k i name buffer bytes size are enough whole fits at
      box small =
    rw
      (
        HasBox-find_box b.boxes name i size box,
        ap (λ t. t.0) (read_pipe-frame buffer m (frames 9 ms) whole),
        ap (λ t. t.1) (read_pipe-frame buffer m (frames 9 ms) whole),
        text_of_frame m are.0 are.1,
        recieve_loop,
      )
      (Returns.bind
        (store_message-Received b h k i name bytes size at box m
          (omega (arith, length-append m (0 ∷ stored ms))))
        (λ u b' first.
          mono
            (recieve_loop-Received ms fuel b' h k i name (strncpy_bytes 1024 m)
              (bytes ++ (m ++ (0 ∷ []))) ((size + length m) % 2 ^ 64) are.2 (omega arith)
              (length-strncpy_bytes 1024 m)
              (let blocks : block_size b'.fs ≡ block_size b.fs =
                  ap (λ t. block_size t.fs) first.rest ∙ ap (λ t. t.block_size) first.file.1 in
                omega (
                  arith,
                  length-append bytes (m ++ (0 ∷ [])),
                  length-append m (0 ∷ []),
                  length-append m (0 ∷ stored ms),
                ))
              (subst (λ t. AtEnd t h k (bytes ++ (m ++ (0 ∷ [])))) (sym (ap (λ t. t.fs) first.rest))
                first.file.0)
              (subst (λ t. HasBox t name i ((size + length m) % 2 ^ 64))
                (sym (ap (λ t. t.boxes) first.rest)) first.box)
              (omega arith))
            (λ r b''. λ (same, second). (
              same,
              subst (λ t. Received b h k i name bytes t size (total (m ∷ ms)) b'')
                  (append_assoc m (0 ∷ []) (stored ms))
                  (Received-trans b b' b'' h k i name bytes (m ++ (0 ∷ [])) (stored ms) size
                    (length m) (total ms) first second),
            ))))
