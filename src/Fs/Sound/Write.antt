-- ===== src/Fs/Sound/Write.antt =====
-- `tfs_write` on a sound state, by name.
use so.Prelude.{
  ℕ, ◌+◌, ◌-◌, ◌*◌, ◌^◌, ◌≤◌, ◌<◌, ◌≡◌, refl, sym, ap, ◌∙◌, ◌⊎◌, inl, inr, some, List, [], length,
  get_elem?, min, take, subst,
}
use native.Mathlib.Decide.{ℕ_discrete}
use so.Prelude.Int.{ℤ, pos, minus_one}
use so.Prelude.Returns.{Returns, mono}
use so.Prelude.Bytes.{slice, overwrite}
use so.Fs.Types.{OpenFileEntry, Fs}
use so.Fs.Access.{index, block_size, data_blocks}
use so.Fs.Directory.Names.{IsName}
use so.Fs.Lookup.{root_inode, lookup}
use so.Fs.Operations.{tfs_write}
use so.Fs.Sound.{view, Updates, OnFile, IsSound, view-some, view-cong, same_lookup, same_sound}
use so.Fs.Sound.Keep.{Opened, OthersKept, Opened-OnFile}
use so.Fs.Sound.Names.{lookup_unique}
use so.Fs.Scan.{AllTaken}
use so.Fs.Valid.{Holds, IsOpen, IsValid, file_bytes}
use so.Fs.Write.{moved}
use so.Fs.Write.Contents.{Wrote}
use so.Fs.Write.Spec.{room, Outcome, tfs_write_lem}

-- `tfs_write` of an open handle: as many of the `len` bytes as fit into the block behind the offset
-- are written over the file's bytes there, and the offset moves behind them; or the file is empty,
-- no block is FREE for it though there are bytes to write, and nothing changes.
abbrev pub WriteSpec : (s : Fs) → IsSound s → ℕ → List ℕ → ℕ → ℤ → (s' : Fs) → IsSound s' → Type 0
WriteSpec s sound h buffer len r s' sound' =
    (name : List ℕ) × (offset : ℕ) × (old : List ℕ) × OnFile s sound.valid h name offset
    × (view s sound.valid name ≡ some old)
    × (((r ≡ pos (min len (block_size s - offset)))
          × OnFile s' sound'.valid h name (offset + min len (block_size s - offset))
          × OthersKept s h s'
          × Updates (view s sound.valid) name
              (some (overwrite old offset (take (min len (block_size s - offset)) buffer)))
              (view s' sound'.valid))
        ⊎ ((r ≡ minus_one)
            × (s' ≡ s)
            × (old ≡ [])
            × (0 < min len (block_size s - offset))
            × AllTaken s.free_blocks 0 (data_blocks s)))

module _ (s : Fs) (sound : IsSound s) (h len : ℕ) (buffer : List ℕ) (o : Opened s sound h) where
  abbrev v : IsValid s
  v = sound.valid

  abbrev m : ℕ
  m = room s o.entry len

  abbrev old : List ℕ
  old = file_bytes s o.inode

  abbrev WroteSome : Fs → Type 0
  WroteSome s' = Wrote s h o.entry o.number o.inode buffer m s'

  -- The directory is as before.
  root_kept :
      (s' : Fs) (w : WroteSome s')
      → Holds s' 0 (root_inode s v.root.0)
        × (slice (v.root.0 * block_size s) (block_size s) s'.fs_data
            ≡ slice (v.root.0 * block_size s) (block_size s) s.fs_data)
  root_kept s' w =
      let (there, same) =
        w.other_files 0 (root_inode s v.root.0) (λ p. o.not_root (sym p)) v.root.1 in
      let size : block_size s' ≡ block_size s = ap (λ t. t.block_size) w.params in
      (there, ap (λ t. slice (v.root.0 * t) (block_size s) s'.fs_data) (sym size) ∙ same)

  -- The open handles are those of before.
  from :
      (s' : Fs) (w : WroteSome s') (i : ℕ) (e : OpenFileEntry)
      → IsOpen s' i e
      → (name : List ℕ) × IsName name × (lookup s v.root.0 name ≡ e.of_inumber)
  from s' w i e opened = go (ℕ_discrete i h)
    where
      go : Dec (i ≡ h) → (name : List ℕ) × IsName name × (lookup s v.root.0 name ≡ e.of_inumber)
      go (yes same) =
          let there : get_elem? s'.open_file_table h ≡ some e =
            subst (λ t. get_elem? s'.open_file_table t ≡ some e) same opened.1 in
          let also = w.handle.1 in
          let one : moved o.entry m ≡ e = cc in
          (
            o.name,
            o.is_name,
            o.found ∙ sym o.of_inumber ∙ ap (λ (t : OpenFileEntry). t.of_inumber) one,
          )
      go (no differ) =
          let (name, is_name, found) = sound.named i e (w.old_handles i e differ opened) in
          (name, is_name, found)

  wrote_sound : (s' : Fs) (w : WroteSome s') → IsSound s'
  wrote_sound s' w =
      same_sound s s' v w.valid w.params (root_kept s' w).0 (root_kept s' w).1 sound.tidy w.unlocked
        (from s' w)

  wrote_view :
      (s' : Fs) (w : WroteSome s')
      → Updates
          (view s v)
          o.name
          (some (overwrite old o.entry.of_offset (take m buffer)))
          (view s' (wrote_sound s' w).valid)
  wrote_view s' w =
      let lookups =
        same_lookup s s' v (wrote_sound s' w).valid w.params (root_kept s' w).0
          (root_kept s' w).1 in
      let (n', holds', bytes) = w.contents in
      (
        view-some s' (wrote_sound s' w).valid o.name o.number n' (lookups o.name ∙ o.found) holds'
            ∙ ap some bytes,
        λ t is_t ne.
            view-cong s s' v (wrote_sound s' w).valid t (lookups t) (λ k n found not_root holds.
              w.other_files k n
                (λ p. ne (
                  lookup_unique s v t o.name o.number sound.tidy is_t o.is_name (found ∙ ap pos p)
                    o.found))
                holds),
      )

  pub tfs_write-Sound :
      len < 2 ^ 63
      → len ≤ length buffer
      → Returns
          (λ r s'. (sound' : IsSound s') × WriteSpec s sound h buffer len r s' sound')
          (tfs_write (pos h) buffer len s)
  tfs_write-Sound small bytes =
      mono
        (tfs_write_lem s h o.number len o.entry o.inode buffer v sound.unlocked o.is_open
          o.of_inumber o.holds small bytes)
        (λ r s' outcome. go r s' outcome)
    where
      go :
          (r : ℤ) (s' : Fs)
          → Outcome s h o.entry o.number o.inode buffer len r s'
          → (sound' : IsSound s') × WriteSpec s sound h buffer len r s' sound'
      go r s' (inl (count, w)) = (
        wrote_sound s' w,
        (
          o.name,
          o.entry.of_offset,
          old,
          (Opened-OnFile s sound h o).0,
          (Opened-OnFile s sound h o).1,
          inl (
            count,
            (
              moved o.entry m,
              w.handle,
              same_lookup s s' v (wrote_sound s' w).valid w.params (root_kept s' w).0
                    (root_kept s' w).1 o.name
                  ∙ o.found
                  ∙ sym o.of_inumber,
              refl,
              o.is_name,
            ),
            (λ i e ne opened. w.other_handles i e ne opened),
            wrote_view s' w,
          ),
        ),
      )
      go r s' (inr (failed, same, some_room, no_space)) = (
        subst (λ t. IsSound t) (sym same) sound,
        (
          o.name,
          o.entry.of_offset,
          old,
          (Opened-OnFile s sound h o).0,
          (Opened-OnFile s sound h o).1,
          inr (
            failed,
            same,
            ap (λ t. slice (index o.inode.i_data_block * block_size s) t s.fs_data) no_space.0,
            some_room,
            no_space.1,
          ),
        ),
      )
