-- ===== src/Fs/Sound/Create.antt =====
-- The state behind the creation of a file, by name.
use so.Prelude.{
  ℕ, ◌*◌, ◌<◌, ◌≡◌, ◌≢◌, refl, sym, ap, ◌∙◌, inl, inr, some, List, [], get_elem?, subst, arith,
}
use so.Prelude.Int.{pos, negsuc, minus_one}
use so.Fs.Types.{Fs, taken, free}
use so.Fs.Access.{index, block_size, max_dir_entries, inode_table_size}
use so.Fs.Directory.Names.{IsName}
use so.Fs.Lookup.{root_inode, lookup, at_root}
use so.Fs.Sound.{
  view, Updates, Unchanged, IsSound, AreNamed, view-some, view-cong, same_lookup, same_sound,
}
use so.Fs.Valid.{Holds, IsEntry, IsValid}
use so.Fs.Directory.Grow.{added-IsTidy}
use so.Fs.Directory.Names.{find_loop-added_ne}
use so.Fs.Directory.{entry_at, entry_inumber}
use so.Fs.Directory.Search.{First, is_empty}
use so.Fs.DirBlock.{entries-inside}
use so.Fs.Open.{released}
use so.Fs.Open.Add.{added, added-IsValid}
use so.Fs.Open.Create.{
  new_file, ne_root, undone, undone-Holds, undone-IsValid, created-Holds, new-Holds,
}
use so.Fs.Open.Names.{added-lookup, added-keeps, lookup-NoneOf}
use so.Fs.Scan.{FirstFree}
use so.Fs.Unlink.{IsTidyFs}

-- The new inode is given back: every file is as before.
module _ (s : Fs) (sound : IsSound s) (j : ℕ) (first : FirstFree s.freeinode_ts 0 j)
    (inside : j < inode_table_size s) where
  root_there : Holds (undone s j) 0 (root_inode s sound.valid.root.0)
  root_there = undone-Holds s j sound.valid first inside 0 _ sound.valid.root.1

  pub undone-Sound : IsSound (released (undone s j))
  undone-Sound =
      same_sound s (released (undone s j)) sound.valid (undone-IsValid s j sound.valid first inside)
        refl root_there refl sound.tidy refl sound.named

  pub undone-view : Unchanged (view s sound.valid) (view (released (undone s j)) undone-Sound.valid)
  undone-view t is_t =
      view-cong s (released (undone s j)) sound.valid undone-Sound.valid t
        (same_lookup s (released (undone s j)) sound.valid undone-Sound.valid refl root_there refl
          t)
        (λ i o at_t ne held. (undone-Holds s j sound.valid first inside i o held, refl))

-- The new file has its entry, the first empty one: its name stands for no bytes.
module _ (s : Fs) (sound : IsSound s) (name : List ℕ) (is_name : IsName name) (j k : ℕ)
    (absent : lookup s sound.valid.root.0 name ≡ minus_one) (first : FirstFree s.freeinode_ts 0 j)
    (inside : j < inode_table_size s)
    (empty : First (is_empty s.fs_data (sound.valid.root.0 * block_size s)) 0 k)
    (in_dir : k < max_dir_entries s) where
  abbrev v : IsValid s
  v = sound.valid

  abbrev base : ℕ
  base = v.root.0 * block_size s

  abbrev grown_fs : Fs
  grown_fs = released (added s base j k name)

  abbrev grown_valid : IsValid grown_fs
  grown_valid =
      at_root grown_fs v.root.0 (added-IsValid s j k name v first inside empty in_dir)
        (created-Holds s j v first inside 0 _ v.root.1)

  -- No entry has the new number yet.
  fresh : (i : ℕ) → i < max_dir_entries s → entry_inumber s.fs_data (entry_at base i) ≢ pos j
  fresh i lt same = go (v.entries i lt)
    where
      go : IsEntry s (entry_inumber s.fs_data (entry_at base i)) → ⊥
      go (inl e) = let wrong : pos j ≡ negsuc 0 = sym same ∙ e in cc
      go (inr (q, o, eq, ne, small, held)) =
          let at_j : q ≡ j = ap index (sym eq ∙ same) in
          let taken_j : get_elem? s.freeinode_ts j ≡ some taken =
            subst (λ t. get_elem? s.freeinode_ts t ≡ some taken) at_j held.0 in
          let freed = first.is_free in let wrong : free ≡ taken = cc in cc

  pub grown_tidy : IsTidyFs grown_fs grown_valid
  grown_tidy =
      added-IsTidy s.fs_data base name j (max_dir_entries s) k is_name
        (omega (arith, v.shape.few_inodes)) empty in_dir (entries-inside s v) sound.tidy
        (lookup-NoneOf s v.root.0 name absent) fresh

  other_lookup :
      (t : List ℕ) → IsName t → t ≢ name → lookup grown_fs v.root.0 t ≡ lookup s v.root.0 t
  other_lookup t is_t ne =
      find_loop-added_ne s.fs_data base name j (max_dir_entries s) k is_name
        (omega (arith, v.shape.few_inodes)) empty in_dir (entries-inside s v) t is_t ne

  pub grown_named : AreNamed grown_fs grown_valid
  grown_named h e opened =
      let (t, is_t, at_t) = sound.named h e opened in
      let (q, o, number, ne_root, held, le) = v.handles h e opened in
      let ne : t ≢ name = λ p.
        let nowhere : lookup s v.root.0 t ≡ minus_one = ap (λ u. lookup s v.root.0 u) p ∙ absent in
        let wrong : pos q ≡ negsuc 0 = sym number ∙ sym at_t ∙ nowhere in cc in
      (t, is_t, other_lookup t is_t ne ∙ at_t)

  abbrev pub added-Sound : IsSound (released (added s (sound.valid.root.0 * block_size s) j k name))
  added-Sound = record {
    valid = grown_valid;
    tidy = grown_tidy;
    named = grown_named;
    unlocked = refl;
  }

  pub new_lookup :
      lookup
        (released (added s (sound.valid.root.0 * block_size s) j k name))
        sound.valid.root.0
        name
      ≡ pos j
  new_lookup = added-lookup s j k name v is_name first inside empty in_dir absent

  pub added-view :
      Updates
        (view s sound.valid)
        name
        (some [])
        (view (released (added s (sound.valid.root.0 * block_size s) j k name)) added-Sound.valid)
  added-view = (
    view-some grown_fs grown_valid name j new_file new_lookup (new-Holds s j v first inside),
    λ t is_t ne.
        view-cong s grown_fs v grown_valid t (other_lookup t is_t ne) (λ i o at_t ne_root held. (
          created-Holds s j v first inside i o held,
          (added-keeps s j k name v is_name first inside empty in_dir t i o is_t ne held ne_root).1,
        )),
  )
