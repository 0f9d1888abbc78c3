-- ===== src/Fs/Sound/Open.antt =====
-- `tfs_open` on a sound state, by name: the state before the handle is given out, and the handle.
use so.Prelude.{
  ℕ, ◌<◌, ◌≡◌, ◌≢◌, refl, sym, ap, ◌∙◌, ◌⊎◌, inl, inr, some, List, [], set, get_elem?,
  get_elem?-set_cases, get_elem?-set_ne, get_elem?-set_self, lt_of_get_elem?, subst, arith,
}
use so.Prelude.Int.{ℤ, pos, minus_one}
use so.Fs.Types.{Inode, OpenFileEntry, Fs, taken, free}
use so.Fs.Directory.Names.{IsName}
use so.Fs.Lookup.{root_inode, lookup}
use so.Fs.Open.Truncate.{NoHandle}
use so.Fs.Sound.{
  view, Updates, Unchanged, OnFile, IsSound, view-some, view-cong, same_lookup, same_sound,
}
use so.Fs.Sound.Keep.{OthersKept}
use so.Fs.Sound.Names.{lookup_unique}
use so.Fs.Scan.{AllTaken}
use so.Fs.Access.{max_open_files}
use so.Fs.Valid.{Holds, IsOpen, IsValid}
use so.Fs.Open.{Finished, with_handle, released, entry_of}
use so.Fs.Open.Truncate.{emptied, truncated, truncated-Holds, truncated-IsValid, emptied-Holds}

-- The open file table is as before.
abbrev pub SameHandles : Fs → Fs → Type 0
SameHandles s s' =
    (s'.open_file_table ≡ s.open_file_table)
    × (s'.free_open_file_entries ≡ s.free_open_file_entries)

-- The new handle, which was FREE, or -1 where every handle is TAKEN; the other handles are kept.
abbrev pub HandleSpec : (s : Fs) → List ℕ → ℕ → ℤ → (s' : Fs) → IsSound s' → Type 0
HandleSpec s name offset r s' sound' =
    ((r ≡ minus_one) × AllTaken s.free_open_file_entries 0 (max_open_files s) × SameHandles s s')
    ⊎ ((h : ℕ) × (r ≡ pos h)
        × (get_elem? s.free_open_file_entries h ≡ some free)
        × (s'.free_open_file_entries ≡ set s.free_open_file_entries h taken)
        × OnFile s' sound'.valid h name offset
        × OthersKept s h s')

-- Behind `add_to_open_file_table` every file is as before.
module _ (s : Fs) (sound : IsSound (released s)) (name : List ℕ) (is_name : IsName name)
    (k offset : ℕ) (n : Inode) (found : lookup s sound.valid.root.0 name ≡ pos k) (not_root : k ≢ 0)
    (holds : Holds s k n) where
  abbrev v : IsValid s
  v = sound.valid

  handle_sound : (h : ℕ) → IsValid (with_handle s h k offset) → IsSound (with_handle s h k offset)
  handle_sound h valid =
      same_sound (released s) (with_handle s h k offset) v valid refl v.root.1 refl sound.tidy refl
        from
    where
      from :
          (i : ℕ) (e : OpenFileEntry)
          → IsOpen (with_handle s h k offset) i e
          → (t : List ℕ) × IsName t × (lookup s v.root.0 t ≡ e.of_inumber)
      from i e opened =
          go (get_elem?-set_cases s.free_open_file_entries h i taken opened.0)
            (get_elem?-set_cases s.open_file_table h i (entry_of k offset) opened.1)
        where
          go :
              ((h ≡ i) × (taken ≡ taken))
                ⊎ ((h ≢ i) × (get_elem? s.free_open_file_entries i ≡ some taken))
              → ((h ≡ i) × (entry_of k offset ≡ e))
                ⊎ ((h ≢ i) × (get_elem? s.open_file_table i ≡ some e))
              → (t : List ℕ) × IsName t × (lookup s v.root.0 t ≡ e.of_inumber)
          go state (inl (p, q)) = (name, is_name, found ∙ ap (λ t. t.of_inumber) q)
          go (inl (p, q)) (inr (p', q')) = absurd (p' p)
          go (inr (p, q)) (inr (p', q')) = sound.named i e (q, q')

  pub Finished-Sound :
      (r : ℤ) (s' : Fs)
      → Finished s k offset r s'
      → (sound' : IsSound s') × Unchanged (view (released s) sound.valid) (view s' sound'.valid)
        × HandleSpec (released s) name offset r s' sound'
  unfolding handle_sound
  Finished-Sound r s' (valid, unlocked, inl (failed, same, all)) =
      subst
        (λ t.
          (sound' : IsSound t) × Unchanged (view (released s) sound.valid) (view t sound'.valid)
          × HandleSpec (released s) name offset r t sound')
        (sym same) (sound, (λ t is_t. refl), inl (failed, all, (refl, refl)))
  Finished-Sound r s' (valid, unlocked, inr (h, result, same, first, inside)) =
      subst
        (λ t.
          (sound' : IsSound t) × Unchanged (view (released s) sound.valid) (view t sound'.valid)
          × HandleSpec (released s) name offset r t sound')
        (sym same) opened
    where
      valid_h : IsValid (with_handle s h k offset)
      valid_h = subst (λ t. IsValid t) same valid

      lookups :
          (t : List ℕ)
          → lookup (with_handle s h k offset) (handle_sound h valid_h).valid.root.0 t
            ≡ lookup s v.root.0 t
      lookups =
          same_lookup (released s) (with_handle s h k offset) v (handle_sound h valid_h).valid refl
            v.root.1 refl

      opened :
          (sound' : IsSound (with_handle s h k offset)) × Unchanged
            (view (released s) sound.valid)
            (view (with_handle s h k offset) sound'.valid)
          × HandleSpec (released s) name offset r (with_handle s h k offset) sound'
      opened = (
        handle_sound h valid_h,
        (λ t is_t.
            view-cong (released s) (with_handle s h k offset) v (handle_sound h valid_h).valid t
              (lookups t) (λ i o at_t ne held. (held, refl))),
        inr (
          h,
          result,
          first.is_free,
          refl,
          (
            entry_of k offset,
            (
              get_elem?-set_self s.free_open_file_entries h taken
                  (lt_of_get_elem? s.free_open_file_entries h first.is_free),
              get_elem?-set_self s.open_file_table h (entry_of k offset)
                  (omega (arith, inside, sound.valid.shape.files)),
            ),
            lookups name ∙ found,
            refl,
            is_name,
          ),
          (λ i e ne open_i. (
            get_elem?-set_ne s.free_open_file_entries h i taken (λ p. ne (sym p)) ∙ open_i.0,
            get_elem?-set_ne s.open_file_table h i (entry_of k offset) (λ p. ne (sym p)) ∙ open_i.1,
          )),
        ),
      )

-- The state of a truncated file.
module _ (s : Fs) (sound : IsSound s) (name : List ℕ) (is_name : IsName name) (k b : ℕ) (n : Inode)
    (found : lookup s sound.valid.root.0 name ≡ pos k) (not_root : k ≢ 0) (holds : Holds s k n)
    (sized : 0 < n.i_size) (block : n.i_data_block ≡ pos b) (unused : NoHandle s k) where
  abbrev cut : Fs
  cut = released (truncated s k n b)

  root_there : Holds cut 0 (root_inode s sound.valid.root.0)
  root_there =
      truncated-Holds s k b n sound.valid not_root holds sized block unused 0 _ not_root
        sound.valid.root.1

  pub truncated-Sound : IsSound (released (truncated s k n b))
  truncated-Sound =
      same_sound s cut sound.valid
        (truncated-IsValid s k b n sound.valid not_root holds sized block unused) refl root_there
        refl sound.tidy refl sound.named

  pub truncated-lookup :
      (t : List ℕ)
      → lookup (released (truncated s k n b)) truncated-Sound.valid.root.0 t
        ≡ lookup s sound.valid.root.0 t
  truncated-lookup = same_lookup s cut sound.valid truncated-Sound.valid refl root_there refl

  pub truncated-view :
      Updates
        (view s sound.valid)
        name
        (some [])
        (view (released (truncated s k n b)) truncated-Sound.valid)
  truncated-view = (
    view-some cut truncated-Sound.valid name k (emptied n) (truncated-lookup name ∙ found)
        (emptied-Holds s k b n sound.valid not_root holds sized block unused),
    λ t is_t ne.
        view-cong s cut sound.valid truncated-Sound.valid t (truncated-lookup t)
          (λ i o at_t ne_root held. (
            truncated-Holds s k b n sound.valid not_root holds sized block unused i o
                (λ p. ne (
                  lookup_unique s sound.valid t name k sound.tidy is_t is_name
                    (at_t ∙ ap pos (sym p)) found))
                held,
            refl,
          )),
  )
