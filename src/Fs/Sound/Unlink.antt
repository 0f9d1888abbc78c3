-- ===== src/Fs/Sound/Unlink.antt =====
-- `tfs_unlink` on a sound state, by name.
use so.Prelude.{ℕ, ◌≡◌, ◌≢◌, refl, sym, ap, ◌∙◌, ◌⊎◌, inl, inr, none, List, get_elem?}
use so.Prelude.Int.{ℤ, pos, minus_one}
use so.Prelude.Returns.{Returns, returns}
use so.Fs.Types.{Inode, OpenFileEntry, Fs}
use so.Fs.Directory.Names.{IsName}
use so.Fs.Lookup.{lookup, lookup-IsEntry}
use so.Fs.Operations.{tfs_unlink}
use so.Fs.Sound.{view, Updates, IsSound, AreNamed, view-none, view-cong}
use so.Fs.Sound.Names.{lookup_unique, path_of, valid_path, NotOpened}
use so.Fs.Valid.{Holds, IsEntry, IsOpen, IsValid}
use so.Fs.Unlink.Spec.{Removed, tfs_unlink-refused, tfs_unlink_lem}

-- `tfs_unlink`: the name is gone and every other file is as before; or there is no such file and
-- nothing changes.
abbrev pub UnlinkSpec : (s : Fs) → IsSound s → List ℕ → ℤ → (s' : Fs) → IsSound s' → Type 0
UnlinkSpec s sound name r s' sound' =
    ((r ≡ minus_one) × (s' ≡ s) × (view s sound.valid name ≡ none))
    ⊎ ((r ≡ pos 0)
        × Updates (view s sound.valid) name none (view s' sound'.valid)
        × ((h : ℕ) (e : OpenFileEntry) → IsOpen s h e → IsOpen s' h e))

module _ (s : Fs) (sound : IsSound s) (name : List ℕ) (is_name : IsName name)
    (unused : NotOpened s sound.valid name) where
  abbrev v : IsValid s
  v = sound.valid

  module _ (j : ℕ) (n : Inode) (found : lookup s v.root.0 name ≡ pos j) (not_root : j ≢ 0)
      (holds : Holds s j n) where
    removed_sound : (s' : Fs) → Removed s v name j n s' → IsSound s'
    removed_sound s' r = record {
      valid = r.valid;
      tidy = r.tidy;
      named = named;
      unlocked = r.unlocked;
    }
      where
        named : AreNamed s' r.valid
        named h e opened =
            let was_open : IsOpen s h e = (
              sym (ap (λ t. get_elem? t h) r.handles.1) ∙ opened.0,
              sym (ap (λ t. get_elem? t h) r.handles.0) ∙ opened.1,
            ) in
            let (t, is_t, at_t) = sound.named h e was_open in
            let differs : t ≢ name = λ p.
              unused j found h e was_open (sym at_t ∙ ap (λ u. lookup s v.root.0 u) p ∙ found) in
            (t, is_t, r.other_names t is_t differs ∙ at_t)

    removed_view :
        (s' : Fs) (r : Removed s v name j n s') → Updates (view s v) name none (view s' r.valid)
    removed_view s' r = (
      view-none s' r.valid name r.gone,
      λ t is_t ne. view-cong s s' v r.valid t (r.other_names t is_t ne) (λ k o at_t ne_root held.
          r.other_files k o
            (λ p. ne (lookup_unique s v t name j sound.tidy is_t is_name (at_t ∙ ap pos p) found))
            ne_root held),
    )

  pub tfs_unlink-Sound :
      Returns
        (λ r s'. (sound' : IsSound s') × UnlinkSpec s sound name r s' sound')
        (tfs_unlink (path_of name) s)
  unfolding removed_sound
  tfs_unlink-Sound = go (lookup-IsEntry s v name)
    where
      go :
          IsEntry s (lookup s v.root.0 name)
          → Returns
              (λ r s'. (sound' : IsSound s') × UnlinkSpec s sound name r s' sound')
              (tfs_unlink (path_of name) s)
      go (inl absent) =
          rw (tfs_unlink-refused s (path_of name) v sound.unlocked (inr absent))
            (returns (sound, inl (refl, refl, view-none s v name absent)))
      go (inr (j, n, found, ne, small, holds)) =
          let (s', e, r) =
            tfs_unlink_lem s (path_of name) v sound.unlocked sound.tidy (valid_path name is_name)
              is_name j n found ne holds (unused j found) in
          rw e (
            returns (
              removed_sound j n found ne holds s' r,
              inr (
                refl,
                removed_view j n found ne holds s' r,
                (λ h e' opened. (
                  ap (λ t. get_elem? t h) r.handles.1 ∙ opened.0,
                  ap (λ t. get_elem? t h) r.handles.0 ∙ opened.1,
                )),
              ),
            ))
