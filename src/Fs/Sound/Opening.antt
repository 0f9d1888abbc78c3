-- ===== src/Fs/Sound/Opening.antt =====
-- What `tfs_open` does to a sound state, by name.
use so.Prelude.{
  ℕ, ◌*◌, ◌<◌, ◌≡◌, ◌≢◌, refl, sym, ap, ◌∙◌, ◌⊎◌, inl, inr, Bool, true, false, ◌&&◌, Option, none,
  some, List, [], length, get_elem?, lt_of_get_elem?, subst, set, arith, ltb, Bool-cases,
  if◌then◌else◌,
}
use so.Prelude.Int.{ℤ, pos, minus_one}
use so.Prelude.Returns.{Returns, returns, mono}
use so.Prelude.Bytes.{slice}
use so.Fs.Types.{Inode, Fs, FileMode, taken}
use so.Fs.Access.{index, block_size, inode_table_size, max_open_files, max_dir_entries}
use so.Fs.Scan.{AllTaken}
use so.Fs.Directory.Search.{NoneOf, is_empty}
use so.Fs.Directory.Names.{IsName}
use so.Fs.Lookup.{lookup, lookup-IsEntry}
use so.Fs.Operations.{tfs_open}
use so.Fs.Sound.{view, Updates, Unchanged, IsSound, view-none, view-some}
use so.Fs.Sound.Names.{path_of, valid_path, NotOpened}
use so.Fs.Valid.{Holds, IsEntry, IsValid, file_bytes}
use so.Fs.Open.{Finished, released}
use so.Fs.Open.Add.{added}
use so.Fs.Open.Create.{new_file, ne_root, new-Holds}
use so.Fs.Open.Creation.{Created, NoPlace}
use so.Fs.Open.Spec.{
  tfs_open-refused, tfs_open-creates, tfs_open-existing, tfs_open-truncates, truncates-parts,
}
use so.Fs.Open.Truncate.{start_of, emptied, truncated, emptied-Holds}
use so.Fs.RoundTrip.{length-file_bytes}
use so.Fs.Sound.Create.{undone-Sound, undone-view, added-Sound, added-view, new_lookup}
use so.Fs.Sound.Open.{
  HandleSpec, SameHandles, Finished-Sound, truncated-Sound, truncated-lookup, truncated-view,
}

-- The bytes of a file behind `tfs_open`: a missing one is created where O_CREAT is set, and one
-- that is there is emptied where O_TRUNC is set.
abbrev pub opened_bytes : FileMode → Option (List ℕ) → Option (List ℕ)
opened_bytes mode none = if mode.o_creat then some [] else none
opened_bytes mode (some old) = if mode.o_trunc then some [] else some old

-- Why a file is not there behind `tfs_open`: it is missing, and it is not to be created, or no inode
-- is FREE, or the directory has no empty entry.
abbrev pub NotThere : (s : Fs) → IsSound s → List ℕ → FileMode → Type 0
NotThere s sound name mode =
    (view s sound.valid name ≡ none)
    × ((mode.o_creat ≡ false)
        ⊎ (AllTaken s.freeinode_ts 0 (inode_table_size s)
            ⊎ NoneOf (is_empty s.fs_data (sound.valid.root.0 * block_size s)) 0
                (max_dir_entries s)))

-- `tfs_open`: -1 and every file and handle as before, where the file is not there; or the file has
-- the bytes it is opened with, every other is as before, and the handle is at its start or, with
-- O_APPEND, at its end, or is -1 where every handle is TAKEN.
abbrev pub OpenSpec : (s : Fs) → IsSound s → List ℕ → FileMode → ℤ → (s' : Fs) → IsSound s' → Type 0
OpenSpec s sound name mode r s' sound' =
    ((r ≡ minus_one)
      × Unchanged (view s sound.valid) (view s' sound'.valid)
      × SameHandles s s'
      × NotThere s sound name mode)
    ⊎ ((x : List ℕ) × (opened_bytes mode (view s sound.valid name) ≡ some x)
        × Updates (view s sound.valid) name (some x) (view s' sound'.valid)
        × HandleSpec s name (if mode.o_append then length x else 0) r s' sound')

if_same : (b : Bool) → ◌≡◌ {A = ℕ} 0 (if b then 0 else 0)
if_same true = refl
if_same false = refl

module _ (s : Fs) (sound : IsSound s) (name : List ℕ) (is_name : IsName name) (mode : FileMode)
    (unused : mode.o_trunc ≡ true → NotOpened s sound.valid name) where
  abbrev v : IsValid s
  v = sound.valid

  abbrev Ends : ℤ → Fs → Type 0
  Ends r s' = (sound' : IsSound s') × OpenSpec s sound name mode r s' sound'

  abbrev released_sound : IsSound (released s)
  released_sound = record {
    valid = sound.valid;
    tidy = sound.tidy;
    named = sound.named;
    unlocked = refl;
  }

  -- From the state `s0`, in which the file has the bytes `x`, to the one with the handle.
  with_handle_on :
      (s0 : Fs) (sound0 : IsSound (released s0)) (x : List ℕ)
      → opened_bytes mode (view s v name) ≡ some x
      → Updates (view s v) name (some x) (view (released s0) sound0.valid)
      → s0.free_open_file_entries ≡ s.free_open_file_entries
      → s0.open_file_table ≡ s.open_file_table
      → max_open_files s0 ≡ max_open_files s
      → (r : ℤ) (s' : Fs) (sound' : IsSound s')
      → Unchanged (view (released s0) sound0.valid) (view s' sound'.valid)
      → HandleSpec (released s0) name (if mode.o_append then length x else 0) r s' sound'
      → OpenSpec s sound name mode r s' sound'
  with_handle_on s0 sound0 x bytes updates states table count r s' sound' same handle = inr (
    x,
    bytes,
    (same name is_name ∙ updates.0, λ t is_t ne. same t is_t ∙ updates.1 t is_t ne),
    given handle,
  )
    where
      given :
          HandleSpec (released s0) name (if mode.o_append then length x else 0) r s' sound'
          → HandleSpec s name (if mode.o_append then length x else 0) r s' sound'
      given (inl (failed, all, (same_table, same_states))) = inl (
        failed,
        subst (λ n. AllTaken s.free_open_file_entries 0 n) count
            (subst (λ t. AllTaken t 0 (max_open_files s0)) states all),
        (same_table ∙ table, same_states ∙ states),
      )
      given (inr (h, result, was_free, taken_one, on_file, others)) = inr (
        h,
        result,
        ap (λ t. get_elem? t h) (sym states) ∙ was_free,
        taken_one ∙ ap (λ t. set t h taken) states,
        on_file,
        λ i e ne opened.
            others i e ne
              (ap (λ t. get_elem? t i) states ∙ opened.0, ap (λ t. get_elem? t i) table ∙ opened.1),
      )

  absent_bytes :
      lookup s v.root.0 name ≡ minus_one
      → mode.o_creat ≡ true
      → opened_bytes mode (view s v name) ≡ some []
  absent_bytes absent creat =
      ap (opened_bytes mode) (view-none s v name absent)
      ∙ ap (λ b. if b then some [] else none) creat

  missing : lookup s v.root.0 name ≡ minus_one → view s v name ≡ none
  missing absent = view-none s v name absent

  -- The name is not too long.
  no_entry :
      NoPlace s v name → NoneOf (is_empty s.fs_data (v.root.0 * block_size s)) 0 (max_dir_entries s)
  no_entry (inl long) = absurd (let short = is_name.2 in omega (arith, long, short))
  no_entry (inr full) = full

  Created-Ends :
      lookup s v.root.0 name ≡ minus_one
      → mode.o_creat ≡ true
      → (r : ℤ) (s' : Fs) → Created s v name r s'
      → Ends r s'
  Created-Ends absent creat r s' (inl (failed, same, all)) =
      subst (λ t. Ends r t) (sym same)
        (
          released_sound,
          inl (failed, (λ t is_t. refl), (refl, refl), (missing absent, inr (inl all))),
        )
  Created-Ends absent creat r s' (inr (inl (j, first, failed, same, valid, why))) =
      let inside : j < inode_table_size s =
        omega (arith, lt_of_get_elem? s.freeinode_ts j first.is_free, v.shape.inode_states) in
      subst (λ t. Ends r t) (sym same)
        (
          undone-Sound s sound j first inside,
          inl (
            failed,
            undone-view s sound j first inside,
            (refl, refl),
            (missing absent, inr (inr (no_entry why))),
          ),
        )
  Created-Ends absent creat r s' (inr (inr (j, k, first, inside, empty, in_dir, short, end))) =
      let sound0 = added-Sound s sound name is_name j k absent first inside empty in_dir in
      let (sound', same, handle) =
        Finished-Sound (added s (v.root.0 * block_size s) j k name) sound0 name is_name j 0 new_file
          (new_lookup s sound name is_name j k absent first inside empty in_dir)
          (ne_root s j v first inside) (new-Holds s j v first inside) r s' end in
      (
        sound',
        with_handle_on (added s (v.root.0 * block_size s) j k name) sound0 []
            (absent_bytes absent creat)
            (added-view s sound name is_name j k absent first inside empty in_dir) refl refl refl r
            s' sound' same
            (subst
              (λ t.
                HandleSpec (released (added s (v.root.0 * block_size s) j k name)) name t r s'
                  sound')
              (if_same mode.o_append) handle),
      )

  module _ (k : ℕ) (n : Inode) (found : lookup s v.root.0 name ≡ pos k) (not_root : k ≢ 0)
      (holds : Holds s k n) where
    found_bytes : view s v name ≡ some (file_bytes s n)
    found_bytes = view-some s v name k n found holds

    kept-Ends :
        (mode.o_trunc && ltb 0 n.i_size) ≡ false
        → (r : ℤ) (s' : Fs) → Finished s k (start_of mode n) r s'
        → Ends r s'
    kept-Ends keeps r s' end =
        let (sound', same, handle) =
          Finished-Sound s released_sound name is_name k (start_of mode n) n found not_root holds r
            s' end in
        (
          sound',
          with_handle_on s released_sound (file_bytes s n)
              (ap (opened_bytes mode) found_bytes ∙ kept_bytes (Bool-cases mode.o_trunc))
              (found_bytes, λ t is_t ne. refl) refl refl refl r s' sound' same
              (subst
                (λ t. HandleSpec (released s) name (if mode.o_append then t else 0) r s' sound')
                (sym (length-file_bytes s k n v holds)) handle),
        )
      where
        kept_bytes :
            (mode.o_trunc ≡ true) ⊎ (mode.o_trunc ≡ false)
            → opened_bytes mode (some (file_bytes s n)) ≡ some (file_bytes s n)
        kept_bytes (inr no_trunc) = rw no_trunc
        kept_bytes (inl trunc) =
            let no_bytes : n.i_size ≡ 0 = ground arith in
            rw trunc (
              ap (λ t. some (slice (index n.i_data_block * block_size s) t s.fs_data))
                (sym no_bytes))

    cut-Ends :
        (b : ℕ)
        → mode.o_trunc ≡ true
        → 0 < n.i_size
        → n.i_data_block ≡ pos b
        → (r : ℤ) (s' : Fs) → Finished (truncated s k n b) k 0 r s'
        → Ends r s'
    cut-Ends b trunc sized block r s' end =
        let no_handle = unused trunc k found in
        let sound0 =
          truncated-Sound s sound name is_name k b n found not_root holds sized block no_handle in
        let (sound', same, handle) =
          Finished-Sound (truncated s k n b) sound0 name is_name k 0 (emptied n)
            (truncated-lookup s sound name is_name k b n found not_root holds sized block no_handle
                name
              ∙ found)
            not_root (emptied-Holds s k b n v not_root holds sized block no_handle) r s' end in
        (
          sound',
          with_handle_on (truncated s k n b) sound0 []
              (ap (opened_bytes mode) found_bytes
                ∙ ap (λ c. if c then some [] else some (file_bytes s n)) trunc)
              (truncated-view s sound name is_name k b n found not_root holds sized block no_handle)
              refl refl refl r s' sound' same
              (subst (λ t. HandleSpec (released (truncated s k n b)) name t r s' sound')
                (if_same mode.o_append) handle),
        )

    found-Ends : Returns Ends (tfs_open (path_of name) mode s)
    found-Ends = go (Bool-cases (mode.o_trunc && ltb 0 n.i_size))
      where
        go :
            ((mode.o_trunc && ltb 0 n.i_size) ≡ true) ⊎ ((mode.o_trunc && ltb 0 n.i_size) ≡ false)
            → Returns Ends (tfs_open (path_of name) mode s)
        go (inr keeps) =
            mono
              (tfs_open-existing s (path_of name) mode v sound.unlocked (valid_path name is_name) k
                n found not_root holds keeps)
              (kept-Ends keeps)
        go (inl truncates) =
            let (trunc, sized) = truncates-parts mode.o_trunc n.i_size truncates in
            let (b, block, state) = v.blocks k n holds sized in
            mono
              (tfs_open-truncates s (path_of name) mode v sound.unlocked (valid_path name is_name) k
                n found not_root holds b truncates block (unused trunc k found))
              (cut-Ends b trunc sized block)

  pub tfs_open-Sound :
      Returns
        (λ r s'. (sound' : IsSound s') × OpenSpec s sound name mode r s' sound')
        (tfs_open (path_of name) mode s)
  tfs_open-Sound = go (lookup-IsEntry s v name) (Bool-cases mode.o_creat)
    where
      go :
          IsEntry s (lookup s v.root.0 name)
          → (mode.o_creat ≡ true) ⊎ (mode.o_creat ≡ false)
          → Returns Ends (tfs_open (path_of name) mode s)
      go (inr (k, n, found, ne, small, holds)) creat = found-Ends k n found ne holds
      go (inl absent) (inl creat) =
          mono
            (tfs_open-creates s (path_of name) mode v sound.unlocked (valid_path name is_name)
              absent creat (is_name.1))
            (Created-Ends absent creat)
      go (inl absent) (inr no_creat) =
          rw (tfs_open-refused s (path_of name) mode v sound.unlocked (inr (absent, no_creat))) (
            returns
              (sound, inl (refl, (λ t is_t. refl), (refl, refl), (missing absent, inl no_creat))))
