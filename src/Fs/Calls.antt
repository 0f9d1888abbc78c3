-- ===== src/Fs/Calls.antt =====
-- The calls of fs/operations.h that a client makes between `tfs_init` and `tfs_destroy`, one behind
-- the other, and what each of them promises by name.
pub mod Runs
mod Tests
use so.Prelude.{
  ℕ, ◌^◌, ◌≤◌, ◌<◌, ◌≡◌, ◌≢◌, refl, sym, ap, ◌∙◌, ◌⊎◌, inl, inr, true, false, Option, none, some,
  List, [], length, get_elem?, get_elem?_of_lt, lt_of_get_elem?, subst, arith,
}
use so.Prelude.Int.{ℤ, pos, negsuc, minus_one}
use so.Prelude.Run.{Run, ok, pure, ◌>>=◌}
use so.Prelude.Returns
use so.Prelude.Returns.{Returns, returns, mono}
use so.Fs.Types.{Inode, OpenFileEntry, Fs, FsCmd, FileMode, taken}
use so.Fs.Access.{index}
use so.Fs.Close.{state-cases}
use so.Fs.Directory.Names.{IsName}
use so.Fs.Handles.{NotOpen, NotOpen-refused}
use so.Fs.Lookup.{lookup}
use so.Fs.Open.Truncate.{NoHandle}
use so.Fs.Operations.{tfs_open, tfs_close, tfs_write, tfs_read, tfs_unlink}
use so.Fs.Sound.{view, Unchanged, IsSound}
use so.Fs.Sound.Keep.{Opened, open-Opened, CloseSpec, ReadSpec, tfs_close-Sound, tfs_read-Sound}
use so.Fs.Sound.Names.{path_of, NotOpened}
use so.Fs.Sound.Opening.{OpenSpec, tfs_open-Sound}
use so.Fs.Sound.Unlink.{UnlinkSpec, tfs_unlink-Sound}
use so.Fs.Sound.Write.{WriteSpec, tfs_write-Sound}
use so.Fs.Valid.{IsOpen, IsValid}

pub data Call : Type 0 where
  open_file : List ℕ → FileMode → Call
  close_file : ℤ → Call
  write_file : ℤ → List ℕ → ℕ → Call
  read_file : ℤ → ℕ → Call
  unlink_file : List ℕ → Call

-- What a call returns, and the bytes that it puts into the client's buffer.
unfoldable pub run : Call → FsCmd (ℤ × List ℕ)
run (open_file name mode) = do r ← tfs_open (path_of name) mode; pure (r, [])
run (close_file h) = do r ← tfs_close h; pure (r, [])
run (write_file h buffer len) = do r ← tfs_write h buffer len; pure (r, [])
run (read_file h len) = tfs_read h len
run (unlink_file name) = do r ← tfs_unlink (path_of name); pure (r, [])

-- The block of the root directory.
abbrev pub block_of : Option Inode → ℕ
block_of none = 0
block_of (some n) = index n.i_data_block

-- What a client must see to: names of 1 to 39 bytes, buffers as long as it says, and no handle on a
-- file that it removes or empties.
abbrev pub Allowed : Fs → Call → Type 0
Allowed s (open_file name mode) =
    IsName name
    × (mode.o_trunc ≡ true
        → (k : ℕ) → lookup s (block_of (get_elem? s.inode_table 0)) name ≡ pos k
        → NoHandle s k)
Allowed s (close_file h) = Unit
Allowed s (write_file h buffer len) = (len < 2 ^ 63) × (len ≤ length buffer)
Allowed s (read_file h len) = Unit
Allowed s (unlink_file name) =
    IsName name
    × ((k : ℕ) → lookup s (block_of (get_elem? s.inode_table 0)) name ≡ pos k → NoHandle s k)

-- A call with a handle: it is refused where the handle is not open.
abbrev pub OnHandle : Fs → ℤ → ℤ → Fs → (ℕ → Type 0) → Type 0
OnHandle s h r s' Spec =
    (NotOpen s h × (r ≡ minus_one) × (s' ≡ s)) ⊎ ((i : ℕ) × (h ≡ pos i) × Spec i)

-- What each call promises: the specification of a file system by name.
abbrev pub Meets : (s : Fs) → IsSound s → Call → ℤ × List ℕ → (s' : Fs) → IsSound s' → Type 0
Meets s sound (open_file name mode) r s' sound' = OpenSpec s sound name mode r.0 s' sound'
Meets s sound (close_file h) r s' sound' =
    OnHandle s h r.0 s' (λ i. CloseSpec s sound i r.0 s' sound')
Meets s sound (write_file h buffer len) r s' sound' =
    OnHandle s h r.0 s' (λ i. WriteSpec s sound i buffer len r.0 s' sound')
Meets s sound (read_file h len) r s' sound' =
    OnHandle s h r.0 s' (λ i. ReadSpec s sound i len r s' sound')
Meets s sound (unlink_file name) r s' sound' = UnlinkSpec s sound name r.0 s' sound'

module _ (s : Fs) (sound : IsSound s) where
  abbrev v : IsValid s
  v = sound.valid

  not_opened :
      (name : List ℕ)
      → ((k : ℕ) → lookup s (block_of (get_elem? s.inode_table 0)) name ≡ pos k → NoHandle s k)
      → NotOpened s v name
  not_opened name unused k found =
      unused k (ap (λ t. lookup s (block_of t) name) v.root.1.1 ∙ found)

  -- A handle is on a file, or it is not open.
  handle-cases : (h : ℤ) → ((i : ℕ) × (h ≡ pos i) × Opened s sound i) ⊎ NotOpen s h
  handle-cases (negsuc n) = inr (λ i e state. absurd (let wrong = e in cc))
  handle-cases (pos i) = go (state-cases (get_elem? s.free_open_file_entries i))
    where
      go :
          (get_elem? s.free_open_file_entries i ≡ some taken)
            ⊎ (get_elem? s.free_open_file_entries i ≢ some taken)
          → ((j : ℕ) × (pos i ≡ pos j) × Opened s sound j) ⊎ NotOpen s (pos i)
      go (inr closed) = inr (λ j e state.
          closed (
            subst (λ t. get_elem? s.free_open_file_entries t ≡ some taken) (sym (ap index e))
              state))
      go (inl state) =
          let (e, entry) = get_elem?_of_lt s.open_file_table i (
            omega (
              arith,
              lt_of_get_elem? s.free_open_file_entries i state,
              v.shape.files,
              v.shape.file_states,
            )) in
          inl (i, refl, open-Opened s sound i e (state, entry))

  abbrev Ends : Call → ℤ × List ℕ → Fs → Type 0
  Ends call r s' = (sound' : IsSound s') × Meets s sound call r s' sound'

  close_file-Meets : (h : ℤ) → Returns (Ends (close_file h)) (run (close_file h) s)
  unfolding run
  close_file-Meets h = go (handle-cases h)
    where
      go :
          ((i : ℕ) × (h ≡ pos i) × Opened s sound i) ⊎ NotOpen s h
          → Returns (Ends (close_file h)) (run (close_file h) s)
      go (inr closed) =
          rw ((NotOpen-refused s h [] 0 v.shape sound.unlocked closed).0)
            (returns (sound, inl (closed, refl, refl)))
      go (inl (i, same, o)) = rw same (
          Returns.bind (tfs_close-Sound s sound i o)
            (λ r s'. λ (sound', spec). returns (sound', inr (i, refl, spec))))

  write_file-Meets :
      (h : ℤ) (buffer : List ℕ) (len : ℕ)
      → len < 2 ^ 63
      → len ≤ length buffer
      → Returns (Ends (write_file h buffer len)) (run (write_file h buffer len) s)
  unfolding run
  write_file-Meets h buffer len small bytes = go (handle-cases h)
    where
      go :
          ((i : ℕ) × (h ≡ pos i) × Opened s sound i) ⊎ NotOpen s h
          → Returns (Ends (write_file h buffer len)) (run (write_file h buffer len) s)
      go (inr closed) =
          rw ((NotOpen-refused s h buffer len v.shape sound.unlocked closed).1)
            (returns (sound, inl (closed, refl, refl)))
      go (inl (i, same, o)) = rw same (
          Returns.bind (tfs_write-Sound s sound i len buffer o small bytes)
            (λ r s'. λ (sound', spec). returns (sound', inr (i, refl, spec))))

  read_file-Meets : (h : ℤ) (len : ℕ) → Returns (Ends (read_file h len)) (run (read_file h len) s)
  unfolding run
  read_file-Meets h len = go (handle-cases h)
    where
      go :
          ((i : ℕ) × (h ≡ pos i) × Opened s sound i) ⊎ NotOpen s h
          → Returns (Ends (read_file h len)) (run (read_file h len) s)
      go (inr closed) =
          rw ((NotOpen-refused s h [] len v.shape sound.unlocked closed).2)
            (returns (sound, inl (closed, refl, refl)))
      go (inl (i, same, o)) = rw same (
          mono (tfs_read-Sound s sound i len o)
            (λ r s'. λ (sound', spec). (sound', inr (i, refl, spec))))

  -- On a sound state every allowed call returns, in a sound state. By name: `tfs_open` gives the file
  -- the bytes it is opened with (none for a new or a truncated one) and returns a handle that was
  -- FREE, at the start or with O_APPEND at the end, or -1 where every handle is TAKEN; or it returns
  -- -1 with every file and handle as before, where the file is not there and either O_CREAT is not
  -- set or no inode is FREE or the directory has no empty entry. `tfs_unlink` removes the name, or
  -- returns -1 where it is not there. `tfs_close`, `tfs_write` and `tfs_read` return -1 with the
  -- state as before for a handle that is not open; else they free it, write what fits into the block
  -- over the bytes of its file at its offset (or return -1 where the file is empty, there are bytes
  -- to write and no block is FREE), and read from there. Every other file and every other open
  -- handle is as before.
  pub run-Meets :
      (call : Call)
      → Allowed s call
      → Returns (λ r s'. (sound' : IsSound s') × Meets s sound call r s' sound') (run call s)
  unfolding run
  run-Meets (open_file name mode) (is_name, unused) =
      Returns.bind
        (tfs_open-Sound s sound name is_name mode (λ trunc. not_opened name (unused trunc)))
        (λ r s'. λ (sound', spec). returns (sound', spec))
  run-Meets (close_file h) allowed = close_file-Meets h
  run-Meets (write_file h buffer len) (small, bytes) = write_file-Meets h buffer len small bytes
  run-Meets (read_file h len) allowed = read_file-Meets h len
  run-Meets (unlink_file name) (is_name, unused) =
      Returns.bind (tfs_unlink-Sound s sound name is_name (not_opened name unused))
        (λ r s'. λ (sound', spec). returns (sound', spec))
