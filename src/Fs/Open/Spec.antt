-- ===== src/Fs/Open/Spec.antt =====
-- What `tfs_open` does on each branch.
use so.Prelude.{
  ℕ, ◌≤◌, ◌<◌, ◌≡◌, ◌≢◌, refl, sym, ap, ◌∙◌, ◌⊎◌, inl, inr, Bool, true, false, ◌&&◌, length, arith,
  ltb, ltb→lt, lt_of_get_elem?, Bool-cases, if◌then◌else◌,
}
use so.Prelude.Int.{ℤ, pos, minus_one}
use so.Prelude.Run.{ok}
use so.Prelude.Returns.{Returns, returns, mono}
use so.Fs.Types.{Inode, Fs, FileMode}
use so.Fs.Access.{index, data_blocks}
use so.Fs.Handles.{with_lock, with_lock_same, lock-ok}
use so.Fs.Lookup.{lookup, root-inode_get, tfs_lookup-lookup, lookup-IsEntry}
use so.Fs.Open.{Finished, open_finish-Finished}
use so.Fs.Open.Creation.{Created, open_create-Created}
use so.Fs.Open.Truncate.{
  start_of, emptied, truncated, NoHandle, open_existing-keeps, open_existing-truncates,
  truncated-IsValid, emptied-Holds,
}
use so.Fs.Inodes.{inode_get}
use so.Fs.Operations.{CString, valid_pathname, after_slash, unlock_mutex, open_inode, tfs_open}
use so.Fs.Valid.{Holds, IsEntry, IsValid}
use so.Fs.Write.Outcome.{inode_get-ok}

pub truncates-parts : (c : Bool) (size : ℕ) → (c && ltb 0 size) ≡ true → (c ≡ true) × (0 < size)
truncates-parts true size h = (refl, ltb→lt 0 size h)
truncates-parts false size h = absurd (let wrong = h in cc)

module _ (s : Fs) (name : CString) (mode : FileMode) (v : IsValid s)
    (unlocked : s.locked ≡ false) where
  abbrev locked_s : Fs
  locked_s = with_lock true s

  abbrev number : ℤ
  number = lookup s v.root.0 (after_slash name)

  -- On a valid state with the mutex free, `tfs_open` of a name that is no path name, or that is not
  -- found and O_CREAT not asked for, returns -1 and leaves the state as it was.
  pub tfs_open-refused :
      (valid_pathname name ≡ false) ⊎ ((number ≡ minus_one) × (mode.o_creat ≡ false))
      → tfs_open name mode s ≡ ok minus_one s
  unfolding tfs_open open_inode unlock_mutex
  tfs_open-refused why = go why (Bool-cases (valid_pathname name))
    where
      go :
          (valid_pathname name ≡ false) ⊎ ((number ≡ minus_one) × (mode.o_creat ≡ false))
          → (valid_pathname name ≡ true) ⊎ (valid_pathname name ≡ false)
          → tfs_open name mode s ≡ ok minus_one s
      go why (inr bad) =
          rw (lock-ok s unlocked, bad) (ap (ok minus_one) (with_lock_same s unlocked))
      go (inl bad) (inl good) = absurd (let b = bad in cc)
      go (inr (absent, no_creat)) (inl good) =
          rw
            (
              lock-ok s unlocked,
              good,
              root-inode_get locked_s v,
              tfs_lookup-lookup locked_s v name good,
              absent,
              no_creat,
            )
            (ap (ok minus_one) (with_lock_same s unlocked))

  module _ (good : valid_pathname name ≡ true) where
    -- On a valid state with the mutex free, `tfs_open` with O_CREAT of a valid path name that is
    -- not found returns in one of three ways. Every inode is TAKEN: -1, the state as before. The
    -- name has more than 39 bytes or no entry of the root directory is empty: -1, in a valid state
    -- in which only the contents of a FREE inode have changed. Else the first FREE inode becomes an
    -- empty file, the first empty entry its name, and the first FREE handle is opened on it at 0,
    -- or -1 is returned where every handle is TAKEN; the state is valid.
    pub tfs_open-creates :
        number ≡ minus_one
        → mode.o_creat ≡ true
        → 0 < length (after_slash name)
        → Returns (Created s v (after_slash name)) (tfs_open name mode s)
    unfolding tfs_open open_inode
    tfs_open-creates absent creat some_name =
        rw
          (
            lock-ok s unlocked,
            good,
            root-inode_get locked_s v,
            tfs_lookup-lookup locked_s v name good,
            absent,
            creat,
          )
          (open_create-Created locked_s (after_slash name) v some_name)

    module _ (k : ℕ) (n : Inode) (found : number ≡ pos k) (ne_root : k ≢ 0)
        (holds : Holds s k n) where
      there : inode_get (pos k) locked_s ≡ ok k locked_s
      there =
          inode_get-ok locked_s (pos k) k refl
            (omega (arith, lt_of_get_elem? s.inode_table k holds.1, v.shape.inodes))

      -- On a valid state with the mutex free, `tfs_open` of a path name that leads to a file,
      -- without O_TRUNC or for a file with no bytes, opens the first FREE handle on it at its start
      -- or, with O_APPEND, at its end, or returns -1 where every handle is TAKEN; nothing else
      -- changes and the state is valid.
      pub tfs_open-existing :
          (mode.o_trunc && ltb 0 n.i_size) ≡ false
          → Returns (Finished s k (start_of mode n)) (tfs_open name mode s)
      unfolding tfs_open open_inode
      tfs_open-existing keeps =
          rw
            (
              lock-ok s unlocked,
              good,
              root-inode_get locked_s v,
              tfs_lookup-lookup locked_s v name good,
              found,
              there,
              open_existing-keeps locked_s mode k n holds.1 keeps,
            )
            (open_finish-Finished locked_s k (start_of mode n) n v ne_root holds
              (start-le mode.o_append))
        where
          start-le : (b : Bool) → (if b then n.i_size else 0) ≤ n.i_size
          start-le true = omega arith
          start-le false = omega arith

      block_inside : (b : ℕ) → 0 < n.i_size → n.i_data_block ≡ pos b → b < data_blocks s
      block_inside b some_bytes block =
          let (c, eq, state) = v.blocks k n holds some_bytes in
          let same : c ≡ b = ap index (sym eq ∙ block) in
          omega (arith, lt_of_get_elem? s.free_blocks c state, v.shape.block_states)

      -- On a valid state with the mutex free, `tfs_open` with O_TRUNC of a path name that leads to
      -- a file with bytes that no handle is on sets the file's size to 0, makes its block FREE and
      -- opens the first FREE handle on it at 0, or returns -1 where every handle is TAKEN; the
      -- state is valid.
      pub tfs_open-truncates :
          (b : ℕ)
          → (mode.o_trunc && ltb 0 n.i_size) ≡ true
          → n.i_data_block ≡ pos b
          → NoHandle s k
          → Returns (Finished (truncated s k n b) k 0) (tfs_open name mode s)
      unfolding tfs_open open_inode
      tfs_open-truncates b truncates block unused =
          rw
            (
              lock-ok s unlocked,
              good,
              root-inode_get locked_s v,
              tfs_lookup-lookup locked_s v name good,
              found,
              there,
              open_existing-truncates locked_s mode k b n holds.1 truncates block
                  (block_inside b (truncates-parts mode.o_trunc n.i_size truncates).1 block),
            )
            (open_finish-Finished (truncated locked_s k n b) k 0 (emptied n)
              (truncated-IsValid locked_s k b n v ne_root holds
                (truncates-parts mode.o_trunc n.i_size truncates).1 block unused)
              ne_root
              (emptied-Holds locked_s k b n v ne_root holds
                (truncates-parts mode.o_trunc n.i_size truncates).1 block unused)
              (omega arith))

  -- No file that the name stands for is open while O_TRUNC is asked for.
  abbrev NotTruncatedOpen : Type 0
  NotTruncatedOpen = (k : ℕ) → number ≡ pos k → mode.o_trunc ≡ true → NoHandle s k

  -- On a valid state with the mutex free, `tfs_open` of a name with bytes behind its first
  -- character returns, in a valid state with the mutex free, where no handle is on the file that
  -- the name leads to or O_TRUNC is not asked for.
  pub tfs_open-IsValid :
      0 < length (after_slash name)
      → NotTruncatedOpen
      → Returns (λ r s'. IsValid s' × (s'.locked ≡ false)) (tfs_open name mode s)
  tfs_open-IsValid some_name unused =
      go (Bool-cases (valid_pathname name)) (lookup-IsEntry s v (after_slash name))
        (Bool-cases mode.o_creat)
    where
      refused :
          (valid_pathname name ≡ false) ⊎ ((number ≡ minus_one) × (mode.o_creat ≡ false))
          → Returns (λ r s'. IsValid s' × (s'.locked ≡ false)) (tfs_open name mode s)
      refused why = rw (tfs_open-refused why) (returns (v, unlocked))

      after_create :
          (r : ℤ) (s' : Fs) → Created s v (after_slash name) r s' → IsValid s' × (s'.locked ≡ false)
      after_create r s' (inl (e, same, all)) = rw same (v, refl)
      after_create r s' (inr (inl (j, first, e, same, valid, why))) = (valid, rw same)
      after_create r s' (inr (inr (j, k, first, inside, empty, in_dir, short, end))) =
          (end.0, end.1)

      found :
          (k : ℕ) (n : Inode)
          → number ≡ pos k
          → k ≢ 0
          → Holds s k n
          → valid_pathname name ≡ true
          → ((mode.o_trunc && ltb 0 n.i_size) ≡ true) ⊎ ((mode.o_trunc && ltb 0 n.i_size) ≡ false)
          → Returns (λ r s'. IsValid s' × (s'.locked ≡ false)) (tfs_open name mode s)
      found k n number_k ne holds good (inr keeps) =
          mono (tfs_open-existing good k n number_k ne holds keeps) (λ r s' end. (end.0, end.1))
      found k n number_k ne holds good (inl truncates) =
          let (b, eq, state) =
            v.blocks k n holds (truncates-parts mode.o_trunc n.i_size truncates).1 in
          mono
            (tfs_open-truncates good k n number_k ne holds b truncates eq
              (unused k number_k (truncates-parts mode.o_trunc n.i_size truncates).0))
            (λ r s' end. (end.0, end.1))

      go :
          (valid_pathname name ≡ true) ⊎ (valid_pathname name ≡ false)
          → IsEntry s number
          → (mode.o_creat ≡ true) ⊎ (mode.o_creat ≡ false)
          → Returns (λ r s'. IsValid s' × (s'.locked ≡ false)) (tfs_open name mode s)
      go (inr bad) entry creat = refused (inl bad)
      go (inl good) (inl absent) (inr no_creat) = refused (inr (absent, no_creat))
      go (inl good) (inl absent) (inl creat) =
          mono (tfs_open-creates good absent creat some_name) after_create
      go (inl good) (inr (k, n, number_k, ne, small, holds)) creat =
          found k n number_k ne holds good (Bool-cases (mode.o_trunc && ltb 0 n.i_size))
