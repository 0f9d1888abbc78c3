-- ===== src/Fs/Close.antt =====
-- About `tfs_close` of fs/operations.c.
use so.Prelude.{
  sym, ap, subst, Option, none, [], refl, inl, inr, ℕ, ◌≡◌, ◌≢◌, ◌⊎◌, ◌∙◌, inl, inr, false, some,
  get_elem?, get_elem?-set_cases, length-set,
}
use so.Prelude.Int.{ℤ, negsuc, pos}
use so.Prelude.Run.{ok}
use so.Fs.Types.{AllocationState, OpenFileEntry, Fs, free, taken}
use so.Prelude.Returns.{Returns, returns}
use so.Fs.Access.{index}
use so.Fs.Handles.{NotOpen-refused, closed, tfs_close-ok}
use so.Fs.Operations.{tfs_close}
use so.Fs.Valid.{IsOpen, IsValid}

module _ (s : Fs) (h : ℕ) (v : IsValid s) where
  abbrev after : Fs
  after = closed s h

  -- A handle that is open behind the close was open before, and is not the closed one.
  pub IsOpen-closed : (i : ℕ) (e : OpenFileEntry) → IsOpen after i e → (h ≢ i) × IsOpen s i e
  IsOpen-closed i e opened = go (get_elem?-set_cases s.free_open_file_entries h i free opened.0)
    where
      go :
          ((h ≡ i) × (free ≡ taken))
            ⊎ ((h ≢ i) × (get_elem? s.free_open_file_entries i ≡ some taken))
          → (h ≢ i) × IsOpen s i e
      go (inl (p, wrong)) = absurd (let q = wrong in cc)
      go (inr (ne, state)) = (ne, (state, opened.1))

  pub closed-IsValid : IsValid after
  closed-IsValid = record {
    shape = record {
      inodes = v.shape.inodes;
      inode_states = v.shape.inode_states;
      bytes = v.shape.bytes;
      block_states = v.shape.block_states;
      files = v.shape.files;
      file_states = length-set s.free_open_file_entries h free ∙ v.shape.file_states;
      some_bytes = v.shape.some_bytes;
      small_blocks = v.shape.small_blocks;
      few_inodes = v.shape.few_inodes;
    };
    sizes = v.sizes;
    blocks = v.blocks;
    apart = v.apart;
    root = v.root;
    entries = v.entries;
    handles = λ i e opened. v.handles i e (IsOpen-closed i e opened).1;
  }

-- On a valid state with the mutex free, `tfs_close` of an open handle returns 0, makes the handle
-- FREE and changes nothing else; the state is valid.
pub tfs_close_lem :
    (s : Fs) (h : ℕ)
    → IsValid s
    → s.locked ≡ false
    → get_elem? s.free_open_file_entries h ≡ some taken
    → (tfs_close (pos h) s ≡ ok (pos 0) (closed s h)) × IsValid (closed s h)
tfs_close_lem s h v unlocked opened =
    (tfs_close-ok s h v.shape unlocked opened, closed-IsValid s h v)

pub state-cases : (o : Option AllocationState) → (o ≡ some taken) ⊎ (o ≢ some taken)
state-cases none = inr (λ e. absurd (let wrong = e in cc))
state-cases (some free) = inr (λ e. absurd (let wrong = e in cc))
state-cases (some taken) = inl refl

-- `tfs_close` of any number returns, in a valid state, the mutex free.
pub tfs_close-IsValid :
    (s : Fs) (fhandle : ℤ)
    → IsValid s
    → s.locked ≡ false
    → Returns (λ r s'. IsValid s' × (s'.locked ≡ false)) (tfs_close fhandle s)
tfs_close-IsValid s (negsuc n) v unlocked =
    rw
      ((NotOpen-refused s (negsuc n) [] 0 v.shape unlocked
        (λ h e state. absurd (let wrong = e in cc))).0)
      (returns (v, unlocked))
tfs_close-IsValid s (pos h) v unlocked = go (state-cases (get_elem? s.free_open_file_entries h))
  where
    go :
        (get_elem? s.free_open_file_entries h ≡ some taken)
          ⊎ (get_elem? s.free_open_file_entries h ≢ some taken)
        → Returns (λ r s'. IsValid s' × (s'.locked ≡ false)) (tfs_close (pos h) s)
    go (inl opened) =
        let (e, valid) = tfs_close_lem s h v unlocked opened in rw e (returns (valid, refl))
    go (inr not_open) =
        rw
          ((NotOpen-refused s (pos h) [] 0 v.shape unlocked (λ k e state. not_open (
            subst (λ t. get_elem? s.free_open_file_entries t ≡ some taken) (sym (ap index e))
              state))).0)
          (returns (v, unlocked))
