-- ===== src/Fs/Calls/Runs.antt =====
-- Sequences of calls on a file system, from `tfs_init` on.
use so.Prelude.{ℕ, ◌*◌, ◌≡◌, inl, inr, false, Option, List, subst}
use so.Prelude.Int.{ℤ, minus_one}
use so.Prelude.Run.{ok}
use so.Prelude.Returns.{Returns, mono, result_of}
use so.Fs.Types.{Params, Fs, Allocation}
use so.Fs.Access.{block_size, max_dir_entries}
use so.Fs.Calls.{Call, run, Allowed, Meets, run-Meets}
use so.Fs.Directory.{entry_at, entry_inumber}
use so.Fs.Directory.Grow.{empty-IsTidy}
use so.Fs.Init.{IsAllocated, IsFresh, tfs_init-IsFresh}
use so.Fs.Operations.{params_of, tfs_init}
use so.Fs.Sound.{IsSound}
use so.Fs.Valid.{IsEntry}

-- Any number of allowed calls, each of which has returned.
pub data Runs : Fs → Fs → Type 0 where
  stop : {s : Fs} → Runs s s
  step :
      {s s' s'' : Fs} (call : Call) (r : ℤ × List ℕ)
      → Allowed s call
      → run call s ≡ ok r s'
      → Runs s' s''
      → Runs s s''

-- A fresh file system is sound, and has no file.
pub fresh-Sound : (r : ℤ) (s : Fs) → IsFresh r s → IsSound s
fresh-Sound r s fresh = record {
  valid = fresh.valid;
  tidy =
      empty-IsTidy s.fs_data (fresh.valid.root.0 * block_size s) (max_dir_entries s)
        (λ i lt. no_entry i (fresh.valid.entries i lt));
  named = λ h e opened. absurd (fresh.no_handle h e opened);
  unlocked = fresh.unlocked;
}
  where
    no_entry :
        (i : ℕ)
        → IsEntry s (entry_inumber s.fs_data (entry_at (fresh.valid.root.0 * block_size s) i))
        → entry_inumber s.fs_data (entry_at (fresh.valid.root.0 * block_size s) i) ≡ minus_one
    no_entry i (inl e) = e
    no_entry i (inr (k, n, eq, ne, small, holds)) = absurd (ne (fresh.no_file k n holds))

Runs-Sound : (s s' : Fs) → IsSound s → Runs s s' → IsSound s'
Runs-Sound s s' sound stop = sound
Runs-Sound s s'' sound (step {s' = s'} call r allowed e rest) =
    let after : (sound' : IsSound s') × Meets s sound call r s' sound' = result_of r s' (
      subst (λ t. Returns (λ r s'. (sound' : IsSound s') × Meets s sound call r s' sound') t) e
        (run-Meets s sound call allowed)) in
    Runs-Sound s' s'' after.0 rest

-- Before any `tfs_init` and with the mutex free, where `malloc` returns arrays of the sizes asked
-- for, let `tfs_init` end in a state. Behind any sequence of allowed calls from there the state is
-- sound, and the next allowed call returns, in a sound state: it does not end the process, nor read
-- or write outside an array, nor wait for ever.
pub Runs-Returns :
    (params : Option Params) (mem : Allocation) (s s0 s' : Fs) (r : ℤ) (call : Call)
    → IsAllocated (params_of params) mem
    → s.ready ≡ false
    → s.locked ≡ false
    → tfs_init params mem s ≡ ok r s0
    → Runs s0 s'
    → Allowed s' call
    → IsSound s' × Returns (λ a s''. IsSound s'') (run call s')
Runs-Returns params mem s s0 s' r call allocated off unlocked e runs allowed =
    let fresh : IsFresh r s0 =
      result_of r s0
        (subst (λ t. Returns IsFresh t) e (tfs_init-IsFresh params mem s allocated off unlocked)) in
    let sound' = Runs-Sound s0 s' (fresh-Sound r s0 fresh) runs in
    (sound', mono (run-Meets s' sound' call allowed) (λ a s''. λ (sound'', spec). sound''))
