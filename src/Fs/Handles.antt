-- ===== src/Fs/Handles.antt =====
-- File handles: `get_open_file_entry`, `tfs_close`, and the refusal of handles that are not open.
use so.Prelude.{
  ℕ, ◌<◌, ◌≡◌, refl, sym, ap, ◌≢◌, inl, inr, Bool, true, false, none, some, List, [], arith,
  get_elem?, set, ltb, lt→ltb, ltb→lt, Bool-cases, get_elem?_of_lt, lt_of_get_elem?,
}
use so.Prelude.Int.{ℤ, pos, negsuc, minus_one}
use so.Prelude.Run.{ok}
use so.Fs.Types.{AllocationState, free, taken, Fs}
use so.Fs.Access.{at-ok, is_taken, max_open_files}
use so.Fs.OpenFiles.{get_open_file_entry, remove_from_open_file_table}
use so.Fs.Operations.{
  lock_mutex, unlock_mutex, close_entry, tfs_close, write_entry, tfs_write, read_entry, tfs_read,
}
use so.Fs.Valid.{Shape}

-- The handle is closed, was never given out, or is no handle at all.
abbrev pub NotOpen : Fs → ℤ → Type 0
NotOpen s fhandle = (h : ℕ) → fhandle ≡ pos h → get_elem? s.free_open_file_entries h ≢ some taken

free_of_ne_taken : (a : AllocationState) → a ≢ taken → is_taken a ≡ false
free_of_ne_taken free h = refl
free_of_ne_taken taken h = absurd (h refl)

abbrev pub with_lock : Bool → Fs → Fs
with_lock b s = record s { locked = b }

pub lock-ok : (s : Fs) → s.locked ≡ false → lock_mutex s ≡ ok tt (with_lock true s)
unfolding lock_mutex
lock-ok s e = rw e

pub with_lock_same : (s : Fs) → s.locked ≡ false → with_lock false s ≡ s
with_lock_same s e = λ i. record s { locked = sym e i }

-- An open handle yields its entry.
pub get_open_file_entry-open :
    (s : Fs) (h : ℕ)
    → Shape s
    → get_elem? s.free_open_file_entries h ≡ some taken
    → get_open_file_entry (pos h) s ≡ ok (some h) s
unfolding get_open_file_entry
get_open_file_entry-open s h shape e =
    let inside : h < max_open_files s =
      omega (arith, lt_of_get_elem? s.free_open_file_entries h e, shape.file_states) in
    rw (lt→ltb h (max_open_files s) inside, at-ok s.free_open_file_entries h s e)

-- Any other number yields the null pointer.
pub get_open_file_entry-none :
    (s : Fs) (fhandle : ℤ) → Shape s → NotOpen s fhandle → get_open_file_entry fhandle s ≡ ok none s
unfolding get_open_file_entry
get_open_file_entry-none s (negsuc n) shape closed = refl
get_open_file_entry-none s (pos h) shape closed = elim (Bool-cases (ltb h (max_open_files s))) [
  | inr outside ↦ rw outside
  | inl inside ↦
      let (a, e) =
        get_elem?_of_lt s.free_open_file_entries h
          (omega (arith, ltb→lt h (max_open_files s) inside, shape.file_states)) in
      rw (inside, at-ok s.free_open_file_entries h s e)
        (rw (free_of_ne_taken a (λ t. closed h refl (rw t at e))))
]

-- Where the arrays have their sizes and the mutex is free, `tfs_close`, `tfs_write` and `tfs_read`
-- of a handle that is not open return -1 and leave the state as it was.
pub NotOpen-refused :
    (s : Fs) (fhandle : ℤ) (buffer : List ℕ) (len : ℕ)
    → Shape s
    → s.locked ≡ false
    → NotOpen s fhandle
    → (tfs_close fhandle s ≡ ok minus_one s)
      × (tfs_write fhandle buffer len s ≡ ok minus_one s)
      × (tfs_read fhandle len s ≡ ok (minus_one, []) s)
unfolding tfs_close close_entry tfs_write write_entry tfs_read read_entry unlock_mutex
NotOpen-refused s fhandle buffer len shape unlocked closed =
    let none_found = get_open_file_entry-none (with_lock true s) fhandle shape closed in
    (
      rw (lock-ok s unlocked, none_found) (ap (ok minus_one) (with_lock_same s unlocked)),
      rw (lock-ok s unlocked, none_found) (ap (ok minus_one) (with_lock_same s unlocked)),
      rw (lock-ok s unlocked, none_found) (ap (ok (minus_one, [])) (with_lock_same s unlocked)),
    )

-- The state behind `tfs_close` of an open handle.
abbrev pub closed : Fs → ℕ → Fs
closed s h = record s {
  free_open_file_entries = set s.free_open_file_entries h free;
  locked = false;
}

pub tfs_close-ok :
    (s : Fs) (h : ℕ)
    → Shape s
    → s.locked ≡ false
    → get_elem? s.free_open_file_entries h ≡ some taken
    → tfs_close (pos h) s ≡ ok (pos 0) (closed s h)
unfolding tfs_close close_entry remove_from_open_file_table unlock_mutex
tfs_close-ok s h shape unlocked e =
    let inside : h < max_open_files s =
      omega (arith, lt_of_get_elem? s.free_open_file_entries h e, shape.file_states) in
    rw (
      lock-ok s unlocked,
      get_open_file_entry-open (with_lock true s) h shape e,
      lt→ltb h (max_open_files s) inside,
      at-ok s.free_open_file_entries h (with_lock true s) e,
    )
