-- ===== src/Fs/Sound/Keep.antt =====
-- `tfs_close`, `tfs_read` and `tfs_write` on a sound state, by name.
use so.Prelude.{
  ℕ, ◌+◌, ◌-◌, ◌≡◌, ◌≢◌, refl, sym, ap, ◌∙◌, ◌⊎◌, inl, inr, some, List, set, length, length-drop,
  drop, get_elem?, get_elem?-set_cases, get_elem?-set_ne, get_elem?-set_self, lt_of_get_elem?, min,
  take, arith,
}
use so.Prelude.Int.{ℤ, pos}
use so.Prelude.Returns.{Returns, returns}
use so.Fs.Types.{Inode, OpenFileEntry, Fs, taken, free}
use so.Fs.Close.{tfs_close_lem, IsOpen-closed}
use so.Fs.Directory.Names.{IsName}
use so.Fs.Handles.{closed}
use so.Fs.Lookup.{lookup}
use so.Fs.Operations.{tfs_close, tfs_read}
use so.Fs.Read.{advanced, left, tfs_read_lem}
use so.Fs.RoundTrip.{take-min, length-file_bytes}
use so.Fs.Sound.{view, Unchanged, OnFile, IsSound, view-some, view-cong, same_lookup, same_sound}
use so.Fs.Valid.{Holds, IsOpen, file_bytes}
use so.Fs.Write.{moved}

-- Every other handle stays open on its file, at its offset.
abbrev pub OthersKept : Fs → ℕ → Fs → Type 0
OthersKept s h s' = (i : ℕ) (e : OpenFileEntry) → i ≢ h → IsOpen s i e → IsOpen s' i e

-- The file that an open handle is on.
pub record Opened (s : Fs) (sound : IsSound s) (h : ℕ) : Type 0 where
  pub entry : OpenFileEntry
  pub number : ℕ
  pub inode : Inode
  pub name : List ℕ
  pub is_open : IsOpen s h entry
  pub of_inumber : entry.of_inumber ≡ pos number
  pub not_root : number ≢ 0
  pub holds : Holds s number inode
  pub is_name : IsName name
  pub found : lookup s sound.valid.root.0 name ≡ pos number

pub open-Opened :
    (s : Fs) (sound : IsSound s) (h : ℕ) (e : OpenFileEntry) → IsOpen s h e → Opened s sound h
open-Opened s sound h e opened =
    let (k, n, number, ne, holds, le) = sound.valid.handles h e opened in
    let (name, is_name, found) = sound.named h e opened in
    record {
      entry = e;
      number = k;
      inode = n;
      name = name;
      is_open = opened;
      of_inumber = number;
      not_root = ne;
      holds = holds;
      is_name = is_name;
      found = found ∙ number;
    }

-- What is seen by name of an open handle.
pub Opened-OnFile :
    (s : Fs) (sound : IsSound s) (h : ℕ) (o : Opened s sound h)
    → OnFile s sound.valid h o.name o.entry.of_offset
      × (view s sound.valid o.name ≡ some (file_bytes s o.inode))
Opened-OnFile s sound h o = (
  (o.entry, o.is_open, o.found ∙ sym o.of_inumber, refl, o.is_name),
  view-some s sound.valid o.name o.number o.inode o.found o.holds,
)

-- `tfs_close` of an open handle: it is FREE, and every file is as before.
abbrev pub CloseSpec : (s : Fs) → IsSound s → ℕ → ℤ → (s' : Fs) → IsSound s' → Type 0
CloseSpec s sound h r s' sound' =
    (r ≡ pos 0)
    × (s'.free_open_file_entries ≡ set s.free_open_file_entries h free)
    × OthersKept s h s'
    × Unchanged (view s sound.valid) (view s' sound'.valid)

pub tfs_close-Sound :
    (s : Fs) (sound : IsSound s) (h : ℕ)
    → Opened s sound h
    → Returns
        (λ r s'. (sound' : IsSound s') × CloseSpec s sound h r s' sound')
        (tfs_close (pos h) s)
tfs_close-Sound s sound h o =
    let (e, valid') = tfs_close_lem s h sound.valid sound.unlocked o.is_open.0 in
    let sound' : IsSound (closed s h) =
      same_sound s (closed s h) sound.valid valid' refl sound.valid.root.1 refl sound.tidy refl
        (λ i e' opened. sound.named i e' (IsOpen-closed s h sound.valid i e' opened).1) in
    rw e (
      returns (
        sound',
        (
          refl,
          refl,
          (λ i e' ne opened. (
            get_elem?-set_ne s.free_open_file_entries h i free (λ p. ne (sym p)) ∙ opened.0,
            opened.1,
          )),
          (λ t is_t.
              view-cong s (closed s h) sound.valid sound'.valid t
                (same_lookup s (closed s h) sound.valid sound'.valid refl sound.valid.root.1 refl t)
                (λ k n found ne holds. (holds, refl))),
        ),
      ))

-- `tfs_read` of an open handle: the bytes of its file from the offset on, as many as there are and
-- at most `len`; the offset moves behind them, and every file is as before.
abbrev pub ReadSpec : (s : Fs) → IsSound s → ℕ → ℕ → ℤ × List ℕ → (s' : Fs) → IsSound s' → Type 0
ReadSpec s sound h len r s' sound' =
    (name : List ℕ) × (offset : ℕ) × (old : List ℕ) × OnFile s sound.valid h name offset
    × (view s sound.valid name ≡ some old)
    × (r ≡ (pos (min len (length old - offset)), take len (drop offset old)))
    × OnFile s' sound'.valid h name (offset + min len (length old - offset))
    × OthersKept s h s'
    × Unchanged (view s sound.valid) (view s' sound'.valid)

-- The handle's file behind a call that moves its offset.
moved-inumber :
    (s : Fs) (h m : ℕ) (e : OpenFileEntry) (k : ℕ)
    → e.of_inumber ≡ pos k
    → (i : ℕ) (e' : OpenFileEntry) → get_elem? s.free_open_file_entries h ≡ some taken
    → IsOpen s h e
    → IsOpen (advanced s h e m) i e'
    → (i' : ℕ) × (e'' : OpenFileEntry) × IsOpen s i' e'' × (e''.of_inumber ≡ e'.of_inumber)
moved-inumber s h m e k number i e' state here opened =
    go (get_elem?-set_cases s.open_file_table h i (moved e m) opened.1)
  where
    go :
        ((h ≡ i) × (moved e m ≡ e')) ⊎ ((h ≢ i) × (get_elem? s.open_file_table i ≡ some e'))
        → (i' : ℕ) × (e'' : OpenFileEntry) × IsOpen s i' e'' × (e''.of_inumber ≡ e'.of_inumber)
    go (inl (p, q)) = (h, e, here, ap (λ t. t.of_inumber) q)
    go (inr (p, q)) = (i, e', (opened.0, q), refl)

take-left :
    (len off : ℕ) (old : List ℕ)
    → take (min len (length old - off)) (drop off old) ≡ take len (drop off old)
take-left len off old =
    let size : length old - off ≡ length (drop off old) = omega (arith, length-drop off old) in
    ap (λ t. take (min len t) (drop off old)) size ∙ take-min len (drop off old)

pub tfs_read-Sound :
    (s : Fs) (sound : IsSound s) (h len : ℕ)
    → Opened s sound h
    → Returns
        (λ r s'. (sound' : IsSound s') × ReadSpec s sound h len r s' sound')
        (tfs_read (pos h) len s)
tfs_read-Sound s sound h len o =
    let v = sound.valid in
    let old = file_bytes s o.inode in
    let m = left o.entry o.inode len in
    let after = advanced s h o.entry m in
    let (e, valid') =
      tfs_read_lem s h o.number len o.entry o.inode v sound.unlocked o.is_open o.of_inumber
        o.holds in
    let from : (i : ℕ) (e' : OpenFileEntry)
        → IsOpen after i e'
        → (name : List ℕ) × IsName name × (lookup s v.root.0 name ≡ e'.of_inumber) =
      λ i e' opened.
        let (i', e'', opened', same) =
          moved-inumber s h m o.entry o.number o.of_inumber i e' o.is_open.0 o.is_open opened in
        let (name, is_name, found) = sound.named i' e'' opened' in (name, is_name, found ∙ same) in
    let sound' : IsSound after =
      same_sound s after v valid' refl v.root.1 refl sound.tidy sound.unlocked from in
    let lookups : (t : List ℕ) → lookup after sound'.valid.root.0 t ≡ lookup s v.root.0 t =
      same_lookup s after v sound'.valid refl v.root.1 refl in
    let size : length old ≡ o.inode.i_size = length-file_bytes s o.number o.inode v o.holds in
    let count : m ≡ min len (length old - o.entry.of_offset) =
      ap (λ t. min len (t - o.entry.of_offset)) (sym size) in
    let (on_file, bytes) = Opened-OnFile s sound h o in
    rw e (
      returns (
        sound',
        (
          o.name,
          o.entry.of_offset,
          old,
          on_file,
          bytes,
          ap (λ t. (pos t, take t (drop o.entry.of_offset old))) count
              ∙ ap (λ t. (pos (min len (length old - o.entry.of_offset)), t))
                  (take-left len o.entry.of_offset old),
          (
            moved o.entry m,
            (
              o.is_open.0,
              get_elem?-set_self s.open_file_table h (moved o.entry m)
                  (lt_of_get_elem? s.open_file_table h o.is_open.1),
            ),
            lookups o.name ∙ o.found ∙ sym o.of_inumber,
            ap (λ t. o.entry.of_offset + t) count,
            o.is_name,
          ),
          (λ i e' ne opened. (
            opened.0,
            get_elem?-set_ne s.open_file_table h i (moved o.entry m) (λ p. ne (sym p)) ∙ opened.1,
          )),
          (λ t is_t.
              view-cong s after v sound'.valid t (lookups t) (λ k n found ne holds. (holds, refl))),
        ),
      ))
