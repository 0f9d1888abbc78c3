-- ===== src/Fs/Sound.antt =====
-- TécnicoFS by name: the bytes of each file, and the invariant behind that view. A name in the root
-- directory stands for one file, and an open handle is on a file that has a name.
pub mod Names
pub mod Keep
pub mod Write
pub mod Create
pub mod Open
pub mod Opening
pub mod Unlink
pub mod Samples
use so.Prelude.{
  ℕ, ◌+◌, ◌*◌, ◌/◌, ◌≤◌, ◌<◌, ◌≡◌, ◌≢◌, refl, sym, ap, ◌∙◌, ◌⊎◌, inl, inr, true, false, Option,
  none, some, List, get_elem?, subst, arith,
}
use so.Prelude.Int.{ℤ, pos, negsuc, minus_one}
use so.Prelude.Bytes.{slice}
use so.Fs.Types.{t_directory, Inode, OpenFileEntry, Fs}
use so.Fs.Access.{block_size, max_dir_entries}
use so.Fs.Directory.{find_loop}
use so.Fs.Directory.Names.{IsName}
use so.Fs.Directory.Slices.{find_loop-block, IsTidy-block}
use so.Fs.Directory.Tidy.{IsTidy}
use so.Fs.Lookup.{root_inode, lookup, root_block_unique, lookup-IsEntry}
use so.Fs.Unlink.{IsTidyFs}
use so.Fs.Valid.{Holds, IsEntry, IsOpen, IsValid, file_bytes}

-- The bytes of the file with this inode number.
abbrev pub inode_bytes : Fs → Option Inode → Option (List ℕ)
inode_bytes s none = none
inode_bytes s (some n) = some (file_bytes s n)

abbrev pub bytes_of : Fs → ℤ → Option (List ℕ)
bytes_of s (negsuc n) = none
bytes_of s (pos k) = inode_bytes s (get_elem? s.inode_table k)

-- Every open handle is on a file with a name.
abbrev pub AreNamed : (s : Fs) → IsValid s → Type 0
AreNamed s v =
    (h : ℕ) (e : OpenFileEntry)
    → IsOpen s h e
    → (name : List ℕ) × IsName name × (lookup s v.root.0 name ≡ e.of_inumber)

-- The invariant between two calls.
pub record IsSound (s : Fs) : Type 0 where
  pub valid : IsValid s
  pub tidy : IsTidyFs s valid
  pub named : AreNamed s valid
  pub unlocked : s.locked ≡ false

-- What a client sees: the bytes under each name.
abbrev pub View : Type 0
View = List ℕ → Option (List ℕ)

abbrev pub view : (s : Fs) → IsValid s → View
view s v name = bytes_of s (lookup s v.root.0 name)

-- A view in which one name has changed.
abbrev pub Updates : View → List ℕ → Option (List ℕ) → View → Type 0
Updates f name x g = (g name ≡ x) × ((t : List ℕ) → IsName t → t ≢ name → g t ≡ f t)

abbrev pub Unchanged : View → View → Type 0
Unchanged f g = (t : List ℕ) → IsName t → g t ≡ f t

-- Handle `h` is on the file of this name, at this offset.
abbrev pub OnFile : (s : Fs) → IsValid s → ℕ → List ℕ → ℕ → Type 0
OnFile s v h name offset =
    (e : OpenFileEntry) × IsOpen s h e
    × (lookup s v.root.0 name ≡ e.of_inumber)
    × (e.of_offset ≡ offset)
    × IsName name

pub view-none :
    (s : Fs) (v : IsValid s) (name : List ℕ)
    → lookup s v.root.0 name ≡ minus_one
    → view s v name ≡ none
view-none s v name absent = ap (bytes_of s) absent

pub bytes_of-Holds :
    (s : Fs) (k : ℕ) (n : Inode)
    → get_elem? s.inode_table k ≡ some n
    → bytes_of s (pos k) ≡ some (file_bytes s n)
bytes_of-Holds s k n inode = ap (inode_bytes s) inode

pub view-some :
    (s : Fs) (v : IsValid s) (name : List ℕ) (k : ℕ) (n : Inode)
    → lookup s v.root.0 name ≡ pos k
    → Holds s k n
    → view s v name ≡ some (file_bytes s n)
view-some s v name k n found holds = ap (bytes_of s) found ∙ bytes_of-Holds s k n holds.1

-- A name keeps its bytes where it keeps its inode, and the inode its bytes.
pub view-cong :
    (s s' : Fs) (v : IsValid s) (v' : IsValid s') (name : List ℕ)
    → lookup s' v'.root.0 name ≡ lookup s v.root.0 name
    → ((k : ℕ) (n : Inode)
        → lookup s v.root.0 name ≡ pos k
        → k ≢ 0
        → Holds s k n
        → Holds s' k n × (file_bytes s' n ≡ file_bytes s n))
    → view s' v' name ≡ view s v name
view-cong s s' v v' name same kept = go (lookup-IsEntry s v name)
  where
    go : IsEntry s (lookup s v.root.0 name) → view s' v' name ≡ view s v name
    go (inl absent) = view-none s' v' name (same ∙ absent) ∙ sym (view-none s v name absent)
    go (inr (k, n, found, ne, small, holds)) =
        let (holds', bytes) = kept k n found ne holds in
        view-some s' v' name k n (same ∙ found) holds'
        ∙ ap some bytes
        ∙ sym (view-some s v name k n found holds)

-- The block of the root directory has not changed.
module _ (s s' : Fs) (v : IsValid s) (v' : IsValid s') (params : s'.fs_params ≡ s.fs_params)
    (root : Holds s' 0 (root_inode s v.root.0))
    (same : slice (v.root.0 * block_size s) (block_size s) s'.fs_data
      ≡ slice (v.root.0 * block_size s) (block_size s) s.fs_data) where
  size : block_size s' ≡ block_size s
  size = ap (λ t. t.block_size) params

  block : v'.root.0 ≡ v.root.0
  block = root_block_unique s' v.root.0 v' (
      subst
        (λ t.
          Holds s' 0
            (record { i_node_type = t_directory; i_size = t; i_data_block = pos v.root.0 }))
        (sym size) root)

  pub same_lookup : (name : List ℕ) → lookup s' v'.root.0 name ≡ lookup s v.root.0 name
  same_lookup name =
      ap (λ t. lookup s' t name) block
      ∙ ap (λ t. lookup_in t) size
      ∙ find_loop-block s.fs_data s'.fs_data (v.root.0 * block_size s) (block_size s) same name
    where
      lookup_in : ℕ → ℤ
      lookup_in t = find_loop s'.fs_data (v.root.0 * t) name (t / 44) 0

  pub same_tidy : IsTidyFs s v → IsTidyFs s' v'
  same_tidy tidy =
      subst (λ b. IsTidy s'.fs_data (b * block_size s') (max_dir_entries s')) (sym block)
        (subst (λ t. IsTidy s'.fs_data (v.root.0 * t) (t / 44)) (sym size)
          (IsTidy-block s.fs_data s'.fs_data (v.root.0 * block_size s) (block_size s) same tidy))

  -- Where each handle is on a named file of the state before, the state stays sound.
  pub same_sound :
      IsTidyFs s v
      → s'.locked ≡ false
      → ((h : ℕ) (e : OpenFileEntry)
          → IsOpen s' h e
          → (name : List ℕ) × IsName name × (lookup s v.root.0 name ≡ e.of_inumber))
      → IsSound s'
  same_sound tidy unlocked from = record {
    valid = v';
    tidy = same_tidy tidy;
    named = λ h e opened.
        let (name, is_name, found) = from h e opened in (name, is_name, same_lookup name ∙ found);
    unlocked = unlocked;
  }
