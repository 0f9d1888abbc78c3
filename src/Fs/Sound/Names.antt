-- ===== src/Fs/Sound/Names.antt =====
-- Names and handles of a sound state.
use so.Prelude.{some, ◌∷◌, ℕ, ◌*◌, ◌≡◌, true, List, subst, arith}
use so.Prelude.Int.{pos}
use so.Fs.Types.{Fs}
use so.Fs.Access.{block_size}
use so.Fs.Directory.Clear.{names_unique}
use so.Fs.Directory.Names.{IsName}
use so.Fs.Directory.Search.{names}
use so.Fs.Lookup.{lookup}
use so.Fs.Open.Truncate.{NoHandle}
use so.Fs.Operations.{CString, valid_pathname}
use so.Fs.Unlink.{IsTidyFs}
use so.Fs.Unlink.Spec.{lookup-EntryOf}
use so.Fs.Valid.{IsValid}

-- Two names of one inode are the same.
pub lookup_unique :
    (s : Fs) (v : IsValid s) (t name : List ℕ) (k : ℕ)
    → IsTidyFs s v
    → IsName t
    → IsName name
    → lookup s v.root.0 t ≡ pos k
    → lookup s v.root.0 name ≡ pos k
    → t ≡ name
lookup_unique s v t name k tidy is_t is_name found_t found =
    let (i, (first_i, in_dir_i, at_i)) = lookup-EntryOf s v t k found_t in
    let (j, (first_j, in_dir_j, at_j)) = lookup-EntryOf s v name k found in
    let same : i ≡ j = tidy.one_name i j k in_dir_i in_dir_j at_i at_j in
    names_unique s.fs_data (v.root.0 * block_size s) t name j is_t is_name
      (subst (λ x. names s.fs_data (v.root.0 * block_size s) t x ≡ true) same first_i.passes)
      first_j.passes

-- The path of a file of this name.
abbrev pub path_of : List ℕ → CString
path_of name = some (b'/' ∷ name)

pub valid_path : (name : List ℕ) → IsName name → valid_pathname (path_of name) ≡ true
valid_path name is_name = let some_byte = is_name.2 in ground arith

-- No handle is on the file of this name.
abbrev pub NotOpened : (s : Fs) → IsValid s → List ℕ → Type 0
NotOpened s v name = (k : ℕ) → lookup s v.root.0 name ≡ pos k → NoHandle s k
