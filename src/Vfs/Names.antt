-- ===== src/Vfs/Names.antt =====
-- crates/kobako-runtime/src/vfs/namei.rs: the path a call takes and its names. A path is its bytes in
-- UTF-8, where '/', '.' and NUL are one byte each.
use kobako.Common.{
  ℕ, Bool, true, false, List, [], ◌∷◌, ◌==◌, ◌||◌, leb, length, bytes_eq, codes, if◌then◌else◌,
  Result, ok, err,
}
use kobako.Security.Files.{FilesystemError, not_found, invalid_filename, invalid_input}
use kobako.Security.MountPolicies.{path_max}

pub data LastType : Type 0 where
  norm dot dot_dot : LastType

-- The most links one walk follows.
abbrev pub maxsymlinks : ℕ
maxsymlinks = 40

abbrev pub slash : ℕ
slash = 47

abbrev pub nul : ℕ
nul = 0

unfoldable pub contains : ℕ → List ℕ → Bool
contains c [] = false
contains c (x ∷ xs) = x == c || contains c xs

unfoldable pub is_empty : {A : Type 0} → List A → Bool
is_empty [] = true
is_empty (x ∷ xs) = false

unfoldable pub starts_with : ℕ → List ℕ → Bool
starts_with c [] = false
starts_with c (x ∷ xs) = x == c

unfoldable pub getname : List ℕ → Result (Unit {0}) FilesystemError
unfolding is_empty contains
getname path =
    if is_empty path
    then err not_found
    else if leb path_max (length path)
    then err invalid_filename
    else if contains nul path
    then err invalid_input
    else ok tt

-- A byte in front of the first name.
unfoldable pub onto_first : ℕ → List (List ℕ) → List (List ℕ)
onto_first c [] = (c ∷ []) ∷ []
onto_first c (name ∷ names) = (c ∷ name) ∷ names

-- Each name of a path, empty between two slashes and after a last one.
unfoldable pub parts : List ℕ → List (List ℕ)
unfolding onto_first
parts [] = [] ∷ []
parts (c ∷ path) = if c == slash then [] ∷ parts path else onto_first c (parts path)

-- The names behind the empty ones in front, and whether there was an empty one.
unfoldable pub without_slashes : List (List ℕ) → List (List ℕ)
without_slashes ([] ∷ names) = without_slashes names
without_slashes names = names

unfoldable pub any_slashes : List (List ℕ) → Bool
any_slashes ([] ∷ names) = true
any_slashes names = false

unfoldable pub type_of : List ℕ → LastType
type_of name =
    if bytes_eq name (codes ".") then dot else if bytes_eq name (codes "..") then dot_dot else norm

-- Where an empty target leads.
unfoldable pub jump : List ℕ → List ℕ
jump [] = codes "."
jump target = target
