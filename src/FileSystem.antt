-- ===== src/FileSystem.antt =====
-- `std::filesystem` and `std::ifstream`, as lib/static_content.cpp uses them: a file system is what
-- a path leads to, links followed, and a path is its text under POSIX. A text that holds a zero byte
-- leads where the system's calls lead, which read it up to that byte. That an access is refused shows
-- as a file that cannot be opened, a directory that cannot be listed, or a path with no status.
use mathlib.Core.List.{reverse}
use f.Prelude.{
  Bool, true, false, ◌||◌, Option, none, some, List, [], ◌∷◌, ◌++◌, ◌==◌, if◌then◌else◌,
}
use f.Bytes.{Bytes, codes, equal, before, from}

-- A directory's entry: its name, and whether it is a regular file.
pub record Entry : Type 0 where
  pub filename : Bytes
  pub is_regular : Bool

-- `barred` is what the system refuses to tell: the status of the path is an error other than that
-- nothing is there, as for a name that is too long or a directory that may not be searched.
pub data Node : Type 0 where
  regular : Option Bytes → Node
  directory : Option (List Entry) → Node
  other barred : Node

abbrev pub FileSystem : Type 0
FileSystem = Bytes → Option Node

-- `exists`, `is_directory` and `is_regular_file`; `none` is their `filesystem_error`.
abbrev pub exists : Option Node → Option Bool
exists none = some false
exists (some barred) = none
exists (some _) = some true

abbrev pub is_directory : Option Node → Option Bool
is_directory (some (directory _)) = some true
is_directory (some barred) = none
is_directory _ = some false

abbrev pub is_regular_file : Option Node → Option Bool
is_regular_file (some (regular _)) = some true
is_regular_file (some barred) = none
is_regular_file _ = some false

-- What an `ifstream` on it reads; `none` where it cannot be opened. A directory can be opened on
-- some systems, but is never asked for here.
abbrev pub open_file : Option Node → Option Bytes
open_file (some (regular content)) = content
open_file _ = none

-- What a `directory_iterator` gives; `none` is its exception.
abbrev pub iterate : Option Node → Option (List Entry)
iterate (some (directory entries)) = entries
iterate _ = none

-- `path::relative_path`
unfoldable pub relative_path : Bytes → Bytes
relative_path [] = []
relative_path (c ∷ p) = if c == b'/' then relative_path p else c ∷ p

-- Whether the text is not empty and does not end in a slash: `path::has_filename`.
unfoldable pub has_filename : Bytes → Bool
has_filename [] = false
has_filename (c ∷ []) = if c == b'/' then false else true
has_filename (_ ∷ c ∷ p) = has_filename (c ∷ p)

-- `a / b`, for a relative `b`
unfoldable pub join : Bytes → Bytes → Bytes
unfolding has_filename
join a b = if has_filename a then a ++ b'/' ∷ b else a ++ b

-- `path::extension`: from the last dot of the file's name on, if that dot is not its first byte.
unfoldable pub filename_of : Bytes → Bytes
unfolding before
filename_of p = reverse (before b'/' (reverse p))

abbrev pub extension_in : Bytes → Bytes
extension_in name = elim (from b'.' (reverse name)) [
  | [] ↦ []
  | dot ∷ [] ↦ []
  | dot ∷ c ∷ stem ↦ b'.' ∷ reverse (before b'.' (reverse name))
]

unfoldable pub extension : Bytes → Bytes
unfolding filename_of before from equal
extension p =
    let name = filename_of p in
    if equal name (codes ".") || equal name (codes "..") then [] else extension_in name
