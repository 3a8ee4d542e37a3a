-- ===== src/RamFs.antt =====
-- The in-memory filesystem of os/fs/src/ramfs.rs: a table of 64 entries with fixed buffers. The
-- static table is the argument and the result of each operation.
pub mod Path
pub mod Search
pub mod Names
pub mod Contents
pub mod Unique
pub mod Remove
mod Tests
use beet_core.Common.{
  ℕ, zero, suc, ◌+◌, ◌-◌, min, Bool, true, false, not, ◌&&◌, ◌||◌, List, [], ◌∷◌, ◌++◌, Option,
  none, some, leb, ltb, ◌==◌, if◌then◌else◌, length, take, drop, get_or, set, replicate, is_some,
}
use Path.{max_name_len, slash, normalize_path, bytes_eq, starts_with, has_slash, basename}

abbrev pub max_files : ℕ
max_files = 64

abbrev pub max_file_size : ℕ
max_file_size = 4096

pub record FileEntry : Type 0 where
  pub name : List ℕ
  pub content : List ℕ
  pub len : ℕ
  pub used : Bool
  pub is_dir : Bool

pub data FsError : Type 0 where
  not_found already_exists no_space name_too_long file_too_large : FsError
  is_directory not_directory not_empty : FsError

pub data FsResult {ℓ} (A : Type ℓ) : Type ℓ where
  ok : A → FsResult A
  err : FsError → FsResult A

abbrev pub Table : Type 0
Table = List FileEntry

-- `FileEntry::empty`
unfoldable pub empty : FileEntry
empty = record {
  name = replicate (max_name_len + 1) 0;
  content = replicate max_file_size 0;
  len = 0;
  used = false;
  is_dir = false;
}

-- The bytes before the first NUL.
unfoldable pub until_nul : List ℕ → List ℕ
until_nul [] = []
until_nul (b ∷ bs) = if b == 0 then [] else b ∷ until_nul bs

unfoldable pub name_str : FileEntry → List ℕ
unfolding until_nul
name_str self = until_nul self.name

-- `buf[..bytes.len()].copy_from_slice(bytes)`
abbrev pub copy_from_slice : List ℕ → List ℕ → List ℕ
copy_from_slice bytes buf = bytes ++ drop (length bytes) buf

unfoldable pub set_name : List ℕ → FileEntry → FileEntry
set_name name self = record self { name = set (copy_from_slice (take len name) self.name) len 0 }
  where
    len : ℕ
    len = min (length name) max_name_len

-- Is this the entry of a path?
unfoldable pub matches : List ℕ → FileEntry → Bool
matches path entry = entry.used && bytes_eq (name_str entry) path

abbrev pub next : Option ℕ → Option ℕ
next none = none
next (some i) = some (suc i)

-- The first entry that passes a test.
unfoldable pub position : (FileEntry → Bool) → Table → Option ℕ
position test [] = none
position test (e ∷ es) = let rest = next (position test es) in if test e then some 0 else rest

unfoldable pub find_entry : Table → List ℕ → Option ℕ
unfolding position
find_entry fs path = position (matches path) fs

unfoldable pub find_free : Table → Option ℕ
unfolding position
find_free fs = position (λ e. not e.used) fs

-- `FS[i]`, for an index that the table has
abbrev pub entry : Table → ℕ → FileEntry
entry fs i = get_or fs i empty

unfoldable pub init : Table → Table
init fs = set fs 0 (record (set_name (slash ∷ []) (entry fs 0)) { used = true; is_dir = true })

unfoldable pub new_dir : List ℕ → FileEntry
new_dir path = record (set_name path empty) { used = true; is_dir = true }

unfoldable pub create_dir : Table → List ℕ → Option ℕ → Table × FsResult (Unit {0})
create_dir fs path none = (fs, err no_space)
create_dir fs path (some i) = (set fs i (new_dir path), ok tt)

unfoldable pub mkdir : Table → List ℕ → Table × FsResult (Unit {0})
mkdir fs path =
    let path' = normalize_path path in
    if ltb max_name_len (length path')
    then (fs, err name_too_long)
    else if is_some (find_entry fs path')
    then (fs, err already_exists)
    else create_dir fs path' (find_free fs)

-- The entry with new content; the bytes behind it stay in the buffer.
unfoldable pub with_content : List ℕ → FileEntry → FileEntry
with_content bytes e = record e { content = copy_from_slice bytes e.content; len = length bytes }

unfoldable pub new_file : List ℕ → List ℕ → FileEntry
new_file path bytes = record (with_content bytes (set_name path empty)) {
  used = true;
  is_dir = false;
}

unfoldable pub create_file : Table → List ℕ → List ℕ → Option ℕ → Table × FsResult (Unit {0})
create_file fs path bytes none = (fs, err no_space)
create_file fs path bytes (some i) = (set fs i (new_file path bytes), ok tt)

unfoldable pub write_at : Table → List ℕ → List ℕ → Option ℕ → Table × FsResult (Unit {0})
write_at fs path bytes (some i) =
    if (entry fs i).is_dir
    then (fs, err is_directory)
    else (set fs i (with_content bytes (entry fs i)), ok tt)
write_at fs path bytes none = create_file fs path bytes (find_free fs)

unfoldable pub write : Table → List ℕ → List ℕ → Table × FsResult (Unit {0})
write fs path bytes =
    let path' = normalize_path path in
    if ltb max_name_len (length path')
    then (fs, err name_too_long)
    else if ltb max_file_size (length bytes)
    then (fs, err file_too_large)
    else write_at fs path' bytes (find_entry fs path')

unfoldable pub read_at : Table → Option ℕ → FsResult (List ℕ)
read_at fs none = err not_found
read_at fs (some i) =
    if (entry fs i).is_dir
    then err is_directory
    else ok (take (entry fs i).len (entry fs i).content)

unfoldable pub read : Table → List ℕ → FsResult (List ℕ)
read fs path = read_at fs (find_entry fs (normalize_path path))

-- Is this name below the directory `path`?
unfoldable pub is_below : List ℕ → List ℕ → Bool
is_below path name =
    ltb (length path + 1) (length name)
    && bytes_eq (take (length path) name) path
    && get_or name (length path) 0 == slash

-- Has the table, from index `j` on, a used entry below `path`, other than `i`?
unfoldable pub any_below : Table → List ℕ → ℕ → ℕ → Bool
any_below [] path i j = false
any_below (e ∷ es) path i j =
    (e.used && not (j == i) && is_below path (name_str e)) || any_below es path i (j + 1)

unfoldable pub remove_at : Table → List ℕ → Option ℕ → Table × FsResult (Unit {0})
remove_at fs path none = (fs, err not_found)
remove_at fs path (some i) =
    if (entry fs i).is_dir && any_below fs path i 0
    then (fs, err not_empty)
    else (set fs i (record (entry fs i) { used = false }), ok tt)

unfoldable pub remove : Table → List ℕ → Table × FsResult (Unit {0})
remove fs path =
    let path' = normalize_path path in
    if bytes_eq path' (slash ∷ [])
    then (fs, err not_empty)
    else remove_at fs path' (find_entry fs path')

-- Is this name a direct child of the directory?
unfoldable pub is_child : List ℕ → List ℕ → Bool
is_child dir name =
    if bytes_eq dir (slash ∷ [])
    then starts_with (slash ∷ []) name && not (has_slash (drop 1 name))
    else starts_with dir name
      && get_or name (length dir) 0 == slash
      && not (has_slash (drop (length dir + 1) name))

-- What the callback of `list` is called with, in the table's order.
unfoldable pub children : Table → List ℕ → List (List ℕ × Bool × ℕ)
children [] dir = []
children (e ∷ es) dir =
    let rest = children es dir in
    if e.used && not (bytes_eq (name_str e) dir) && is_child dir (name_str e)
    then (basename (name_str e), e.is_dir, e.len) ∷ rest
    else rest

unfoldable pub list_at : Table → List ℕ → Option ℕ → FsResult (List (List ℕ × Bool × ℕ))
list_at fs dir none = err not_found
list_at fs dir (some i) = if (entry fs i).is_dir then ok (children fs dir) else err not_directory

unfoldable pub list : Table → List ℕ → FsResult (List (List ℕ × Bool × ℕ))
list fs path = let dir = normalize_path path in list_at fs dir (find_entry fs dir)

unfoldable pub used_bytes : Table → ℕ × ℕ
used_bytes [] = (0, 0)
used_bytes (e ∷ es) =
    let (used, bytes) = used_bytes es in if e.used then (used + 1, bytes + e.len) else (used, bytes)

unfoldable pub stats : Table → ℕ × ℕ × ℕ
stats fs = let (used, bytes) = used_bytes fs in (used, max_files, bytes)
