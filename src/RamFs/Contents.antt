-- ===== src/RamFs/Contents.antt =====
-- What `write`, `read` and `remove` of os/fs/src/ramfs.rs do to the files of the table.
use beet_core.Common.{
  ℕ, ◌<◌, ◌≤◌, ◌≡◌, ◌≢◌, ◌∙◌, refl, ap, arith, true, false, List, [], ◌∷◌, ◌++◌, Option, none, some,
  ltb, length, take, set, get_or-set_self, Bool-cases, Option-cases, inl, inr,
}
use beet_core.RamFs.Path.{max_name_len, normalize_path}
use beet_core.RamFs.{
  max_file_size, FileEntry, FsResult, ok, err, Table, empty, entry, name_str, set_name, matches,
  find_entry, find_free, with_content, new_file, create_file, write_at, write, read_at, read,
  name_too_long,
}
use beet_core.RamFs.Search.{position_lem, position-set_found, position-set_new}
use beet_core.RamFs.Names.{
  NoNul, bytes_eq_refl, name_str-set_name, NoNul-normalize_path, length-normalize_path,
}

take_append : (xs ys : List ℕ) → take (length xs) (xs ++ ys) ≡ xs
take_append [] ys = refl
take_append (x ∷ xs) ys = ap (λ t. x ∷ t) (take_append xs ys)

-- A table stores a file under a path at an index.
abbrev Stores : Table → List ℕ → ℕ → List ℕ → Type 0
Stores fs p i c =
    (find_entry fs p ≡ some i)
    × ((entry fs i).is_dir ≡ false)
    × (take (entry fs i).len (entry fs i).content ≡ c)

set-Stores :
    (fs : Table) (p c : List ℕ) (i : ℕ) (e : FileEntry)
    → i < length fs
    → find_entry (set fs i e) p ≡ some i
    → e.is_dir ≡ false
    → take e.len e.content ≡ c
    → Stores (set fs i e) p i c
set-Stores fs p c i e h found file content =
    rw (get_or-set_self fs i e empty h) (found, file, content)

read-Stores :
    (fs : Table) (p c : List ℕ) (i : ℕ) → Stores fs (normalize_path p) i c → read fs p ≡ ok c
unfolding read read_at
read-Stores fs p c i (found, file, content) = rw (found, file, content) refl

pub matches-new_file :
    (p c : List ℕ) → NoNul p → length p ≤ max_name_len → matches p (new_file p c) ≡ true
unfolding matches new_file with_content name_str set_name empty
matches-new_file p c v h =
    let named : name_str (set_name p empty) ≡ p = name_str-set_name p empty v h refl in
    rw named (bytes_eq_refl p)

-- The first free entry is an entry, and matches no path.
pub find_free_lem :
    (fs : Table) (i : ℕ)
    → find_free fs ≡ some i
    → (i < length fs) × ((p : List ℕ) → matches p (entry fs i) ≡ false)
unfolding find_free matches
find_free_lem fs i found = let (h, free) = position_lem _ fs i found in (h, λ p. ground arith)

with_content-is_dir : (c : List ℕ) (e : FileEntry) → (with_content c e).is_dir ≡ e.is_dir
unfolding with_content
with_content-is_dir c e = refl

take-with_content :
    (c : List ℕ) (e : FileEntry) → take (with_content c e).len (with_content c e).content ≡ c
unfolding with_content
take-with_content c e = take_append c _

new_file-is_dir : (p c : List ℕ) → (new_file p c).is_dir ≡ false
unfolding new_file
new_file-is_dir p c = refl

take-new_file : (p c : List ℕ) → take (new_file p c).len (new_file p c).content ≡ c
unfolding new_file
take-new_file p c = take-with_content c (set_name p empty)

pub with_content-matches :
    (p c : List ℕ) (e : FileEntry) → matches p (with_content c e) ≡ matches p e
unfolding matches with_content name_str
with_content-matches p c e = refl

-- A successful write of a result leaves the file.
abbrev Written : List ℕ → List ℕ → Table × FsResult (Unit {0}) → Type 0
Written p c r = r.1 ≡ ok tt → (i : ℕ) × Stores r.0 p i c

pub find_entry_lem :
    (fs : Table) (p : List ℕ) (i : ℕ)
    → find_entry fs p ≡ some i
    → (i < length fs) × (matches p (entry fs i) ≡ true)
unfolding find_entry
find_entry_lem fs p i found = position_lem (matches p) fs i found

pub find_entry-found :
    (fs : Table) (p : List ℕ) (i : ℕ) (e : FileEntry)
    → find_entry fs p ≡ some i
    → matches p e ≡ true
    → find_entry (set fs i e) p ≡ some i
unfolding find_entry
find_entry-found fs p i e found pass = position-set_found (matches p) fs i e found pass

pub find_entry-new :
    (fs : Table) (p : List ℕ) (i : ℕ) (e : FileEntry)
    → i < length fs
    → find_entry fs p ≡ none
    → matches p e ≡ true
    → find_entry (set fs i e) p ≡ some i
unfolding find_entry
find_entry-new fs p i e h nothing pass = position-set_new (matches p) fs i e h nothing pass

create_file-Written :
    (fs : Table) (p c : List ℕ)
    → NoNul p
    → length p ≤ max_name_len
    → find_entry fs p ≡ none
    → Written p c (create_file fs p c (find_free fs))
unfolding create_file
create_file-Written fs p c v h nothing = elim (Option-cases (find_free fs)) [
  | inl full ↦ rw full (λ done. ground arith)
  | inr (i, found) ↦ rw found (λ done. (
    i,
    set-Stores fs p c i (new_file p c) (find_free_lem fs i found).0
        (find_entry-new fs p i (new_file p c) (find_free_lem fs i found).0 nothing
          (matches-new_file p c v h))
        (new_file-is_dir p c) (take-new_file p c),
  ))
]

write_at-Written :
    (fs : Table) (p c : List ℕ)
    → NoNul p
    → length p ≤ max_name_len
    → Written p c (write_at fs p c (find_entry fs p))
unfolding write_at
write_at-Written fs p c v h = elim (Option-cases (find_entry fs p)) [
  | inl nothing ↦ rw nothing (create_file-Written fs p c v h nothing)
  | inr (i, found) ↦ elim (Bool-cases (entry fs i).is_dir) [
    | inl dir ↦ rw (found, dir) (λ done. ground arith)
    | inr file ↦
        rw (found, file)
          (λ done. (
            i,
            set-Stores fs p c i (with_content c (entry fs i)) (find_entry_lem fs p i found).0
                (find_entry-found fs p i (with_content c (entry fs i)) found
                  (with_content-matches p c (entry fs i) ∙ (find_entry_lem fs p i found).1))
                (with_content-is_dir c (entry fs i) ∙ file) (take-with_content c (entry fs i)),
          ))
  ]
]

-- What a successful `write` puts in a file is what `read` returns under the same path, whether the
-- file was there before or not, for a path without NUL bytes.
pub read-write :
    (fs : Table) (p c : List ℕ)
    → NoNul p
    → (write fs p c).1 ≡ ok tt
    → read (write fs p c).0 p ≡ ok c
unfolding write
read-write fs p c v = elim (Bool-cases (ltb max_name_len (length (normalize_path p)))) [
  | inl long ↦ rw long (λ done. ground arith)
  | inr short ↦ elim (Bool-cases (ltb max_file_size (length c))) [
    | inl large ↦ rw (short, large) (λ done. ground arith)
    | inr small ↦
        rw (short, small)
          (λ done.
            let (i, stored) =
              write_at-Written fs (normalize_path p) c (NoNul-normalize_path p v)
                (length-normalize_path p) done in
            read-Stores _ p c i stored)
  ]
]

ltb-false : (m n : ℕ) → n ≤ m → ltb m n ≡ false
ltb-false m n h = ground arith

create_file-short :
    (fs : Table) (p c : List ℕ) (free : Option ℕ) → (create_file fs p c free).1 ≢ err name_too_long
unfolding create_file
create_file-short fs p c none = λ e. ground arith
create_file-short fs p c (some i) = λ e. ground arith

write_at-short :
    (fs : Table) (p c : List ℕ) (found : Option ℕ) → (write_at fs p c found).1 ≢ err name_too_long
unfolding write_at
write_at-short fs p c none = create_file-short fs p c (find_free fs)
write_at-short fs p c (some i) = elim (Bool-cases (entry fs i).is_dir) [
  | inl dir ↦ rw dir (λ e. ground arith)
  | inr file ↦ rw file (λ e. ground arith)
]

-- `write` never reports that a name is too long: `normalize_path` has already cut the path.
pub write-name_too_long : (fs : Table) (p c : List ℕ) → (write fs p c).1 ≢ err name_too_long
unfolding write
write-name_too_long fs p c =
    let fits : ltb max_name_len (length (normalize_path p)) ≡ false =
      ltb-false 63 _ (length-normalize_path p) in
    rw fits elim (Bool-cases (ltb max_file_size (length c))) [
      | inl large ↦ rw large (λ e. ground arith)
      | inr small ↦ rw small (write_at-short fs _ c _)
    ]
