-- ===== src/RamFs/Tests.antt =====
-- The file table at concrete paths and contents.
use beet_core.Common.{
  ℕ, zero, suc, ◌≡◌, ◌≢◌, ◌∙◌, sym, refl, arith, false, List, [], ◌∷◌, replicate,
}
use beet_core.RamFs.Path.{bytes_eq, normalize_path}
use beet_core.RamFs.{
  Table, empty, ok, err, not_found, read_at, name_too_long, matches, read, write, remove, entry,
  write_at, remove_at, create_file, find_free, new_file, name_str, with_content, set_name,
  find_entry,
}
use beet_core.RamFs.Names.{NoNul}
use beet_core.RamFs.Contents.{read-write, write-name_too_long}
use beet_core.RamFs.Unique.{true_ne_false, read-write_other, Unique, write-Unique}
use beet_core.RamFs.Remove.{read-remove_other, read-remove}

abbrev fresh : Table
fresh = replicate 3 empty

-- " a/"
abbrev path_a : List ℕ
path_a = 32 ∷ 97 ∷ 47 ∷ []

-- "/b"
abbrev path_b : List ℕ
path_b = 47 ∷ 98 ∷ []

abbrev words : List ℕ
words = 1 ∷ 2 ∷ 3 ∷ []

path_a-NoNul : NoNul path_a
path_a-NoNul = (omega arith, (omega arith, (omega arith, tt)))

normalized : normalize_path path_a ≡ 47 ∷ 97 ∷ []
unfolding normalize_path
normalized = refl

written : (write fresh path_a words).1 ≡ ok tt
unfolding write normalize_path bytes_eq find_entry write_at matches create_file find_free new_file
    name_str with_content set_name empty
written = refl

removed : (remove (write fresh path_a words).0 path_a).1 ≡ ok tt
unfolding write remove remove_at normalize_path bytes_eq find_entry write_at matches create_file
    find_free new_file name_str with_content set_name empty
removed = refl

read-write_example : read (write fresh path_a words).0 path_a ≡ ok words
read-write_example = read-write fresh path_a words path_a-NoNul written

apart : normalize_path path_b ≢ normalize_path path_a
unfolding normalize_path
apart e = ground arith

read-write_other_example : read (write fresh path_a words).0 path_b ≡ read fresh path_b
read-write_other_example = read-write_other fresh path_a path_b words path_a-NoNul apart

unused : (p : List ℕ) (n i : ℕ) → matches p (entry (replicate n empty) i) ≡ false
unfolding matches empty
unused p zero i = refl
unused p (suc n) zero = refl
unused p (suc n) (suc i) = unused p n i

fresh-Unique : Unique fresh
fresh-Unique p i h hit = absurd (true_ne_false (sym (unused p 3 i) ∙ hit))

write-Unique_example : Unique (write fresh path_a words).0
write-Unique_example = write-Unique fresh path_a words path_a-NoNul fresh-Unique

read-remove_other_example :
    read (remove (write fresh path_a words).0 path_a).0 path_b
    ≡ read (write fresh path_a words).0 path_b
read-remove_other_example = read-remove_other (write fresh path_a words).0 path_a path_b apart

-- A path with a NUL byte is stored under the name before it, and is not found again.
path_nul : List ℕ
path_nul = 47 ∷ 97 ∷ 0 ∷ 98 ∷ []

lost_nul : read (write fresh path_nul words).0 path_nul ≡ err not_found
unfolding path_nul read read_at write normalize_path bytes_eq find_entry write_at matches
    create_file find_free new_file name_str with_content set_name empty
lost_nul = refl

read-remove_example : read (remove (write fresh path_a words).0 path_a).0 path_a ≡ err not_found
read-remove_example =
    read-remove (write fresh path_a words).0 path_a
      (write-Unique fresh path_a words path_a-NoNul fresh-Unique) removed

write-name_too_long_example : (write fresh (replicate 80 97) words).1 ≢ err name_too_long
write-name_too_long_example = write-name_too_long fresh (replicate 80 97) words
