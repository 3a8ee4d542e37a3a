-- ===== src/RamFs/Path.antt =====
-- Byte strings and `normalize_path` of os/fs/src/ramfs.rs. A path is the list of its bytes, all of
-- them ASCII, so that `trim` strips the six ASCII white space characters.
use beet_core.Common.{
  ℕ, Bool, true, false, ◌&&◌, ◌||◌, List, [], ◌∷◌, leb, ltb, ◌==◌, if◌then◌else◌, length, take,
}

abbrev pub max_name_len : ℕ
max_name_len = 63

abbrev pub slash : ℕ
slash = b'/'

abbrev pub is_white : ℕ → Bool
is_white c = (leb 9 c && leb c 13) || c == 32

unfoldable pub trim_start : List ℕ → List ℕ
trim_start [] = []
trim_start (c ∷ cs) = if is_white c then trim_start cs else c ∷ cs

abbrev pub keep_unless_white : ℕ → List ℕ → List ℕ
keep_unless_white c [] = if is_white c then [] else c ∷ []
keep_unless_white c (d ∷ ds) = c ∷ d ∷ ds

-- White space at the end is dropped when all that follows it is dropped.
unfoldable pub trim_end : List ℕ → List ℕ
trim_end [] = []
trim_end (c ∷ cs) = keep_unless_white c (trim_end cs)

unfoldable pub trim : List ℕ → List ℕ
unfolding trim_start trim_end
trim path = trim_end (trim_start path)

-- The path with a slash in front, if it has none.
unfoldable pub rooted : List ℕ → List ℕ
rooted [] = slash ∷ []
rooted (c ∷ cs) = if c == slash then c ∷ cs else slash ∷ c ∷ cs

-- One slash at the end goes.
unfoldable pub strip_slash : List ℕ → List ℕ
strip_slash [] = []
strip_slash (c ∷ []) = if c == slash then [] else c ∷ []
strip_slash (c ∷ d ∷ ds) = c ∷ strip_slash (d ∷ ds)

-- `if pos > 1 && buf[pos - 1] == b'/' { pos -= 1 }`
unfoldable pub strip_unless_root : List ℕ → List ℕ
unfolding strip_slash
strip_unless_root buf = if ltb 1 (length buf) then strip_slash buf else buf

unfoldable pub normalize_path : List ℕ → List ℕ
unfolding trim rooted strip_unless_root
normalize_path path = strip_unless_root (take max_name_len (rooted (trim path)))

-- `==` on byte strings
unfoldable pub bytes_eq : List ℕ → List ℕ → Bool
bytes_eq [] [] = true
bytes_eq [] (y ∷ ys) = false
bytes_eq (x ∷ xs) [] = false
bytes_eq (x ∷ xs) (y ∷ ys) = x == y && bytes_eq xs ys

unfoldable pub starts_with : List ℕ → List ℕ → Bool
starts_with [] text = true
starts_with (p ∷ ps) [] = false
starts_with (p ∷ ps) (c ∷ cs) = p == c && starts_with ps cs

-- Is there a slash?
unfoldable pub has_slash : List ℕ → Bool
has_slash [] = false
has_slash (c ∷ cs) = c == slash || has_slash cs

-- The bytes behind the last slash.
unfoldable pub basename : List ℕ → List ℕ
unfolding has_slash
basename [] = []
basename (c ∷ cs) = if has_slash (c ∷ cs) then after c cs (basename cs) else c ∷ cs
  where
    after : ℕ → List ℕ → List ℕ → List ℕ
    after c cs rest = if has_slash cs then rest else cs
