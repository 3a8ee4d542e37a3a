-- ===== src/RamFs/Names.antt =====
-- The names in the file table of os/fs/src/ramfs.rs: what `set_name` stores is what `name_str`
-- reads, and `normalize_path` leaves no name too long.
use beet_core.Common.{
  ℕ, zero, suc, ◌<◌, ◌≤◌, min, ◌≡◌, ◌≢◌, refl, ap, arith, true, List, [], ◌∷◌, length, take, set,
  ltb, Bool-cases, inl, inr, length-take,
}
use beet_core.RamFs.Path.{
  max_name_len, keep_unless_white, trim_start, trim_end, trim, rooted, strip_slash,
  strip_unless_root, normalize_path, bytes_eq,
}
use beet_core.RamFs.{FileEntry, until_nul, name_str, copy_from_slice, set_name}

-- Names hold no NUL byte.
abbrev pub NoNul : List ℕ → Type 0
NoNul [] = Unit {0}
NoNul (b ∷ bs) = (b ≢ 0) × NoNul bs

pub bytes_eq_refl : (xs : List ℕ) → bytes_eq xs xs ≡ true
unfolding bytes_eq
bytes_eq_refl [] = refl
bytes_eq_refl (x ∷ xs) = ground (arith, bytes_eq_refl xs)

pub eq_of_bytes_eq : (xs ys : List ℕ) → bytes_eq xs ys ≡ true → xs ≡ ys
unfolding bytes_eq
eq_of_bytes_eq [] [] e = refl
eq_of_bytes_eq [] (y ∷ ys) e = ground arith
eq_of_bytes_eq (x ∷ xs) [] e = ground arith
eq_of_bytes_eq (x ∷ xs) (y ∷ ys) e = ground (arith, eq_of_bytes_eq xs ys)

until_nul-set :
    (name buf : List ℕ)
    → NoNul name
    → length name < length buf
    → until_nul (set (copy_from_slice name buf) (length name) 0) ≡ name
unfolding until_nul
until_nul-set [] [] v h = elim h [ ]
until_nul-set [] (b ∷ bs) v h = ground arith
until_nul-set (n ∷ ns) [] v h = elim h [ ]
until_nul-set (n ∷ ns) (b ∷ bs) v h = ground (arith, until_nul-set ns bs v.1 (omega arith))

take_all : (n : ℕ) (xs : List ℕ) → length xs ≤ n → take n xs ≡ xs
take_all zero [] h = refl
take_all zero (x ∷ xs) h = elim h [ ]
take_all (suc n) [] h = refl
take_all (suc n) (x ∷ xs) h = ap (λ t. x ∷ t) (take_all n xs (omega arith))

-- A name that fits is read back.
pub name_str-set_name :
    (name : List ℕ) (e : FileEntry)
    → NoNul name
    → length name ≤ max_name_len
    → length e.name ≡ 64
    → name_str (set_name name e) ≡ name
unfolding name_str set_name
name_str-set_name name e v h size =
    let all : take (min (length name) 63) name ≡ name = take_all _ name (omega arith) in
    let len : min (length name) 63 ≡ length name = omega arith in
    rw (all, len) (until_nul-set name e.name v (omega arith))

NoNul-trim_start : (p : List ℕ) → NoNul p → NoNul (trim_start p)
unfolding trim_start
NoNul-trim_start [] v = tt
NoNul-trim_start (c ∷ cs) v = ground (arith, NoNul-trim_start cs v.1)

NoNul-keep_unless_white : (c : ℕ) (p : List ℕ) → c ≢ 0 → NoNul p → NoNul (keep_unless_white c p)
NoNul-keep_unless_white c [] h v = ground arith
NoNul-keep_unless_white c (d ∷ ds) h v = (h, v)

NoNul-trim_end : (p : List ℕ) → NoNul p → NoNul (trim_end p)
unfolding trim_end
NoNul-trim_end [] v = tt
NoNul-trim_end (c ∷ cs) v = NoNul-keep_unless_white c _ v.0 (NoNul-trim_end cs v.1)

NoNul-take : (n : ℕ) (p : List ℕ) → NoNul p → NoNul (take n p)
NoNul-take zero p v = tt
NoNul-take (suc n) [] v = tt
NoNul-take (suc n) (c ∷ cs) v = (v.0, NoNul-take n cs v.1)

NoNul-rooted : (p : List ℕ) → NoNul p → NoNul (rooted p)
unfolding rooted
NoNul-rooted [] v = omega arith
NoNul-rooted (c ∷ cs) v = ground arith

NoNul-strip_slash : (p : List ℕ) → NoNul p → NoNul (strip_slash p)
unfolding strip_slash
NoNul-strip_slash [] v = tt
NoNul-strip_slash (c ∷ []) v = ground arith
NoNul-strip_slash (c ∷ d ∷ ds) v = (v.0, NoNul-strip_slash (d ∷ ds) v.1)

NoNul-strip_unless_root : (p : List ℕ) → NoNul p → NoNul (strip_unless_root p)
unfolding strip_unless_root
NoNul-strip_unless_root p v = elim (Bool-cases (ltb 1 (length p))) [
  | inl long ↦ rw long (NoNul-strip_slash p v)
  | inr short ↦ rw short v
]

pub NoNul-normalize_path : (p : List ℕ) → NoNul p → NoNul (normalize_path p)
unfolding normalize_path trim
NoNul-normalize_path p v =
    NoNul-strip_unless_root _
      (NoNul-take 63 _ (NoNul-rooted _ (NoNul-trim_end _ (NoNul-trim_start p v))))

length-strip_slash : (p : List ℕ) → length (strip_slash p) ≤ length p
unfolding strip_slash
length-strip_slash [] = omega arith
length-strip_slash (c ∷ []) = ground arith
length-strip_slash (c ∷ d ∷ ds) = omega (arith, length-strip_slash (d ∷ ds))

length-strip_unless_root : (p : List ℕ) → length (strip_unless_root p) ≤ length p
unfolding strip_unless_root
length-strip_unless_root p = elim (Bool-cases (ltb 1 (length p))) [
  | inl long ↦ rw long (length-strip_slash p)
  | inr short ↦ rw short (omega arith)
]

-- `normalize_path` cuts every path to the longest name.
pub length-normalize_path : (p : List ℕ) → length (normalize_path p) ≤ max_name_len
unfolding normalize_path
length-normalize_path p = omega (
  arith,
  length-strip_unless_root (take max_name_len (rooted (trim p))),
  length-take 63 (rooted (trim p)),
)
