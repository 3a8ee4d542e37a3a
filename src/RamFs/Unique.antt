-- ===== src/RamFs/Unique.antt =====
-- The files that `write` of os/fs/src/ramfs.rs does not name, and the invariant that no
-- two used entries have one name.
use beet_core.Common.{
  ℕ, ◌<◌, ◌≤◌, ◌≡◌, ◌≢◌, ◌∙◌, refl, ap, sym, arith, true, false, List, none, some, ltb, length, set,
  get_or-set_self, get_or-set_ne, length-set, ◌==◌, eq_of_==, ne_of_==, Bool-cases, Option-cases,
  inl, inr,
}
use beet_core.RamFs.Path.{max_name_len, normalize_path}
use beet_core.RamFs.{
  max_file_size, FileEntry, Table, empty, entry, name_str, matches, find_entry, find_free,
  with_content, new_file, create_file, write_at, write, read_at, read,
}
use beet_core.RamFs.Search.{position-set_other}
use beet_core.RamFs.Names.{NoNul, eq_of_bytes_eq, NoNul-normalize_path, length-normalize_path}
use beet_core.RamFs.Contents.{
  find_free_lem, find_entry_lem, find_entry-found, find_entry-new, with_content-matches,
  matches-new_file,
}

pub some_eq : {i j : ℕ} → some i ≡ some j → i ≡ j
some_eq e = ground arith

none_some : {i : ℕ} → none ≡ some i → ⊥
none_some e = ground arith

pub true_ne_false : ¬ (false ≡ true)
true_ne_false e = ground arith

-- An entry that matches two paths shows that they are one.
matches_same : (p q : List ℕ) (e : FileEntry) → matches p e ≡ true → matches q e ≡ true → p ≡ q
unfolding matches
matches_same p q e hp hq =
    sym (eq_of_bytes_eq (name_str e) p (ground arith))
    ∙ eq_of_bytes_eq (name_str e) q (ground arith)

pub matches_other :
    (p q : List ℕ) (e : FileEntry) → q ≢ p → matches p e ≡ true → matches q e ≡ false
matches_other p q e h hp = elim (Bool-cases (matches q e)) [
  | inl same ↦ absurd (h (matches_same q p e same hp))
  | inr other ↦ other
]

find_entry-other :
    (fs : Table) (p : List ℕ) (i : ℕ) (e : FileEntry)
    → matches p (entry fs i) ≡ false
    → matches p e ≡ false
    → find_entry (set fs i e) p ≡ find_entry fs p
unfolding find_entry
find_entry-other fs p i e before after = position-set_other (matches p) fs i e before after

-- A write of one entry that does not match a path, over another, leaves what is read there.
pub read_at-other :
    (fs : Table) (p : List ℕ) (i : ℕ) (e : FileEntry)
    → matches p (entry fs i) ≡ false
    → matches p e ≡ false
    → read_at (set fs i e) (find_entry (set fs i e) p) ≡ read_at fs (find_entry fs p)
unfolding read_at
read_at-other fs p i e before after =
    rw (find_entry-other fs p i e before after) elim (Option-cases (find_entry fs p)) [
      | inl nothing ↦ rw nothing refl
      | inr (j, found) ↦
          let there : matches p (entry fs j) ≡ true = (find_entry_lem fs p j found).1 in
          let apart : i ≢ j =
            (λ same. true_ne_false (sym before ∙ ap (λ k. matches p (entry fs k)) same ∙ there)) in
          rw (found, get_or-set_ne fs i j e empty apart) refl
    ]

-- The tables that `write` leaves: the same, one file overwritten, or one file more.
data Wrote (fs : Table) (p c : List ℕ) : Table → Type 0 where
  same : Wrote fs p c fs
  over : (i : ℕ) → find_entry fs p ≡ some i → Wrote fs p c (set fs i (with_content c (entry fs i)))
  new :
      (i : ℕ)
      → find_free fs ≡ some i
      → find_entry fs p ≡ none
      → Wrote fs p c (set fs i (new_file p c))

write_at-Wrote : (fs : Table) (p c : List ℕ) → Wrote fs p c (write_at fs p c (find_entry fs p)).0
unfolding write_at create_file
write_at-Wrote fs p c = elim (Option-cases (find_entry fs p)) [
  | inl nothing ↦ elim (Option-cases (find_free fs)) [
    | inl full ↦ rw (nothing, full) same
    | inr (i, free) ↦ rw (nothing, free) (new i free nothing)
  ]
  | inr (i, found) ↦ elim (Bool-cases (entry fs i).is_dir) [
    | inl dir ↦ rw (found, dir) same
    | inr file ↦ rw (found, file) (over i found)
  ]
]

write-Wrote : (fs : Table) (p c : List ℕ) → Wrote fs (normalize_path p) c (write fs p c).0
unfolding write
write-Wrote fs p c = elim (Bool-cases (ltb max_name_len (length (normalize_path p)))) [
  | inl long ↦ rw long same
  | inr short ↦ elim (Bool-cases (ltb max_file_size (length c))) [
    | inl large ↦ rw (short, large) same
    | inr small ↦ rw (short, small) (write_at-Wrote fs (normalize_path p) c)
  ]
]

module _ {fs : Table} {p c : List ℕ} (v : NoNul p) (short : length p ≤ max_name_len) where
  Wrote-other :
      {fs' : Table} (q : List ℕ)
      → q ≢ p
      → Wrote fs p c fs'
      → read_at fs' (find_entry fs' q) ≡ read_at fs (find_entry fs q)
  Wrote-other q h same = refl
  Wrote-other q h (over i found) =
      let old : matches p (entry fs i) ≡ true = (find_entry_lem fs p i found).1 in
      let other : matches q (entry fs i) ≡ false = matches_other p q (entry fs i) h old in
      read_at-other fs q i _ other (with_content-matches q c (entry fs i) ∙ other)
  Wrote-other q h (new i free nothing) =
      read_at-other fs q i _ ((find_free_lem fs i free).1 q)
        (matches_other p q _ h (matches-new_file p c v short))

-- A write to one path, one without NUL bytes, does not change what is read under a path that
-- normalizes to another, whatever the write returns.
pub read-write_other :
    (fs : Table) (p q c : List ℕ)
    → NoNul p
    → normalize_path q ≢ normalize_path p
    → read (write fs p c).0 q ≡ read fs q
unfolding read
read-write_other fs p q c v h =
    Wrote-other (NoNul-normalize_path p v) (length-normalize_path p) (normalize_path q) h
      (write-Wrote fs p c)

-- Every used entry is the one that its name finds.
abbrev pub Unique : Table → Type 0
Unique fs =
    (p : List ℕ) (i : ℕ) → i < length fs → matches p (entry fs i) ≡ true → find_entry fs p ≡ some i

-- What the write of one entry has to show for the entries that are the others.
pub set-Unique :
    (fs : Table) (i : ℕ) (e : FileEntry)
    → Unique fs
    → i < length fs
    → ((p : List ℕ) → matches p e ≡ true → find_entry (set fs i e) p ≡ some i)
    → ((p : List ℕ) (j : ℕ)
        → i ≢ j
        → find_entry fs p ≡ some j
        → (matches p (entry fs i) ≡ false) × (matches p e ≡ false))
    → Unique (set fs i e)
set-Unique fs i e u i_in here there q j h hit = elim (Bool-cases (i == j)) [
  | inl at ↦
      let same : i ≡ j = eq_of_== i j at in
      let pass : matches q e ≡ true =
        ap (matches q) (sym (get_or-set_self fs i e empty i_in))
        ∙ ap (λ k. matches q (entry (set fs i e) k)) same
        ∙ hit in
      here q pass ∙ ap some same
  | inr off ↦
      let apart : i ≢ j = ne_of_== i j off in
      let old : matches q (entry fs j) ≡ true =
        ap (matches q) (sym (get_or-set_ne fs i j e empty apart)) ∙ hit in
      let j_in : j < length fs = omega (arith, length-set fs i e, h) in
      let found : find_entry fs q ≡ some j = u q j j_in old in
      find_entry-other fs q i e (there q j apart found).0 (there q j apart found).1 ∙ found
]

-- No other entry matches what the entry at `i` matches.
pub Unique-other :
    (fs : Table) (u : Unique fs) (q : List ℕ) (i j : ℕ)
    → i < length fs
    → i ≢ j
    → find_entry fs q ≡ some j
    → matches q (entry fs i) ≡ false
Unique-other fs u q i j h apart found = elim (Bool-cases (matches q (entry fs i))) [
  | inl hit ↦ absurd (apart (some_eq (sym (u q i h hit) ∙ found)))
  | inr miss ↦ miss
]

module _ {fs : Table} {p c : List ℕ} (v : NoNul p) (short : length p ≤ max_name_len)
    (u : Unique fs) where
  Wrote-Unique : {fs' : Table} → Wrote fs p c fs' → Unique fs'
  Wrote-Unique same = u
  Wrote-Unique (over i found) =
      let i_in : i < length fs = (find_entry_lem fs p i found).0 in
      let same : (q : List ℕ) → matches q (with_content c (entry fs i)) ≡ matches q (entry fs i) =
        (λ q. with_content-matches q c (entry fs i)) in
      set-Unique fs i _ u i_in
        (λ q hit. find_entry-found fs q i _ (u q i i_in (sym (same q) ∙ hit)) hit)
        (λ q j apart found'.
          let miss = Unique-other fs u q i j i_in apart found' in (miss, same q ∙ miss))
  Wrote-Unique (new i free nothing) =
      let (i_in, unused) = find_free_lem fs i free in
      let named : matches p (new_file p c) ≡ true = matches-new_file p c v short in
      set-Unique fs i _ u i_in
        (λ q hit.
          find_entry-new fs q i _ i_in (ap (find_entry fs) (matches_same q p _ hit named) ∙ nothing)
            hit)
        (λ q j apart found. (
          unused q,
          matches_other p q _ (λ e. none_some (sym nothing ∙ ap (find_entry fs) (sym e) ∙ found))
              named,
        ))

-- `write` keeps the names unique, for a path without NUL bytes.
pub write-Unique : (fs : Table) (p c : List ℕ) → NoNul p → Unique fs → Unique (write fs p c).0
write-Unique fs p c v u =
    Wrote-Unique (NoNul-normalize_path p v) (length-normalize_path p) u (write-Wrote fs p c)
