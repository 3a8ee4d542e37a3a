-- ===== src/RamFs/Remove.antt =====
-- What `remove` of os/fs/src/ramfs.rs leaves.
use beet_core.Common.{
  ℕ, ◌<◌, ◌≡◌, ◌≢◌, ◌∙◌, refl, ap, sym, arith, true, false, List, ◌∷◌, [], none, some, length, set,
  get_or-set_self, get_or-set_ne, length-set, ◌==◌, eq_of_==, ne_of_==, Bool-cases, Option-cases,
  inl, inr, ◌&&◌,
}
use beet_core.RamFs.Path.{slash, normalize_path, bytes_eq}
use beet_core.RamFs.{
  FileEntry, FsResult, ok, err, Table, empty, entry, matches, find_entry, read_at, read, any_below,
  remove_at, remove, not_found,
}
use beet_core.RamFs.Contents.{find_entry_lem}
use beet_core.RamFs.Unique.{matches_other, read_at-other, true_ne_false, some_eq, Unique}

-- The entry with its slot freed.
abbrev freed : FileEntry → FileEntry
freed e = record e { used = false }

freed-matches : (p : List ℕ) (e : FileEntry) → matches p (freed e) ≡ false
unfolding matches
freed-matches p e = refl

find_entry-freed :
    (fs : Table) (p : List ℕ) (i : ℕ)
    → Unique fs
    → find_entry fs p ≡ some i
    → find_entry (set fs i (freed (entry fs i))) p ≡ none
find_entry-freed fs p i u found = elim (Option-cases (find_entry fs' p)) [
  | inl nothing ↦ nothing
  | inr (j, there) ↦
      let hit : matches p (entry fs' j) ≡ true = (find_entry_lem fs' p j there).1 in
      let i_in : i < length fs = (find_entry_lem fs p i found).0 in
      let j_in : j < length fs =
        omega (arith, length-set fs i (freed (entry fs i)), (find_entry_lem fs' p j there).0) in
      elim (Bool-cases (i == j)) [
        | inl at ↦
            let here : entry fs' j ≡ freed (entry fs i) =
              ap (entry fs') (sym (eq_of_== i j at)) ∙ get_or-set_self fs i _ empty i_in in
            absurd
              (true_ne_false (sym (freed-matches p (entry fs i)) ∙ ap (matches p) (sym here) ∙ hit))
        | inr off ↦
            let apart : i ≢ j = ne_of_== i j off in
            let old : matches p (entry fs j) ≡ true =
              ap (matches p) (sym (get_or-set_ne fs i j _ empty apart)) ∙ hit in
            absurd (apart (some_eq (sym found ∙ u p j j_in old)))
      ]
]
  where
    fs' : Table
    fs' = set fs i (freed (entry fs i))

-- When a removal succeeds, a `read` under its path finds nothing.
abbrev Removed : List ℕ → Table × FsResult (Unit {0}) → Type 0
Removed p r = r.1 ≡ ok tt → read_at r.0 (find_entry r.0 p) ≡ err not_found

remove_at-Removed :
    (fs : Table) (p : List ℕ) → Unique fs → Removed p (remove_at fs p (find_entry fs p))
unfolding remove_at read_at
remove_at-Removed fs p u = elim (Option-cases (find_entry fs p)) [
  | inl nothing ↦ rw nothing (λ done. ground arith)
  | inr (i, found) ↦ elim (Bool-cases ((entry fs i).is_dir && any_below fs p i 0)) [
    | inl below ↦ rw (found, below) (λ done. ground arith)
    | inr free ↦ rw (found, free) (λ done. rw (find_entry-freed fs p i u found) refl)
  ]
]

-- After a successful `remove` in a table whose names are unique, `read` of the path reports that
-- there is no such file.
pub read-remove :
    (fs : Table) (p : List ℕ)
    → Unique fs
    → (remove fs p).1 ≡ ok tt
    → read (remove fs p).0 p ≡ err not_found
unfolding read remove
read-remove fs p u = elim (Bool-cases (bytes_eq (normalize_path p) (slash ∷ []))) [
  | inl root ↦ rw root (λ done. ground arith)
  | inr below ↦ rw below (remove_at-Removed fs (normalize_path p) u)
]

remove_at-other :
    (fs : Table) (p q : List ℕ)
    → q ≢ p
    → read_at
        (remove_at fs p (find_entry fs p)).0
        (find_entry (remove_at fs p (find_entry fs p)).0 q)
      ≡ read_at fs (find_entry fs q)
unfolding remove_at
remove_at-other fs p q h = elim (Option-cases (find_entry fs p)) [
  | inl nothing ↦ rw nothing refl
  | inr (i, found) ↦ elim (Bool-cases ((entry fs i).is_dir && any_below fs p i 0)) [
    | inl below ↦ rw (found, below) refl
    | inr free ↦
        let old : matches p (entry fs i) ≡ true = (find_entry_lem fs p i found).1 in
        rw (found, free)
          (read_at-other fs q i _ (matches_other p q (entry fs i) h old)
            (freed-matches q (entry fs i)))
  ]
]

-- A `remove` of one path does not change what is read under a path that normalizes to another,
-- whatever the removal returns and whatever the table holds.
pub read-remove_other :
    (fs : Table) (p q : List ℕ)
    → normalize_path q ≢ normalize_path p
    → read (remove fs p).0 q ≡ read fs q
unfolding read remove
read-remove_other fs p q h = elim (Bool-cases (bytes_eq (normalize_path p) (slash ∷ []))) [
  | inl root ↦ rw root refl
  | inr below ↦ rw below (remove_at-other fs (normalize_path p) (normalize_path q) h)
]
