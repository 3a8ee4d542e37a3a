-- ===== src/RamFs/Search.antt =====
-- The search of the file table, `find_entry` and `find_free` of os/fs/src/ramfs.rs, under writes.
use beet_core.Common.{
  ℕ, zero, suc, ◌<◌, ◌≡◌, refl, arith, Bool, true, false, [], ◌∷◌, none, some, length, set,
  Option-cases, inl, inr,
}
use beet_core.RamFs.{FileEntry, Table, entry, position}

module _ (test : FileEntry → Bool) where
  -- What is found is in the table, and passes.
  pub position_lem :
      (fs : Table) (i : ℕ)
      → position test fs ≡ some i
      → (i < length fs) × (test (entry fs i) ≡ true)
  unfolding position
  position_lem [] i e = absurd (ground arith)
  position_lem (x ∷ xs) i e = elim (Option-cases (position test xs)) [
    | inl nothing ↦ ground (arith)
    | inr (j, found) ↦ ground (arith, position_lem xs j found)
  ]

  pub position-set_found :
      (fs : Table) (i : ℕ) (e : FileEntry)
      → position test fs ≡ some i
      → test e ≡ true
      → position test (set fs i e) ≡ some i
  unfolding position
  position-set_found [] i e found pass = ground arith
  position-set_found (x ∷ xs) zero e found pass = ground arith
  position-set_found (x ∷ xs) (suc i) e found pass = ground (arith, position-set_found xs i e)

  -- A write of one entry that fails the test over another does not change the search.
  pub position-set_other :
      (fs : Table) (i : ℕ) (e : FileEntry)
      → test (entry fs i) ≡ false
      → test e ≡ false
      → position test (set fs i e) ≡ position test fs
  unfolding position
  position-set_other [] i e before after = refl
  position-set_other (x ∷ xs) zero e before after = ground arith
  position-set_other (x ∷ xs) (suc i) e before after =
      ground (arith, position-set_other xs i e before after)

  pub position-set_new :
      (fs : Table) (i : ℕ) (e : FileEntry)
      → i < length fs
      → position test fs ≡ none
      → test e ≡ true
      → position test (set fs i e) ≡ some i
  unfolding position
  position-set_new [] i e h nothing pass = elim h [ ]
  position-set_new (x ∷ xs) zero e h nothing pass = ground arith
  position-set_new (x ∷ xs) (suc i) e h nothing pass = ground (arith, position-set_new xs i e)

  -- Where nothing is found, nothing in the table passes, and conversely.
  pub position_none :
      (fs : Table) (i : ℕ) → position test fs ≡ none → i < length fs → test (entry fs i) ≡ false
  unfolding position
  position_none [] i e h = elim h [ ]
  position_none (x ∷ xs) zero e h = ground arith
  position_none (x ∷ xs) (suc i) e h = ground (arith, position_none xs i)

  pub none_position :
      (fs : Table) → ((i : ℕ) → i < length fs → test (entry fs i) ≡ false) → position test fs ≡ none
  unfolding position
  none_position [] h = refl
  none_position (x ∷ xs) h =
      ground (arith, h 0 (omega arith), none_position xs (λ i lt. h (suc i) (omega arith)))
