-- ===== src/Memory/Choose.antt =====
-- Where `alloc_single_page` in xous/kernel/src/mem.rs looks for a page.
use beet_core.Common.{
  List, ℕ, ◌<◌, ◌≤◌, ◌≡◌, ◌⊎◌, refl, inl, inr, arith, Bool, true, false, List, Option, none, some,
  ltb, length, Bool-cases,
}
use beet_core.Abi.Outcome.{Outcome, ◌>>=◌}
use beet_core.Abi.After.{Returns, Returns-then}
use beet_core.Memory.Types.{Layout, MemoryManager}
use beet_core.Memory.Bitmap.{Searches, bit_at, first_one, Finds, first_one-Finds}
use beet_core.Memory.{fragmented_area_pages, or_search, choose_page}
use beet_core.Memory.Range.{is_free}
use beet_core.Memory.Valid.{IsBitvec, IsValid}

-- A stage of the search: the result fits when a hit does, and a miss is handed to the rest.
stage-Returns :
    (P : Option (ℕ × Bool) → Type 0) (search : List Bool → Option ℕ) (bits : List Bool)
    (from to : ℕ) (zeroed : Bool) (rest : Outcome (Option (ℕ × Bool)))
    → ((b : List Bool) → Searches b (search b))
    → from ≤ to
    → to ≤ length bits
    → ((i : ℕ) → Finds bits from to (some i) → P (some (i, zeroed)))
    → (Finds bits from to none → Returns P rest)
    → Returns P (first_one search bits from to >>= λ r. or_search r zeroed rest)
stage-Returns P search bits from to zeroed rest laws lo hi hit miss =
    Returns-then (Finds bits from to) P (first_one search bits from to)
      (λ r. or_search r zeroed rest) (first_one-Finds search bits from to laws lo hi) (go hit miss)
  where
    go :
        ((i : ℕ) → Finds bits from to (some i) → P (some (i, zeroed)))
        → (Finds bits from to none → Returns P rest)
        → (r : Option ℕ) → Finds bits from to r
        → Returns P (or_search r zeroed rest)
    go hit miss (some i) f = (some (i, zeroed), refl, hit i f)
    go hit miss none f = miss f

pub join_none :
    (bits : List Bool) (a b c : ℕ) → Finds bits a b none → Finds bits b c none → Finds bits a c none
join_none bits a b c p q = λ i lo hi. elim (Bool-cases (ltb i b)) [
  | inl lt ↦ p i lo (ground arith)
  | inr ge ↦ q i (ground arith) hi
]

module _ (l : Layout) where
  -- No page below a bound is free, or zeroed.
  abbrev pub NoneFree : MemoryManager → ℕ → Type 0
  NoneFree m n = (i : ℕ) → i < n → is_free m i ≡ false

  abbrev pub NoneZeroed : MemoryManager → ℕ → Type 0
  NoneZeroed m n = (i : ℕ) → i < n → bit_at m.free_pages_zeroed i ≡ false

  -- The policy: a zeroed page of the fragmented area, else a dirty one of it, else any page.
  abbrev pub Chosen : MemoryManager → Option (ℕ × Bool) → Type 0
  Chosen m none = NoneFree m l.ram_pages
  Chosen m (some (i, true)) =
      (bit_at m.free_pages_zeroed i ≡ true)
      × ((i < fragmented_area_pages l) ⊎ NoneFree m (fragmented_area_pages l))
  Chosen m (some (i, false)) =
      (bit_at m.free_pages_dirty i ≡ true)
      × NoneZeroed m (fragmented_area_pages l)
      × ((i < fragmented_area_pages l) ⊎ NoneFree m (fragmented_area_pages l))

  none_of_both :
      (m : MemoryManager) (n : ℕ)
      → Finds m.free_pages_zeroed 0 n none
      → Finds m.free_pages_dirty 0 n none
      → NoneFree m n
  none_of_both m n z d = λ i lt. ground (arith, z i (omega arith) lt, d i (omega arith) lt)

  pub choose_page-Chosen :
      (m : MemoryManager) → IsBitvec l → IsValid l m → Returns (Chosen m) (choose_page l m)
  unfolding choose_page
  choose_page-Chosen m b v =
      let F = fragmented_area_pages l in
      let h = m.next_zeroed_page_hint in
      let z = m.free_pages_zeroed in
      let d = m.free_pages_dirty in
      stage-Returns (Chosen m) l.first_one z h F true _ b.first v.hint (omega (arith, v.zeroed_len))
        (λ i f. (f.2, inl (f.1)))
        (λ n1.
          stage-Returns (Chosen m) l.first_one z 0 h true _ b.first (omega arith)
            (omega (arith, v.zeroed_len, v.hint)) (λ i f. (f.2, inl (omega (arith, f.1, v.hint))))
            (λ n2.
              let zf = join_none z 0 h F n2 n1 in
              stage-Returns (Chosen m) l.first_one d 0 F false _ b.first (omega arith)
                (omega (arith, v.dirty_len))
                (λ i f. (f.2, (λ j lt. zf j (omega arith) lt), inl (f.1)))
                (λ n3.
                  let nf = none_of_both m F zf n3 in
                  stage-Returns (Chosen m) l.first_one z F l.ram_pages true _ b.first (omega arith)
                    (omega (arith, v.zeroed_len)) (λ i f. (f.2, inr nf))
                    (λ n4.
                      stage-Returns (Chosen m) l.first_one d F l.ram_pages false _ b.first
                        (omega arith) (omega (arith, v.dirty_len))
                        (λ i f. (f.2, (λ j lt. zf j (omega arith) lt), inr nf))
                        (λ n5. (
                          none,
                          refl,
                          none_of_both m l.ram_pages (join_none z 0 F l.ram_pages zf n4)
                              (join_none d 0 F l.ram_pages n3 n5),
                        ))))))
