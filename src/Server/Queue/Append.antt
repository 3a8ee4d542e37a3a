-- ===== src/Server/Queue/Append.antt =====
-- Storing an entry in an empty slot appends a message to those that wait.
use mathlib.Core.Option.{some}
use beet_core.Common.{
  ℕ, ◌+◌, ◌-◌, ◌%◌, ◌<◌, ◌≡◌, ◌≢◌, refl, sym, ◌∙◌, ap, arith, false, List, [], ◌∷◌, ◌++◌, ◌==◌,
  length, get_elem?, set, Bool-cases, inl, inr, length-set, length-append, get_or-set_self,
  get_or-set_ne, count_if-set, get_elem?-lt, get_elem?-append_left, get_elem?-append_end, eq_of_==,
  ne_of_==,
}
use beet_core.Server.Types.{QueuedMessage, empty, Server}
use beet_core.Server.Queue.{slot, is_empty_slot, wrap}
use beet_core.Server.Queue.Invariant.{
  generation, has_generation, Pending, Delivers, IsValid, Fifo, Delivers-subst, generation-Delivers,
  eq_of_some,
}

-- The server after `queue_message` has stored `entry` in slot `i`.
abbrev pub stored : Server → ℕ → QueuedMessage → Server
stored s i entry = record s {
  queue_head = wrap (length s.queue) (i + 1);
  queue = set s.queue i entry;
  empty_count = s.empty_count - 1;
  tail_generation = (s.tail_generation + 1) % 256;
}

pub stored-IsValid :
    (s : Server) (i : ℕ) (entry : QueuedMessage)
    → IsValid s
    → i < length s.queue
    → slot s.queue i ≡ empty
    → is_empty_slot entry ≡ false
    → IsValid (stored s i entry)
stored-IsValid s i entry v h was full = record {
  head_in = rw (length-set s.queue i entry) (ground arith);
  tail_in = rw (length-set s.queue i entry) v.tail_in;
  empties = ground (arith, v.empties, count_if-set is_empty_slot s.queue i entry empty h);
  generation_small = v.generation_small;
}

some_same : {p q : Pending} → some p ≡ some q → q ≡ p
some_same e = cc

module _ {s : Server} {ps : List Pending} (v : Fifo s ps) (room : length ps < 255) (p : Pending)
    (entry : QueuedMessage) (p_in : p.at < length s.queue) (was : slot s.queue p.at ≡ empty)
    (delivers : Delivers s.tail_generation entry p) where
  no_generation_before : (g : ℕ) → generation (slot s.queue p.at) ≢ some g
  no_generation_before g e = ground (arith, was)

  elsewhere : (q : Pending) (g : ℕ) → Delivers g (slot s.queue q.at) q → p.at ≢ q.at
  elsewhere q g d same =
      no_generation_before g
        (ap (λ i. generation (slot s.queue i)) same ∙ generation-Delivers g _ q d)

  stored_here :
      (k : ℕ) (q : Pending)
      → get_elem? (ps ++ p ∷ []) k ≡ some q
      → (q.at < length (set s.queue p.at entry))
        × Delivers ((s.head_generation + k) % 256) (slot (set s.queue p.at entry) q.at) q
  stored_here k q e = elim (Bool-cases (k == length ps)) [
    | inl last ↦
        let k_last : k ≡ length ps = eq_of_== k _ last in
        let q_p : q ≡ p = some_same (
          sym (get_elem?-append_end ps p)
          ∙ ap (λ n. get_elem? (ps ++ p ∷ []) n) (sym k_last)
          ∙ e) in
        rw (q_p, length-set s.queue p.at entry)
          (
            p_in,
            Delivers-subst _ _ _ _ p (v.tail ∙ ap (λ n. (s.head_generation + n) % 256) (sym k_last))
                (sym (get_or-set_self s.queue p.at entry empty p_in)) delivers,
          )
    | inr earlier ↦
        let k_in : k < length ps = omega (
          arith,
          get_elem?-lt (ps ++ p ∷ []) k e,
          length-append ps (p ∷ []),
          ne_of_== k _ earlier,
        ) in
        let (q_in, d) = v.here k q (sym (get_elem?-append_left ps (p ∷ []) k k_in) ∙ e) in
        (
          rw (length-set s.queue p.at entry) q_in,
          Delivers-subst _ _ _ _ q refl
              (sym (get_or-set_ne s.queue p.at q.at entry empty (elsewhere q _ d))) d,
        )
  ]

  stored_only :
      (j g : ℕ)
      → j < length s.queue
      → generation (slot (set s.queue p.at entry) j) ≡ some g
      → (k : ℕ) × (q : Pending) × (get_elem? (ps ++ p ∷ []) k ≡ some q)
        × (q.at ≡ j)
        × (g ≡ (s.head_generation + k) % 256)
  stored_only j g h e = elim (Bool-cases (p.at == j)) [
    | inl same ↦
        let at_j : p.at ≡ j = eq_of_== p.at j same in
        let kept : slot (set s.queue p.at entry) j ≡ entry =
          rw (← at_j) (get_or-set_self s.queue p.at entry empty p_in) in
        let gen : g ≡ s.tail_generation =
          eq_of_some (sym e ∙ ap generation kept ∙ generation-Delivers _ entry p delivers) in
        (length ps, p, get_elem?-append_end ps p, at_j, gen ∙ v.tail)
    | inr other ↦
        let stays = get_or-set_ne s.queue p.at j entry empty (ne_of_== p.at j other) in
        let (k, q, at_k, at_j, gen) = v.only j g h (ap generation (sym stays) ∙ e) in
        (k, q, get_elem?-append_left ps (p ∷ []) k (get_elem?-lt ps k at_k) ∙ at_k, at_j, gen)
  ]

  pub stored-Fifo : Fifo (stored s p.at entry) (ps ++ p ∷ [])
  stored-Fifo = record {
    few = omega (arith, length-append ps (p ∷ []), room);
    tail = omega (arith, length-append ps (p ∷ []), v.tail);
    counted = ground (
      arith,
      v.counted,
      was,
      length-append ps (p ∷ []),
      generation-Delivers _ entry p delivers,
      count_if-set has_generation s.queue p.at entry empty p_in,
    );
    here = stored_here;
    only = λ j g h. stored_only j g (rw (length-set s.queue p.at entry) at h);
  }
