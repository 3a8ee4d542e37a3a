-- ===== src/Server/Queue/Receive.antt =====
-- `take_next_message` receives the oldest waiting message, wherever it stands in the queue.
use mathlib.Core.Option.{Option, none, some}
use beet_core.Common.{
  ℕ, zero, suc, ◌+◌, ◌%◌, ◌<◌, ◌≡◌, ◌≢◌, refl, sym, ◌∙◌, ap, subst, arith, false, List, ◌∷◌, ◌==◌,
  if◌then◌else◌, length, get_elem?, set, Bool-cases, inl, inr, length-set, get_or-set_self,
  get_or-set_ne, count_if-set, get_elem?-lt, ne_of_==, eq_of_==,
}
use beet_core.Abi.Message.{Envelope}
use beet_core.Server.Types.{QueuedMessage, empty, Server}
use beet_core.Server.Queue.{slot, is_empty_slot, wrap}
use beet_core.Server.Queue.Take.{take_slot, find_next, take_next_message, envelope, sender}
use beet_core.Server.Queue.Invariant.{
  generation, has_generation, Pending, Delivers, IsValid, Fifo, take_slot-generation,
  Delivers-subst, Fifo-same_slot, generation-Delivers,
}
use beet_core.Server.Queue.Search.{find_next-Found}

none_ne_some : {g : ℕ} → none ≢ some g
none_ne_some e = cc

abbrev at_or : ℕ → Option Pending → ℕ
at_or d none = d
at_or d (some p) = p.at

ne_suc : {k : ℕ} → 0 ≢ suc k
ne_suc e = omega arith

-- The state after a receive from slot `i`, which keeps `response`.
abbrev taken : Server → ℕ → QueuedMessage → Server
taken s i response = record s {
  queue_tail = wrap (length s.queue) (i + 1);
  empty_count = if is_empty_slot response then s.empty_count + 1 else s.empty_count;
  queue = set s.queue i response;
  head_generation = (s.head_generation + 1) % 256;
}

taken-IsValid :
    (s : Server) (i : ℕ) (response : QueuedMessage)
    → IsValid s
    → i < length s.queue
    → is_empty_slot (slot s.queue i) ≡ false
    → IsValid (taken s i response)
taken-IsValid s i response v h full = record {
  head_in = rw (length-set s.queue i response) v.head_in;
  tail_in = rw (length-set s.queue i response) (ground arith);
  empties = ground (arith, v.empties, count_if-set is_empty_slot s.queue i response empty h);
  generation_small = omega arith;
}

module _ {s : Server} {p : Pending} {ps : List Pending} (v : Fifo s (p ∷ ps))
    (response : QueuedMessage) (no_generation : generation response ≡ none) where
  others_stay :
      (k : ℕ) (q : Pending)
      → get_elem? ps k ≡ some q
      → slot (set s.queue p.at response) q.at ≡ slot s.queue q.at
  others_stay k q e =
      get_or-set_ne s.queue p.at q.at response empty
        (λ same. ne_suc (Fifo-same_slot v 0 (suc k) p q refl e same))

  taken_here :
      (k : ℕ) (q : Pending)
      → get_elem? ps k ≡ some q
      → (q.at < length (set s.queue p.at response))
        × Delivers
            (((s.head_generation + 1) % 256 + k) % 256)
            (slot (set s.queue p.at response) q.at)
            q
  taken_here k q e =
      let (in_range, delivers) = v.here (suc k) q e in
      (
        rw (length-set s.queue p.at response) in_range,
        Delivers-subst _ _ _ _ q (omega arith) (sym (others_stay k q e)) delivers,
      )

  later_of :
      (k : ℕ) (q : Pending) (j g : ℕ)
      → p.at ≢ j
      → get_elem? (p ∷ ps) k ≡ some q
      → q.at ≡ j
      → g ≡ (s.head_generation + k) % 256
      → (k : ℕ) × (q : Pending) × (get_elem? ps k ≡ some q)
        × (q.at ≡ j)
        × (g ≡ ((s.head_generation + 1) % 256 + k) % 256)
  later_of zero q j g ne at_k at_j gen =
      absurd (ne (ap (λ (r : Option Pending). at_or 0 r) at_k ∙ at_j))
  later_of (suc k) q j g ne at_k at_j gen = (k, q, at_k, at_j, omega arith)

  taken_only :
      (j g : ℕ)
      → j < length s.queue
      → generation (slot (set s.queue p.at response) j) ≡ some g
      → (k : ℕ) × (q : Pending) × (get_elem? ps k ≡ some q)
        × (q.at ≡ j)
        × (g ≡ ((s.head_generation + 1) % 256 + k) % 256)
  taken_only j g h e = elim (Bool-cases (p.at == j)) [
    | inl same ↦ absurd (lost (eq_of_== p.at j same))
    | inr other ↦
        let stays : slot (set s.queue p.at response) j ≡ slot s.queue j =
          get_or-set_ne s.queue p.at j response empty (ne_of_== p.at j other) in
        let (k, q, at_k, at_j, gen) = v.only j g h (ap generation (sym stays) ∙ e) in
        later_of k q j g (ne_of_== p.at j other) at_k at_j gen
  ]
    where
      lost : p.at ≡ j → ⊥
      lost same =
          let p_in : p.at < length s.queue = (v.here 0 p refl).0 in
          let kept : slot (set s.queue p.at response) j ≡ response =
            rw (← same) (get_or-set_self s.queue p.at response empty p_in) in
          none_ne_some (sym no_generation ∙ ap generation (sym kept) ∙ e)

  taken-Fifo : Fifo (taken s p.at response) ps
  taken-Fifo = record {
    few = omega (arith, v.few);
    tail = omega (arith, v.tail);
    counted = ground (
      arith,
      v.counted,
      no_generation,
      generation-Delivers _ _ p (v.here 0 p refl).1,
      count_if-set has_generation s.queue p.at response empty (v.here 0 p refl).0,
    );
    here = taken_here;
    only = λ j g h. taken_only j g (rw (length-set s.queue p.at response) at h);
  }

taken_lem :
    (s : Server) (sidx i : ℕ) (received : Envelope) (response : QueuedMessage)
    → s.tail_generation ≢ s.head_generation
    → find_next (length s.queue) s.queue sidx s.head_generation s.queue_tail s.queue_tail
      ≡ some (i, received, response)
    → take_next_message s sidx ≡ (taken s i response, some received)
unfolding take_next_message
taken_lem s sidx i received response ne found = ground arith

some_envelope :
    {a b : Envelope} {x y : QueuedMessage} {o : Option (Envelope × QueuedMessage)}
    → o ≡ some (a, x)
    → o ≡ some (b, y)
    → a ≡ b
some_envelope e f = cc

not_empty :
    (entry : QueuedMessage) {g : ℕ} → generation entry ≡ some g → is_empty_slot entry ≡ false
not_empty empty e = ground arith
not_empty _ e = refl

module _ {s : Server} {p : Pending} {ps : List Pending} (valid : IsValid s)
    (v : Fifo s (p ∷ ps)) where
  head_here : Delivers s.head_generation (slot s.queue p.at) p
  head_here =
      Delivers-subst _ _ _ _ p (omega (arith, valid.generation_small)) refl (v.here 0 p refl).1

  oldest_at :
      (k : ℕ) (q : Pending) (i : ℕ)
      → get_elem? (p ∷ ps) k ≡ some q
      → q.at ≡ i
      → s.head_generation ≡ (s.head_generation + k) % 256
      → i ≡ p.at
  oldest_at zero q i at_k at_i gen = sym (ap (λ r. at_or 0 r) at_k ∙ at_i)
  oldest_at (suc k) q i at_k at_i gen =
      absurd (omega (arith, get_elem?-lt ps k at_k, v.few, valid.generation_small, gen))

  found_at :
      (i : ℕ) → i < length s.queue → generation (slot s.queue i) ≡ some s.head_generation → i ≡ p.at
  found_at i i_in at_head =
      let (k, q, at_k, at_i, gen) = v.only i s.head_generation i_in at_head in
      oldest_at k q i at_k at_i gen

-- From a valid server the oldest waiting message is received, from its own slot and with its
-- sender, wherever the tail is; the others wait in the same order and the server stays valid.
pub take_next_message-cons :
    (s : Server) (sidx : ℕ) (p : Pending) (ps : List Pending)
    → IsValid s
    → Fifo s (p ∷ ps)
    → (s' : Server) × (take_next_message s sidx
        ≡ (s', some (envelope (sender sidx p.at p.from) p.body)))
      × Fifo s' ps
      × IsValid s'
take_next_message-cons s sidx p ps valid v =
    let p_in = (v.here 0 p refl).0 in
    let at_head = generation-Delivers _ _ p (head_here valid v) in
    let (i, received, response, found, i_in, hit) =
      find_next-Found s.queue sidx s.head_generation s.queue_tail valid.tail_in (length s.queue)
        s.queue_tail p.at valid.tail_in p_in at_head (ground (arith, valid.tail_in, p_in))
        (ground (arith, valid.tail_in, p_in)) in
    let (gen, no_gen) = take_slot-generation sidx i s.head_generation (slot s.queue i) hit in
    let same : i ≡ p.at = found_at valid v i i_in gen in
    let found_p =
      subst
        (λ j.
          find_next (length s.queue) s.queue sidx s.head_generation s.queue_tail s.queue_tail
          ≡ some (j, received, response))
        same found in
    let hit_p =
      subst (λ j. take_slot sidx j s.head_generation (slot s.queue j) ≡ some (received, response))
        same hit in
    let body = some_envelope hit_p (head_here valid v sidx).1 in
    let ne : s.tail_generation ≢ s.head_generation =
      λ e. omega (arith, v.tail, v.few, valid.generation_small, e) in
    (
      taken s p.at response,
      taken_lem s sidx p.at received response ne found_p
          ∙ ap (λ e. (taken s p.at response, some e)) body,
      taken-Fifo v response no_gen,
      taken-IsValid s p.at response valid p_in (not_empty _ at_head),
    )
