-- ===== src/Irq/Lines.antt =====
-- The lines that the table of xous/kernel/src/irq.rs has handlers for, and their release.
use beet_core.Common.{
  ℕ, zero, suc, ◌+◌, ◌≡◌, ◌∙◌, refl, ap, sym, arith, Bool, true, false, [], ◌∷◌, Option, none, some,
  get_elem?, set, if◌then◌else◌, Bool-cases, inl, inr,
}
use beet_core.Abi.Outcome.{ok}
use beet_core.Irq.{
  IrqHandler, free, disable_irq, Handlers, is_of, is_irq_number, release_handler, release_from,
  mask, handle_at,
}
use beet_core.Irq.Controller.{is_taken, is_some_taken, cleared, is_of-taken}

abbrev pub after_release : ℕ → IrqHandler → IrqHandler
after_release pid h = if is_of pid h then free else h

abbrev pub release_found : ℕ → Option IrqHandler → Option IrqHandler
release_found pid none = none
release_found pid (some h) = some (after_release pid h)

pub get_elem?-cleared :
    (pid n : ℕ) (hs : Handlers) (irq : ℕ)
    → get_elem? (cleared pid n hs).0 irq ≡ release_found pid (get_elem? hs irq)
get_elem?-cleared pid n [] irq = refl
get_elem?-cleared pid n (h ∷ hs) zero = elim (Bool-cases (is_of pid h)) [
  | inl own ↦ rw own refl
  | inr other ↦ rw other refl
]
get_elem?-cleared pid n (h ∷ hs) (suc irq) = elim (Bool-cases (is_of pid h)) [
  | inl own ↦ rw own (get_elem?-cleared pid (n + 1) hs irq)
  | inr other ↦ rw other (get_elem?-cleared pid (n + 1) hs irq)
]

-- Is this the handler of a line of the process?
abbrev pub belongs_to : ℕ → Option IrqHandler → Bool
belongs_to pid none = false
belongs_to pid (some h) = is_of pid h

pub handle_at-release :
    (is_process : ℕ → Bool) (pid irq : ℕ) (old : Option IrqHandler)
    → handle_at is_process irq (release_found pid old) ≡ (
        if belongs_to pid old
        then ok (mask (disable_irq irq) ∷ [])
        else handle_at is_process irq old)
unfolding handle_at
handle_at-release is_process pid irq none = refl
handle_at-release is_process pid irq (some h) = elim (Bool-cases (is_of pid h)) [
  | inl own ↦ rw own refl
  | inr other ↦ rw other refl
]

-- The lines with a handler, of which the first is `n`, are ones that an `IrqNumber` names.
abbrev pub OnLines : ℕ → Handlers → Type 0
OnLines n hs =
    (i : ℕ) (h : IrqHandler)
    → get_elem? hs i ≡ some h
    → is_taken h ≡ true
    → is_irq_number (n + i) ≡ true

pub OnLines-rest :
    (n : ℕ) (h : IrqHandler) (hs : Handlers) → OnLines n (h ∷ hs) → OnLines (n + 1) hs
OnLines-rest n h hs o i h' at t =
    ap is_irq_number {x = n + 1 + i} {y = n + suc i} (omega arith) ∙ o (suc i) h' at t

pub eq_of_some_free : {x : IrqHandler} → some x ≡ some free → free ≡ x
eq_of_some_free e = cc

pub true_ne_false : ¬ (false ≡ true)
true_ne_false e = ground arith

pub OnLines-set :
    (n : ℕ) (hs : Handlers) (irq : ℕ) (h : IrqHandler)
    → (is_taken h ≡ true → is_irq_number (n + irq) ≡ true)
    → OnLines n hs
    → OnLines n (set hs irq h)
OnLines-set n [] irq h good o i h' at t = o i h' at t
OnLines-set n (x ∷ xs) zero h good o zero h' at t = good (ap is_some_taken at ∙ t)
OnLines-set n (x ∷ xs) zero h good o (suc i) h' at t = o (suc i) h' at t
OnLines-set n (x ∷ xs) (suc irq) h good o zero h' at t = o zero h' at t
OnLines-set n (x ∷ xs) (suc irq) h good o (suc i) h' at t =
    ap is_irq_number {x = n + suc i} {y = n + 1 + i} (omega arith)
    ∙ OnLines-set (n + 1) xs irq h
        (λ taken_h.
          ap is_irq_number {x = n + 1 + irq} {y = n + suc irq} (omega arith) ∙ good taken_h)
        (OnLines-rest n x xs o) i h' at t

pub release_from-cleared :
    (pid n : ℕ) (hs : Handlers) → OnLines n hs → release_from pid n hs ≡ ok (cleared pid n hs)
unfolding release_from release_handler
release_from-cleared pid n [] o = refl
release_from-cleared pid n (h ∷ hs) o = elim (Bool-cases (is_of pid h)) [
  | inl own ↦
      let line : is_irq_number n ≡ true =
        ap is_irq_number {x = n} {y = n + 0} (omega arith) ∙ o 0 h refl (is_of-taken pid h own) in
      rw (own, line, release_from-cleared pid (n + 1) hs (OnLines-rest n h hs o)) refl
  | inr other ↦ rw (other, release_from-cleared pid (n + 1) hs (OnLines-rest n h hs o)) refl
]

pub cleared-OnLines : (pid n : ℕ) (hs : Handlers) → OnLines n hs → OnLines n (cleared pid n hs).0
cleared-OnLines pid n hs o i h at t =
    kept (get_elem? hs i) refl (sym (get_elem?-cleared pid n hs i) ∙ at)
  where
    kept :
        (old : Option IrqHandler)
        → get_elem? hs i ≡ old
        → release_found pid old ≡ some h
        → is_irq_number (n + i) ≡ true
    kept none was e = absurd (true_ne_false (ap is_some_taken e ∙ t))
    kept (some h') was e = elim (Bool-cases (is_of pid h')) [
      | inl own ↦ absurd (
          true_ne_false (
            ap is_some_taken {x = some free} (ap (λ b. some (if b then free else h')) (sym own) ∙ e)
            ∙ t))
      | inr other ↦ o i h' was (
          ap is_some_taken {x = some h'} (ap (λ b. some (if b then free else h')) (sym other) ∙ e)
          ∙ t)
    ]
