-- ===== src/Control/Log.antt =====
-- What the lists of tickets hold after the operations on them.
use openclaw_serial_adapter.Prelude.{
  ℕ, ◌+◌, ◌≤◌, ◌≡◌, refl, ap, ◌∙◌, sym, none, some, List, [], ◌∷◌, ◌++◌, map, ◌==◌, if◌then◌else◌,
  arith, Option-cases, inl, inr, append_assoc, append-nil,
}
use openclaw_serial_adapter.Prelude.Counting.{count}
use openclaw_serial_adapter.Control.{
  Client, Timer, AckError, Outcome, failed, clear_timeout, splice_out, find_timer, reject_each,
}

abbrev pub tickets : List Timer → List ℕ
tickets = map (λ x. x.ticket)

abbrev pub clear_all : List ℕ → List Timer → List Timer
clear_all [] a = a
clear_all (t ∷ ts) a = clear_all ts (clear_timeout t a)

pub count-clear_timeout :
    (t u : ℕ) (a : List Timer)
    → count t (tickets (clear_timeout u a)) ≡ (if t == u then 0 else count t (tickets a))
unfolding clear_timeout
count-clear_timeout t u [] = ground arith
count-clear_timeout t u (x ∷ a) = ground (arith, count-clear_timeout t u a)

pub count-clear_all :
    (t : ℕ) (ts : List ℕ) (a : List Timer)
    → count t (tickets (clear_all ts a)) ≡ (if count t ts == 0 then count t (tickets a) else 0)
count-clear_all t [] a = refl
count-clear_all t (u ∷ ts) a =
    ground (arith, count-clear_all t ts (clear_timeout u a), count-clear_timeout t u a)

pub count-splice_out :
    (t u : ℕ) (xs ys : List ℕ)
    → splice_out u xs ≡ some ys
    → count t xs ≡ (if t == u then 1 else 0) + count t ys
unfolding splice_out
count-splice_out t u [] ys e = ground arith
count-splice_out t u (x ∷ xs) ys e = elim (Option-cases (splice_out u xs)) [
  | inl absent ↦ ground arith
  | inr (rest, found) ↦ ground (arith, count-splice_out t u xs rest found)
]

pub splice_out-none : (u : ℕ) (xs : List ℕ) → splice_out u xs ≡ none → count u xs ≡ 0
unfolding splice_out
splice_out-none u [] e = refl
splice_out-none u (x ∷ xs) e = ground (arith, splice_out-none u xs)

pub find_timer-count :
    (u : ℕ) (a : List Timer) (timer : Timer) → find_timer u a ≡ some timer → 1 ≤ count u (tickets a)
unfolding find_timer
find_timer-count u [] timer e = ground arith
find_timer-count u (x ∷ a) timer e = ground (arith, find_timer-count u a timer)

module _ {F : Type 0} where
  abbrev pub settled_tickets : List (ℕ × Outcome F) → List ℕ
  settled_tickets = map (λ p. p.0)

  abbrev pub rejections : AckError → List ℕ → List (ℕ × Outcome F)
  rejections e = map (λ t. (t, failed e))

  pub reject_each_lem :
      (e : AckError) (ts : List ℕ) (c : Client F)
      → reject_each e ts c
        ≡ record c { armed = clear_all ts c.armed; settled = c.settled ++ rejections e ts }
  unfolding reject_each
  reject_each_lem e [] c = ap (λ l. record c { settled = l }) (sym (append-nil c.settled))
  reject_each_lem e (t ∷ ts) c =
      reject_each_lem e ts _
      ∙ ap (λ l. record c { armed = clear_all ts (clear_timeout t c.armed); settled = l })
          (append_assoc c.settled ((t, failed e) ∷ []) (rejections e ts))

  pub count-settled :
      (t : ℕ) (xs ys : List (ℕ × Outcome F))
      → count t (settled_tickets (xs ++ ys))
        ≡ count t (settled_tickets xs) + count t (settled_tickets ys)
  count-settled t [] ys = omega arith
  count-settled t (x ∷ xs) ys = omega (arith, count-settled t xs ys)

pub count-tickets :
    (t : ℕ) (xs ys : List Timer)
    → count t (tickets (xs ++ ys)) ≡ count t (tickets xs) + count t (tickets ys)
count-tickets t [] ys = omega arith
count-tickets t (x ∷ xs) ys = omega (arith, count-tickets t xs ys)

pub count-rejections :
    (F : Type 0) (t : ℕ) (e : AckError) (ts : List ℕ)
    → count t (settled_tickets {F = F} (rejections e ts)) ≡ count t ts
count-rejections F t e [] = refl
count-rejections F t e (u ∷ ts) = omega (arith, count-rejections F t e ts)
