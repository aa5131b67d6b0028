-- ===== src/LlmCommands/Rate.antt =====
-- What `LlmRateLimiter` of plugins/openclaw_ts_bridge/llm_command_translator.js lets through.
use openclaw_serial_adapter.Prelude.{
  ℕ, zero, suc, ◌+◌, ◌-◌, ◌≡◌, refl, ap, ◌∙◌, sym, ◌≤◌, ◌<◌, Bool, true, false, Option, none, some,
  List, [], ◌∷◌, ◌++◌, append_assoc, append-nil, ltb, leb, length, length-append, get_elem?, max,
  All, arith, Bool-cases, inl, inr, subst,
}
use openclaw_serial_adapter.Prelude.Int.{ℤ}
use mathlib.Core.Option.{some-injective}
use openclaw_serial_adapter.LlmCommands.{
  RateLimiter, drop_old, consume, consume_kept, new_limiter, first_or,
}

-- The limiter after a row of calls of `consume`, with the times of those that were let through.
abbrev pub consume_all : List ℕ → RateLimiter → RateLimiter × List ℕ
consume_all [] l = (l, [])
consume_all (now ∷ times) l =
    let (next, waits) = consume now l in
    let (last, later) = consume_all times next in
    (last, elim waits [ none ↦ now ∷ later | some _ ↦ later ])

-- The clock does not go back.
abbrev pub IsClock : ℕ → List ℕ → Type 0
IsClock last [] = Unit
IsClock last (now ∷ times) = last ≤ now × IsClock now times

abbrev IsPast : ℕ → ℕ → Type 0
IsPast now t = t + 1000 < now

-- `drop_old` takes a first part of the list away, and all of it lies in the past.
drop_old-split :
    (now : ℕ) (ts : List ℕ) → (old : List ℕ) × (ts ≡ old ++ drop_old now ts) × All (IsPast now) old
unfolding drop_old
drop_old-split now [] = ([], refl, tt)
drop_old-split now (t ∷ ts) = elim (Bool-cases (ltb (t + 1000) now)) [
  | inl past ↦
      let (old, split, all_past) = drop_old-split now ts in
      let taken : t ∷ ts ≡ (t ∷ old) ++ drop_old now ts = ap (t ∷◌) split in
      (t ∷ old, taken ∙ ap (λ r. (t ∷ old) ++ r) (rw past), (ground arith, all_past))
  | inr kept ↦ ([], rw kept, tt)
]

-- Elements of a list by their index.
get_elem?-lt : {A : Type 0} (xs : List A) (i : ℕ) {a : A} → get_elem? xs i ≡ some a → i < length xs
get_elem?-lt [] i h = ground arith
get_elem?-lt (x ∷ xs) zero h = omega arith
get_elem?-lt (x ∷ xs) (suc i) h = omega (arith, get_elem?-lt xs i h)

get_elem?-append_lt :
    {A : Type 0} (xs ys : List A) (i : ℕ) → i < length xs → get_elem? (xs ++ ys) i ≡ get_elem? xs i
get_elem?-append_lt [] ys i h = absurd (omega arith)
get_elem?-append_lt (x ∷ xs) ys zero h = refl
get_elem?-append_lt (x ∷ xs) ys (suc i) h = get_elem?-append_lt xs ys i (omega arith)

get_elem?-snoc : {A : Type 0} (xs : List A) (y : A) → get_elem? (xs ++ y ∷ []) (length xs) ≡ some y
get_elem?-snoc [] y = refl
get_elem?-snoc (x ∷ xs) y = get_elem?-snoc xs y

All-get_elem? :
    (P : ℕ → Type 0) (xs : List ℕ) (i : ℕ) {a : ℕ} → All P xs → get_elem? xs i ≡ some a → P a
All-get_elem? P [] i h e = ground arith
All-get_elem? P (x ∷ xs) zero h e = subst P (some-injective _ _ e) h.0
All-get_elem? P (x ∷ xs) (suc i) h e = All-get_elem? P xs i h.1 e

-- Of any two times that stand `k` places apart, the later is more than a second after the earlier.
abbrev IsSpaced : ℕ → List ℕ → Type 0
IsSpaced k times =
    (i a b : ℕ) → get_elem? times i ≡ some a → get_elem? times (i + k) ≡ some b → a + 1000 < b

IsSpaced-snoc :
    (k now : ℕ) (old kept : List ℕ)
    → IsSpaced k (old ++ kept)
    → All (IsPast now) old
    → length kept < k
    → IsSpaced k ((old ++ kept) ++ now ∷ [])
IsSpaced-snoc k now old kept spaced past room i a b ea eb =
    elim (Bool-cases (ltb (i + k) (length (old ++ kept)))) [
      | inl inside ↦
          let within : i + k < length (old ++ kept) = ground arith in
          let first : i < length (old ++ kept) = omega arith in
          spaced i a b (sym (get_elem?-append_lt (old ++ kept) (now ∷ []) i first) ∙ ea)
            (sym (get_elem?-append_lt (old ++ kept) (now ∷ []) (i + k) within) ∙ eb)
      | inr outside ↦
          let beyond : length (old ++ kept) ≤ i + k = ground arith in
          let bound = get_elem?-lt ((old ++ kept) ++ now ∷ []) (i + k) eb in
          let last : i + k ≡ length (old ++ kept) =
            omega (arith, length-append (old ++ kept) (now ∷ [])) in
          let in_old : i < length old = omega (arith, length-append old kept) in
          let first : i < length (old ++ kept) = omega arith in
          let is_now : b ≡ now = some-injective _ _ (
            sym eb
            ∙ ap (get_elem? ((old ++ kept) ++ now ∷ [])) last
            ∙ get_elem?-snoc (old ++ kept) now) in
          let found : get_elem? old i ≡ some a =
            sym (get_elem?-append_lt old kept i in_old)
            ∙ sym (get_elem?-append_lt (old ++ kept) (now ∷ []) i first)
            ∙ ea in
          omega (arith, is_now, All-get_elem? (IsPast now) old i past found)
    ]

All-IsPast :
    (now later : ℕ) (ts : List ℕ) → now ≤ later → All (IsPast now) ts → All (IsPast later) ts
All-IsPast now later [] h past = tt
All-IsPast now later (t ∷ ts) h past = (omega (arith, past.0), All-IsPast now later ts h past.1)

All-append : (P : ℕ → Type 0) (xs ys : List ℕ) → All P xs → All P ys → All P (xs ++ ys)
All-append P [] ys h k = k
All-append P (x ∷ xs) ys h k = (h.0, All-append P xs ys h.1 k)

-- The times let through so far end in those that the limiter holds, and the others lie more than a
-- second before the last call.
record Tracks (last : ℕ) (l : RateLimiter) (passed : List ℕ) : Type 0 where
  old : List ℕ
  split : passed ≡ old ++ l.timestamps
  past : All (IsPast last) old
  spaced : IsSpaced l.max_commands_per_sec passed

drop_old-Tracks :
    (last now : ℕ) (l : RateLimiter) (passed : List ℕ)
    → last ≤ now
    → Tracks last l passed
    → Tracks now (record l { timestamps = drop_old now l.timestamps }) passed
drop_old-Tracks last now l passed h t =
    let (more, split, past) = drop_old-split now l.timestamps in
    record {
      old = t.old ++ more;
      split =
          t.split
          ∙ ap (t.old ++◌) split
          ∙ sym (append_assoc t.old more (drop_old now l.timestamps));
      past = All-append (IsPast now) t.old more (All-IsPast last now t.old h t.past) past;
      spaced = t.spaced;
    }

-- The times that pass one call.
abbrev passed_at : ℕ → Option ℕ → List ℕ
passed_at now none = now ∷ []
passed_at now (some wait) = []

consume_kept-Tracks :
    (full : Bool) (now : ℕ) (l : RateLimiter) (kept passed : List ℕ)
    → leb l.max_commands_per_sec (length kept) ≡ full
    → Tracks now (record l { timestamps = kept }) passed
    → let (next, waits) = consume_kept full now l kept in
      Tracks now next (passed ++ passed_at now waits)
consume_kept-Tracks true now l kept passed e t = subst (Tracks now _) (sym (append-nil passed)) t
consume_kept-Tracks false now l kept passed e t =
    let spaced : IsSpaced l.max_commands_per_sec (t.old ++ kept) =
      subst (IsSpaced l.max_commands_per_sec) t.split t.spaced in
    record {
      old = t.old;
      split = ap (◌++ now ∷ []) t.split ∙ append_assoc t.old kept (now ∷ []);
      past = t.past;
      spaced =
          subst (λ ts. IsSpaced l.max_commands_per_sec (ts ++ now ∷ [])) (sym t.split)
            (IsSpaced-snoc l.max_commands_per_sec now t.old kept spaced t.past (ground arith));
    }

consume-Tracks :
    (last now : ℕ) (l : RateLimiter) (passed : List ℕ)
    → last ≤ now
    → Tracks last l passed
    → let (next, waits) = consume now l in Tracks now next (passed ++ passed_at now waits)
unfolding consume
consume-Tracks last now l passed h t =
    let kept = drop_old now l.timestamps in
    consume_kept-Tracks (leb l.max_commands_per_sec (length kept)) now l kept passed refl
      (drop_old-Tracks last now l passed h t)

consume_kept-max :
    (full : Bool) (now : ℕ) (l : RateLimiter) (kept : List ℕ)
    → (consume_kept full now l kept).0.max_commands_per_sec ≡ l.max_commands_per_sec
consume_kept-max true now l kept = refl
consume_kept-max false now l kept = refl

consume-max :
    (now : ℕ) (l : RateLimiter) → (consume now l).0.max_commands_per_sec ≡ l.max_commands_per_sec
unfolding consume
consume-max now l = consume_kept-max _ now l _

passed_at-append :
    (now : ℕ) (waits : Option ℕ) (later : List ℕ)
    → passed_at now waits ++ later ≡ elim waits [ none ↦ now ∷ later | some _ ↦ later ]
passed_at-append now none later = refl
passed_at-append now (some wait) later = refl

consume_all-IsSpaced :
    (last : ℕ) (times : List ℕ) (l : RateLimiter) (passed : List ℕ)
    → IsClock last times
    → Tracks last l passed
    → IsSpaced l.max_commands_per_sec (passed ++ (consume_all times l).1)
consume_all-IsSpaced last [] l passed clock t =
    subst (IsSpaced l.max_commands_per_sec) (sym (append-nil passed)) t.spaced
consume_all-IsSpaced last (now ∷ times) l passed clock t =
    let (next, waits) = consume now l in
    let (end, later) = consume_all times next in
    let spaced =
      consume_all-IsSpaced now times next (passed ++ passed_at now waits) clock.1
        (consume-Tracks last now l passed clock.0 t) in
    subst (λ k. IsSpaced k (passed ++ (consume_all (now ∷ times) l).1)) (consume-max now l)
      (subst (IsSpaced next.max_commands_per_sec)
        (append_assoc passed (passed_at now waits) later
          ∙ ap (passed ++◌) (passed_at-append now waits later))
        spaced)

-- However often a new limiter is asked, at times that do not go back: of the calls that it lets
-- through, any one and the one that stands `maxCommandsPerSec` places after it are more than a
-- second apart. So no second sees more calls pass than the limit.
pub consume_all-spaced :
    (most : ℤ) (times : List ℕ) (i a b : ℕ)
    → IsClock 0 times
    → let l = new_limiter most in
      let passed = (consume_all times l).1 in
      get_elem? passed i ≡ some a
      → get_elem? passed (i + l.max_commands_per_sec) ≡ some b
      → a + 1000 < b
consume_all-spaced most times i a b clock ea eb =
    let start : Tracks 0 (new_limiter most) [] = record {
      old = [];
      split = refl;
      past = tt;
      spaced = λ i a b ea eb. ground arith;
    } in
    consume_all-IsSpaced 0 times (new_limiter most) [] clock start i a b ea eb

drop_old-keep :
    (now oldest : ℕ) (ts : List ℕ) → now ≤ oldest + 1000 → drop_old now (oldest ∷ ts) ≡ oldest ∷ ts
unfolding drop_old
drop_old-keep now oldest ts h = let kept : ltb (oldest + 1000) now ≡ false = ground arith in rw kept

consume-full :
    (l : RateLimiter) (oldest now : ℕ) (ts : List ℕ)
    → l.timestamps ≡ oldest ∷ ts
    → l.max_commands_per_sec ≤ length (oldest ∷ ts)
    → now ≤ oldest + 1000
    → consume now l ≡ (l, some (max 1 (oldest + 1000 - now)))
unfolding consume
consume-full l oldest now ts e full recent =
    let most = l.max_commands_per_sec in
    let kept : drop_old now l.timestamps ≡ l.timestamps =
      ap (drop_old now) e ∙ drop_old-keep now oldest ts recent ∙ sym e in
    let is_full : leb most (length l.timestamps) ≡ true = ground (arith, ap length e) in
    ap (λ k. consume_kept (leb most (length k)) now l k) kept
    ∙ ap (λ b. consume_kept b now l l.timestamps) is_full
    ∙ ap (λ k. (l, some (max 1 (first_or 0 k + 1000 - now)))) e

-- A refused caller is told to wait until its oldest timestamp is 1000 ms old; if it asks again just
-- then, it is refused once more and told to wait for 1 ms.
pub consume-retry :
    (l : RateLimiter) (oldest now : ℕ) (ts : List ℕ)
    → l.timestamps ≡ oldest ∷ ts
    → l.max_commands_per_sec ≤ length (oldest ∷ ts)
    → now < oldest + 1000
    → let (next, waits) = consume now l in
      (waits ≡ some (oldest + 1000 - now)) × ((consume (oldest + 1000) next).1 ≡ some 1)
consume-retry l oldest now ts e full recent =
    let first = consume-full l oldest now ts e full (omega arith) in
    let second = consume-full l oldest (oldest + 1000) ts e full (omega arith) in
    let wait : max 1 (oldest + 1000 - now) ≡ oldest + 1000 - now = omega arith in
    let again : max 1 (oldest + 1000 - (oldest + 1000)) ≡ 1 = omega arith in
    (
      ap (λ o. o.1) first ∙ ap some wait,
      ap (λ o. (consume (oldest + 1000) o.0).1) first ∙ ap (λ o. o.1) second ∙ ap some again,
    )
