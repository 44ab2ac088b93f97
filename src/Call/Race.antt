-- ===== src/Call/Race.antt =====
-- Requests about one ringing call that race: every interleaving of their Redis commands, with
-- time passing in between.
use mathlib.Core.Path.{subst}
use vertxing.Prelude.{
  sym, ℕ, zero, suc, ◌+◌, ◌≤◌, String, ◌≡◌, refl, Bool, true, false, List, [], ◌∷◌, ◌==◌, eq_iff,
  eq_refl, arith, is_text, lookup, ◌⊎◌, inl, inr,
}
use vertxing.Redis.Dataset.{
  Dataset, Command, Reply, answer, elapse, del, hgetall, expire, eval_compare_and_set,
  eval_delete_if_equals,
}
use vertxing.Redis.Prog.{Prog, ret, send}
use vertxing.Redis.Laws.{lookup-put, compare_and_set-reply, compare_and_set-hash}
use vertxing.Call.Types.{call_key}

-- One event: the thread with this number sends its next command, or seconds pass.
pub data Event : Type 0 where
  turn : ℕ → Event
  wait : ℕ → Event

pub advance : ℕ → List (Prog Bool) → Dataset → List (Prog Bool) × Dataset
advance i [] d = ([], d)
advance zero (ret b ∷ ts) d = (ret b ∷ ts, d)
advance zero (send m k ∷ ts) d = let (r, d') = answer m d in (k r ∷ ts, d')
advance (suc i) (t ∷ ts) d = let (ts', d') = advance i ts d in (t ∷ ts', d')

unfoldable pub interleave : List Event → List (Prog Bool) → Dataset → List (Prog Bool) × Dataset
unfolding advance
interleave [] ts d = (ts, d)
interleave (turn i ∷ es) ts d = let (ts', d') = advance i ts d in interleave es ts' d'
interleave (wait n ∷ es) ts d = interleave es ts (elapse n d)

-- How many threads have ended with `true`.
abbrev pub winner : Prog Bool → ℕ
winner (ret true) = 1
winner (ret false) = 0
winner (send m k) = 0

unfoldable pub winners : List (Prog Bool) → ℕ
winners [] = 0
winners (t ∷ ts) = winner t + winners ts

module _ (call_id : String) where
  abbrev ringing : Dataset → Bool
  ringing d = is_text (lookup "state" (d.hash (call_key call_id))) "RINGING"

  -- Commands that cannot make a call ring.
  abbrev pub IsSafe : Command → Type 0
  IsSafe (hgetall k) = Unit
  IsSafe (expire k n) = Unit
  IsSafe (del k) = Unit
  IsSafe (eval_delete_if_equals k e) = Unit
  IsSafe (eval_compare_and_set k f e n) = (n == "RINGING") ≡ false
  IsSafe _ = ⊥

  pub data Quiet : Prog Bool → Type 0 where
    over : (b : Bool) → Quiet (ret b)
    next :
        {m : Command} {k : Reply m → Prog Bool}
        → IsSafe m
        → ((r : Reply m) → Quiet (k r))
        → Quiet (send m k)

  -- A program that ends with `true` only through a compare-and-set out of RINGING.
  pub data Pending : Prog Bool → Type 0 where
    lost : Pending (ret false)
    quiet :
        {m : Command} {k : Reply m → Prog Bool}
        → IsSafe m
        → ((r : Reply m) → Pending (k r))
        → Pending (send m k)
    claim :
        {n : String} {k : ℕ → Prog Bool}
        → (n == "RINGING") ≡ false
        → Quiet (k 1)
        → Pending (k 0)
        → Pending (send (eval_compare_and_set (call_key call_id) "state" "RINGING" n) k)

  -- A safe command does not make the call ring.
  answer-ringing :
      (m : Command) (d : Dataset) → IsSafe m → ringing d ≡ false → ringing (answer m d).1 ≡ false
  answer-ringing (hgetall k) d h e = unfold answer in e
  answer-ringing (expire k n) d h e = unfold answer in ground arith
  answer-ringing (del k) d h e = unfold answer lookup in ground arith
  answer-ringing (eval_delete_if_equals k x) d h e = unfold answer lookup in ground arith
  answer-ringing (eval_compare_and_set k f x n) d h e =
      rw (compare_and_set-hash k f x n (call_key call_id) d)
        (ground (arith, lookup-put f "state" n (d.hash k), eq_iff k (call_key call_id)))
  answer-ringing _ d h e = elim h [ ]

  elapse-ringing : (n : ℕ) (d : Dataset) → ringing d ≡ false → ringing (elapse n d) ≡ false
  unfolding elapse lookup
  elapse-ringing n d e = ground arith

  -- The compare-and-set out of RINGING: it wins only on a ringing call, which then rings no more.
  claim-cases :
      (n : String) (d : Dataset)
      → (n == "RINGING") ≡ false
      → let (r, d') = answer (eval_compare_and_set (call_key call_id) "state" "RINGING" n) d in
        ((ringing d ≡ false) × (r ≡ 0) × (ringing d' ≡ false))
        ⊎ ((ringing d ≡ true) × (r ≡ 1) × (ringing d' ≡ false))
  claim-cases n d h =
      rw
        (
          compare_and_set-hash (call_key call_id) "state" "RINGING" n (call_key call_id) d,
          compare_and_set-reply (call_key call_id) "state" "RINGING" n d,
          eq_refl (call_key call_id),
        )
        (ground (arith, lookup-put "state" "state" n (d.hash (call_key call_id)), eq_refl "state"))

  abbrev pub AllPending : List (Prog Bool) → Type 0
  AllPending [] = Unit
  AllPending (t ∷ ts) = Pending t × AllPending ts

  data OneQuiet : List (Prog Bool) → Type 0 where
    here : {t : Prog Bool} {ts : List (Prog Bool)} → Quiet t → AllPending ts → OneQuiet (t ∷ ts)
    there : {t : Prog Bool} {ts : List (Prog Bool)} → Pending t → OneQuiet ts → OneQuiet (t ∷ ts)

  -- Nobody has won yet, or one thread has and the call rings no more.
  data Inv (ts : List (Prog Bool)) (d : Dataset) : Type 0 where
    open_race : AllPending ts → Inv ts d
    closed : ringing d ≡ false → OneQuiet ts → Inv ts d

  -- With the call no longer ringing, a step keeps it so, and nobody can win any more.
  advance-AllPending :
      (i : ℕ) (ts : List (Prog Bool)) (d : Dataset)
      → AllPending ts
      → ringing d ≡ false
      → AllPending (advance i ts d).0 × (ringing (advance i ts d).1 ≡ false)
  unfolding advance
  advance-AllPending i [] d a e = (tt, e)
  advance-AllPending zero (ret b ∷ ts) d a e = (a, e)
  advance-AllPending zero (send m k ∷ ts) d (quiet s f, a) e =
      ((f (answer m d).0, a), answer-ringing m d s e)
  advance-AllPending zero (send m k ∷ ts) d (claim {n} h q p, a) e = elim (claim-cases n d h) [
    | inl (_, r, still) ↦ ((subst (λ r. Pending (k r)) (sym r) p, a), still)
    | inr (was, _, _) ↦ cc
  ]
  advance-AllPending (suc i) (t ∷ ts) d (p, a) e =
      let (a', e') = advance-AllPending i ts d a e in ((p, a'), e')

  advance-OneQuiet :
      (i : ℕ) (ts : List (Prog Bool)) (d : Dataset)
      → OneQuiet ts
      → ringing d ≡ false
      → OneQuiet (advance i ts d).0 × (ringing (advance i ts d).1 ≡ false)
  unfolding advance
  advance-OneQuiet zero [] d o e = elim o [ ]
  advance-OneQuiet (suc i) [] d o e = elim o [ ]
  advance-OneQuiet zero (ret b ∷ ts) d o e = (o, e)
  advance-OneQuiet zero (send m k ∷ ts) d (here (next s f) a) e =
      (here (f (answer m d).0) a, answer-ringing m d s e)
  advance-OneQuiet zero (send m k ∷ ts) d (there p o) e =
      let (a, e') = advance-AllPending zero (send m k ∷ []) d (p, tt) e in (there a.0 o, e')
  advance-OneQuiet (suc i) (t ∷ ts) d (here q a) e =
      let (a', e') = advance-AllPending i ts d a e in (here q a', e')
  advance-OneQuiet (suc i) (t ∷ ts) d (there p o) e =
      let (o', e') = advance-OneQuiet i ts d o e in (there p o', e')

  Inv-cons :
      (t : Prog Bool) (ts : List (Prog Bool)) (d : Dataset) → Pending t → Inv ts d → Inv (t ∷ ts) d
  Inv-cons t ts d p (open_race a) = open_race (p, a)
  Inv-cons t ts d p (closed e o) = closed e (there p o)

  advance-open :
      (i : ℕ) (ts : List (Prog Bool)) (d : Dataset)
      → AllPending ts
      → Inv (advance i ts d).0 (advance i ts d).1
  unfolding advance
  advance-open i [] d a = open_race tt
  advance-open zero (ret b ∷ ts) d a = open_race a
  advance-open zero (send m k ∷ ts) d (quiet s f, a) = open_race (f (answer m d).0, a)
  advance-open zero (send m k ∷ ts) d (claim {n} h q p, a) = elim (claim-cases n d h) [
    | inl (_, r, _) ↦ open_race (subst (λ r. Pending (k r)) (sym r) p, a)
    | inr (_, r, rests) ↦ closed rests (here (subst (λ r. Quiet (k r)) (sym r) q) a)
  ]
  advance-open (suc i) (t ∷ ts) d (p, a) =
      Inv-cons t (advance i ts d).0 (advance i ts d).1 p (advance-open i ts d a)

  interleave-Inv :
      (es : List Event) (ts : List (Prog Bool)) (d : Dataset)
      → Inv ts d
      → Inv (interleave es ts d).0 (interleave es ts d).1
  unfolding interleave
  interleave-Inv [] ts d v = v
  interleave-Inv (turn i ∷ es) ts d (open_race a) =
      interleave-Inv es (advance i ts d).0 (advance i ts d).1 (advance-open i ts d a)
  interleave-Inv (turn i ∷ es) ts d (closed e o) =
      let (o', e') = advance-OneQuiet i ts d o e in
      interleave-Inv es (advance i ts d).0 (advance i ts d).1 (closed e' o')
  interleave-Inv (wait n ∷ es) ts d (open_race a) = interleave-Inv es ts (elapse n d) (open_race a)
  interleave-Inv (wait n ∷ es) ts d (closed e o) =
      interleave-Inv es ts (elapse n d) (closed (elapse-ringing n d e) o)

  winner-Pending : {t : Prog Bool} → Pending t → winner t ≡ 0
  winner-Pending lost = refl
  winner-Pending (quiet s f) = refl
  winner-Pending (claim h q p) = refl

  winners-AllPending : (ts : List (Prog Bool)) → AllPending ts → winners ts ≡ 0
  unfolding winners
  winners-AllPending [] a = refl
  winners-AllPending (t ∷ ts) (p, a) = omega (arith, winner-Pending p, winners-AllPending ts a)

  winner-le-one : (t : Prog Bool) → winner t ≤ 1
  winner-le-one (ret true) = omega arith
  winner-le-one (ret false) = omega arith
  winner-le-one (send m k) = omega arith

  winners-OneQuiet : (ts : List (Prog Bool)) → OneQuiet ts → winners ts ≤ 1
  unfolding winners
  winners-OneQuiet [] o = elim o [ ]
  winners-OneQuiet (t ∷ ts) (here q a) = omega (arith, winner-le-one t, winners-AllPending ts a)
  winners-OneQuiet (t ∷ ts) (there p o) = omega (arith, winner-Pending p, winners-OneQuiet ts o)

  winners-Inv : (ts : List (Prog Bool)) (d : Dataset) → Inv ts d → winners ts ≤ 1
  winners-Inv ts d (open_race a) = omega (arith, winners-AllPending ts a)
  winners-Inv ts d (closed e o) = winners-OneQuiet ts o

  -- Programs that can win only by that compare-and-set: however their commands interleave, and
  -- however long they wait, at most one of them wins.
  pub race-one_winner :
      (es : List Event) (ts : List (Prog Bool)) (d : Dataset)
      → AllPending ts
      → winners (interleave es ts d).0 ≤ 1
  race-one_winner es ts d a = winners-Inv _ _ (interleave-Inv es ts d (open_race a))
