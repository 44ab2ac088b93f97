-- ===== src/Roles/Keys.antt =====
-- The loop that looks for a free key ends: uniqueKey of
-- apps/api/src/modules/roles/roles.service.ts.
use Prim.Native.String.{◌++◌ as cat, count}
use text.Mathlib.TextLemmas.{append_cancel_left, length-append}
use vertxing.Prelude.{
  ℕ, zero, suc, ◌≤◌, ◌<◌, ◌≡◌, ◌≢◌, ◌∙◌, refl, sym, ap, String, true, Option, none, some, List, [],
  ◌∷◌, ◌==◌, arith, eq_iff, if◌then◌else◌, is_some, length, Bool-cases, Option-cases, inl, inr,
}
use vertxing.Prelude.Ascii.{decimal}
use vertxing.Prelude.Decimal.{decimal-injective}
use vertxing.Roles.Store.{Role, find_by_key, free_key, base_key, unique_key}

-- The keys that the loop tries after the first.
abbrev candidate : String → ℕ → String
candidate base n = cat base (cat "-" (decimal n))

candidate-injective : (base : String) (m n : ℕ) → candidate base m ≡ candidate base n → m ≡ n
candidate-injective base m n e =
    decimal-injective m n (append_cancel_left "-" _ _ (append_cancel_left base _ _ e))

candidate-ne-base : (base : String) (n : ℕ) → candidate base n ≢ base
candidate-ne-base base n e =
    let whole = length-append base (cat "-" (decimal n)) in
    let tail = length-append "-" (decimal n) in
    let h : count (candidate base n) ≡ count base = ap count e in omega (arith, whole, tail, h)

-- The roles whose key is another.
unfoldable drop_key : String → List Role → List Role
drop_key k [] = []
drop_key k (r ∷ rs) = let rest = drop_key k rs in if r.key == k then rest else r ∷ rest

find_by_key-drop_key :
    (k j : String) (rs : List Role) → k ≢ j → find_by_key j (drop_key k rs) ≡ find_by_key j rs
unfolding find_by_key drop_key
find_by_key-drop_key k j [] n = refl
find_by_key-drop_key k j (r ∷ rs) n =
    ground (arith, find_by_key-drop_key k j rs n, eq_iff r.key k, eq_iff r.key j)

drop_key_le : (k : String) (rs : List Role) → length (drop_key k rs) ≤ length rs
unfolding drop_key
drop_key_le k [] = omega arith
drop_key_le k (r ∷ rs) = ground (arith, drop_key_le k rs)

length-drop_key :
    (k : String) (rs : List Role)
    → is_some (find_by_key k rs) ≡ true
    → suc (length (drop_key k rs)) ≤ length rs
unfolding find_by_key drop_key
length-drop_key k [] h = absurd (cc h)
length-drop_key k (r ∷ rs) h = ground (arith, length-drop_key k rs, drop_key_le k rs)

lt_irrefl : (n m : ℕ) → suc n ≤ m → n ≢ m
lt_irrefl n m q e = omega arith

-- A key that the loop does not try again may be left out of the table.
free_key-drop_key :
    (fuel : ℕ) (base : String) (n : ℕ) (key k : String) (rs : List Role)
    → k ≢ key
    → ((m : ℕ) → n ≤ m → k ≢ candidate base m)
    → free_key fuel base n key (drop_key k rs) ≡ free_key fuel base n key rs
unfolding free_key
free_key-drop_key zero base n key k rs h hs = refl
free_key-drop_key (suc fuel) base n key k rs h hs =
    let rest =
      free_key-drop_key fuel base (suc n) (candidate base n) k rs (hs n (omega arith))
        (λ m l. hs m (omega (arith, l))) in
    ap
      (λ o.
        if is_some o
        then free_key fuel base (suc n) (candidate base n) (drop_key k rs)
        else some key)
      (find_by_key-drop_key k key rs h)
    ∙ ap (λ o. if is_some (find_by_key key rs) then o else some key) rest

-- With more rounds than there are roles, the loop finds a key.
free_key-found :
    (fuel : ℕ) (base : String) (n : ℕ) (key : String) (rs : List Role)
    → length rs < fuel
    → ((m : ℕ) → n ≤ m → key ≢ candidate base m)
    → is_some (free_key fuel base n key rs) ≡ true
unfolding free_key
free_key-found zero base n key rs l hs = absurd (omega arith)
free_key-found (suc fuel) base n key rs l hs = elim (Bool-cases (is_some (find_by_key key rs))) [
  | inr e ↦
      ap (λ b. is_some (if b then free_key fuel base (suc n) (candidate base n) rs else some key)) e
  | inl e ↦
      let shorter = length-drop_key key rs e in
      let distinct = λ (m : ℕ) (q : suc n ≤ m) (p : candidate base n ≡ candidate base m).
        absurd (lt_irrefl n m q (candidate-injective base n m p)) in
      ap (λ b. is_some (if b then free_key fuel base (suc n) (candidate base n) rs else some key)) e
      ∙ ap is_some (
          sym (
            free_key-drop_key fuel base (suc n) (candidate base n) key rs (hs n (omega arith))
              (λ m q. hs m (omega (arith, q)))))
      ∙ free_key-found fuel base (suc n) (candidate base n) (drop_key key rs)
          (omega (arith, shorter)) distinct
]

-- What the loop finds is free.
free_key-free :
    (fuel : ℕ) (base : String) (n : ℕ) (key k : String) (rs : List Role)
    → free_key fuel base n key rs ≡ some k
    → find_by_key k rs ≡ none
unfolding free_key
free_key-free zero base n key k rs h = absurd (cc h)
free_key-free (suc fuel) base n key k rs h =
    ground (arith, free_key-free fuel base (suc n) (candidate base n) k rs)

no_none : {A : Type 0} (o : Option A) → o ≡ none → is_some o ≡ true → ⊥
no_none none e h = cc h
no_none (some a) e h = cc e

-- A key is always found, after at most one round for each role and one more, and no role has it.
pub unique_key_found :
    (name : String) (rs : List Role)
    → (key : String) × (unique_key name rs ≡ some key) × (find_by_key key rs ≡ none)
unfolding unique_key
unique_key_found name rs =
    let base = base_key name in
    let f = free_key (suc (length rs)) base 2 base rs in
    elim (Option-cases f) [
      | inl e ↦ absurd (
          no_none f e (
            free_key-found (suc (length rs)) base 2 base rs (omega arith)
              (λ m q p. candidate-ne-base base m (sym p))))
      | inr (k, e) ↦ (k, e, free_key-free (suc (length rs)) base 2 base k rs e)
    ]
