-- ===== src/Keys.antt =====
-- Redis keys are template strings: a literal tag and then an id.
use Prim.Native.String.{String, compare, ◌++◌, count, then}
use Prim.Native.String.compare
use Prim.Native.Char.{code}
use Prim.Native.Nat.{ℕ, Ordering, compare as compare_ℕ}
use text.Mathlib.TextLemmas.{append_assoc, append_inj}
use text.Mathlib.TextEquality.{path_by_compare}
use vertxing.Prelude.{◌≡◌, ◌≢◌, refl, false, ◌==◌, eq_iff, arith, ◌∙◌}

-- Keys whose tags differ in their first characters differ.
pub tag_ne : (p q r a b : String) → count p ≡ count q → (p == q) ≡ false → p ++ a ≢ (q ++ r) ++ b
tag_ne p q r a b n d e =
    let h : p ≡ q = (append_inj (e ∙ append_assoc q r b) n).0 in ground (arith, eq_iff p q)

-- `[a, b].sort()`. JavaScript compares UTF-16 code units, and `compare` code points: the two agree
-- on ids, which are ASCII.
unfoldable pub sort_pair : String → String → String × String
sort_pair a b = elim (compare a b) [ Ordering.gt ↦ (b, a) | _ ↦ (a, b) ]

abbrev flip : Ordering → Ordering
flip Ordering.lt = Ordering.gt
flip Ordering.eq = Ordering.eq
flip Ordering.gt = Ordering.lt

flip-then : (o r : Ordering) → then (flip o) (flip r) ≡ flip (then o r)
flip-then Ordering.lt r = refl
flip-then Ordering.eq r = refl
flip-then Ordering.gt r = refl

compare_flip_ℕ : (m n : ℕ) → compare_ℕ n m ≡ flip (compare_ℕ m n)
compare_flip_ℕ m n = ground arith

compare-flip : (s t : String) → compare t s ≡ flip (compare s t)
compare-flip String.[] String.[] = refl
compare-flip String.[] (String.◌∷◌ c t) = rw (compare.cons-nil c t, compare.nil-cons c t)
compare-flip (String.◌∷◌ c s) String.[] = rw (compare.cons-nil c s, compare.nil-cons c s)
compare-flip (String.◌∷◌ c s) (String.◌∷◌ d t) = rw (
  compare.cons-cons c d s t,
  compare.cons-cons d c t s,
  compare-flip s t,
  compare_flip_ℕ (code c) (code d),
  flip-then,
)

-- The order of the arguments does not matter.
pub sort_pair_comm : (a b : String) → sort_pair a b ≡ sort_pair b a
unfolding sort_pair
sort_pair_comm a b = ground (arith, compare-flip a b, path_by_compare a b)
