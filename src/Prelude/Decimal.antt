-- ===== src/Prelude/Decimal.antt =====
-- A number is read back from its decimal form, so different numbers have different forms.
use Prim.Native.Char.{code}
use Prim.Native.Nat.{ℕ, zero, suc, ◌+◌, ◌-◌, ◌*◌, ◌/◌, ◌%◌, ◌≤◌, ◌<◌}
use Prim.Native.String.{String, [], ◌∷◌, char_at}
use vertxing.Prelude.{◌≡◌, ◌∙◌, refl, sym, ap, arith}
use vertxing.Prelude.Ascii.{digits, decimal}

-- The number that a text of digits stands for, after the digits already read.
unfoldable read : ℕ → String → ℕ
read acc [] = acc
read acc (c ∷ s) = read (acc * 10 + (code c - 48)) s

digit : (d : ℕ) → d < 10 → code (char_at "0123456789" d) - 48 ≡ d
digit zero h = refl
digit (suc zero) h = refl
digit (suc (suc zero)) h = refl
digit (suc (suc (suc zero))) h = refl
digit (suc (suc (suc (suc zero)))) h = refl
digit (suc (suc (suc (suc (suc zero))))) h = refl
digit (suc (suc (suc (suc (suc (suc zero)))))) h = refl
digit (suc (suc (suc (suc (suc (suc (suc zero))))))) h = refl
digit (suc (suc (suc (suc (suc (suc (suc (suc zero)))))))) h = refl
digit (suc (suc (suc (suc (suc (suc (suc (suc (suc zero))))))))) h = refl
digit (suc (suc (suc (suc (suc (suc (suc (suc (suc (suc n)))))))))) h = absurd (omega arith)

last_digit : (n : ℕ) → n / 10 * 10 + (code (char_at "0123456789" (n % 10)) - 48) ≡ n
last_digit n = rw (digit (n % 10) (omega arith)) (omega arith)

read-digits : (fuel n : ℕ) (out : String) → n ≤ fuel → read 0 (digits fuel n out) ≡ read n out
unfolding read digits
read-digits zero zero out h = refl
read-digits zero (suc n) out h = absurd (omega arith)
read-digits (suc fuel) zero out h = refl
read-digits (suc fuel) (suc n) out h =
    read-digits fuel (suc n / 10) (char_at "0123456789" (suc n % 10) ∷ out) (omega arith)
    ∙ ap (λ m. read m out) (last_digit (suc n))

read-decimal : (n : ℕ) → read 0 (decimal n) ≡ n
unfolding read decimal
read-decimal zero = refl
read-decimal (suc n) = read-digits (suc (suc n)) (suc n) [] (omega arith)

pub decimal-injective : (m n : ℕ) → decimal m ≡ decimal n → m ≡ n
decimal-injective m n e = sym (read-decimal m) ∙ ap (read 0) e ∙ read-decimal n
