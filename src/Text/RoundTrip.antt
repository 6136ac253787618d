-- ===== src/Text/RoundTrip.antt =====
-- Decimal printing is read back, and so is injective.
use Prim.Native.Char.{code}
use Prim.Native.String.{[], ◌∷◌}
use text.Mathlib.TextLemmas.{append_cancel_left}
use iapetos.Prelude.{
  ℕ, zero, suc, ◌+◌, ◌-◌, ◌*◌, ◌/◌, ◌%◌, ◌≤◌, ◌<◌, String, ◌≡◌, refl, ap, sym, ◌∙◌, some, arith,
  ltb, Bool-cases, inl, inr,
}
use iapetos.Prelude.Int.{pos}
use iapetos.Text.{
  max_u64, max_int, digit_char, emit, itoa_ℕ, itoa, dashed, scan, unsigned, positive, atoi,
}

code-digit_char : (d : ℕ) → d < 10 → code (digit_char d) ≡ 48 + d
unfolding digit_char
code-digit_char zero h = refl
code-digit_char (suc zero) h = refl
code-digit_char (suc (suc zero)) h = refl
code-digit_char (suc (suc (suc zero))) h = refl
code-digit_char (suc (suc (suc (suc zero)))) h = refl
code-digit_char (suc (suc (suc (suc (suc zero))))) h = refl
code-digit_char (suc (suc (suc (suc (suc (suc zero)))))) h = refl
code-digit_char (suc (suc (suc (suc (suc (suc (suc zero))))))) h = refl
code-digit_char (suc (suc (suc (suc (suc (suc (suc (suc zero)))))))) h = refl
code-digit_char (suc (suc (suc (suc (suc (suc (suc (suc (suc zero))))))))) h = refl
code-digit_char (suc (suc (suc (suc (suc (suc (suc (suc (suc (suc d)))))))))) h =
    absurd (omega arith)

scan_digit :
    (d n : ℕ) (out : String)
    → d < 10
    → n * 10 + d ≤ max_u64
    → scan (digit_char d ∷ out) n ≡ scan out (n * 10 + d)
unfolding scan
scan_digit d n out h fits = ground (arith, code-digit_char d h)

scan-emit : (f n : ℕ) (out : String) → n < f → n ≤ max_u64 → scan (emit f n out) 0 ≡ scan out n
unfolding emit
scan-emit zero n out h fits = absurd (omega arith)
scan-emit (suc f) n out h fits = ground (
  arith,
  scan_digit n 0 out,
  scan_digit (n % 10) (n / 10) out,
  scan-emit f (n / 10) (digit_char (n % 10) ∷ out),
)

-- The print starts with a digit, so not with a sign.
emit_digit_first :
    (f n : ℕ) (out : String)
    → n < f
    → (d : ℕ) × (s : String) × (d < 10) × (emit f n out ≡ digit_char d ∷ s)
unfolding emit
emit_digit_first zero n out h = absurd (omega arith)
emit_digit_first (suc f) n out h = elim (Bool-cases (ltb n 10)) [
  | inl small ↦ (n, out, ground arith, rw small)
  | inr large ↦ rw large (emit_digit_first f (n / 10) (digit_char (n % 10) ∷ out) (ground arith))
]

itoa_ℕ_digit_first : (n : ℕ) → (d : ℕ) × (s : String) × (d < 10) × (itoa_ℕ n ≡ digit_char d ∷ s)
unfolding itoa_ℕ
itoa_ℕ_digit_first n = emit_digit_first (suc n) n [] (omega arith)

scan-itoa_ℕ : (n : ℕ) → n ≤ max_u64 → scan (itoa_ℕ n) 0 ≡ some n
unfolding itoa_ℕ scan
scan-itoa_ℕ n fits = scan-emit (suc n) n [] (omega arith) fits

unsigned_digit_first :
    (t : String) (d : ℕ) (s : String) → t ≡ digit_char d ∷ s → unsigned t ≡ scan t 0
unfolding unsigned
unsigned_digit_first t d s e = rw e

unsigned-itoa_ℕ : (n : ℕ) → n ≤ max_u64 → unsigned (itoa_ℕ n) ≡ some n
unsigned-itoa_ℕ n fits =
    let (d, s, small, e) = itoa_ℕ_digit_first n in
    unsigned_digit_first (itoa_ℕ n) d s e ∙ scan-itoa_ℕ n fits

atoi_digit_first :
    (t : String) (d : ℕ) (s : String)
    → d < 10
    → t ≡ digit_char d ∷ s
    → atoi t ≡ positive (unsigned t)
unfolding atoi
atoi_digit_first t d s h e = rw e (ground (arith, code-digit_char d h))

-- Every `int` that is not negative is read back from its decimal print.
pub atoi-itoa_pos : (n : ℕ) → n ≤ max_int → atoi (itoa (pos n)) ≡ pos n
unfolding itoa positive
atoi-itoa_pos n fits =
    let (d, s, small, e) = itoa_ℕ_digit_first n in
    ground (arith, atoi_digit_first (itoa_ℕ n) d s small e, unsigned-itoa_ℕ n (omega arith))

-- The value of a row of digits, without a bound.
value : String → ℕ → ℕ
value [] n = n
value (c ∷ s) n = value s (n * 10 + (code c - 48))

value-emit : (f n : ℕ) (out : String) → n < f → value (emit f n out) 0 ≡ value out n
unfolding emit value
value-emit zero n out h = absurd (omega arith)
value-emit (suc f) n out h = elim (Bool-cases (ltb n 10)) [
  | inl small ↦ rw small (ap (value out) (omega (arith, code-digit_char n (ground arith))))
  | inr large ↦ rw large (
      value-emit f (n / 10) (digit_char (n % 10) ∷ out) (ground arith)
      ∙ ap (value out) (omega (arith, code-digit_char (n % 10) (omega arith))))
]

value-itoa_ℕ : (n : ℕ) → value (itoa_ℕ n) 0 ≡ n
unfolding itoa_ℕ value
value-itoa_ℕ n = value-emit (suc n) n [] (omega arith)

-- Two numbers that print alike are one.
pub itoa_injective : (m n : ℕ) → itoa (pos m) ≡ itoa (pos n) → m ≡ n
unfolding itoa
itoa_injective m n e = sym (value-itoa_ℕ m) ∙ ap (λ s. value s 0) e ∙ value-itoa_ℕ n

-- A common prefix of two names can be taken off.
pub dashed_cancel : (a s t : String) → dashed a s ≡ dashed a t → s ≡ t
dashed_cancel a s t e = append_cancel_left "-" _ _ (append_cancel_left a _ _ e)
