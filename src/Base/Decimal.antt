-- ===== src/Base/Decimal.antt =====
-- `%d` of `fmt` at a number that is not negative.
use Prim.Native.Nat.{ℕ, zero, suc, ◌+◌, ◌-◌, ◌*◌, ◌/◌, ◌%◌, ◌<◌}
use mathlib.Core.Path.{◌≡◌, refl, sym, ap, ◌∙◌}
use mathlib.Core.Logic.{inl, inr}
use mathlib.Core.List.{[], ◌∷◌, reverse, reverse-reverse}
use native.Mathlib.Omega.{arith}
use herdr_hive.Base.Tests.{ltb, if◌then◌else◌, Bool-cases, ltb→lt, ltb→le}
use herdr_hive.Base.Binary.{Bytes}

-- The digits, the last one first.
digits_back : ℕ → ℕ → Bytes
digits_back zero n = []
digits_back (suc f) n =
    let more = digits_back f (n / 10) in (48 + n % 10) ∷ (if ltb n 10 then [] else more)

unfoldable pub decimal : ℕ → Bytes
unfolding digits_back
decimal n = reverse (digits_back (n + 1) n)

value_back : Bytes → ℕ
value_back [] = 0
value_back (d ∷ ds) = (d - 48) + 10 * value_back ds

value_back-digits_back : (f n : ℕ) → n < f → value_back (digits_back f n) ≡ n
unfolding value_back digits_back
value_back-digits_back zero n h = elim h [ ]
value_back-digits_back (suc f) n h = elim (Bool-cases (ltb n 10)) [
  | inl small ↦ rw small (omega (arith, ltb→lt n 10 small))
  | inr big ↦ rw big (
      omega (
        arith,
        ltb→le n 10 big,
        value_back-digits_back f (n / 10) (omega (arith, ltb→le n 10 big)),
      ))
]

pub decimal-injective : (m n : ℕ) → decimal m ≡ decimal n → m ≡ n
unfolding decimal
decimal-injective m n h =
    let e = sym (reverse-reverse _) ∙ ap reverse h ∙ reverse-reverse _ in
    sym (value_back-digits_back (m + 1) m (omega arith))
    ∙ ap value_back e
    ∙ value_back-digits_back (n + 1) n (omega arith)

decimal_42 : decimal 42 ≡ b'4' ∷ b'2' ∷ []
unfolding decimal
decimal_42 = refl
