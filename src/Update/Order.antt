-- ===== src/Update/Order.antt =====
-- `newer` is the order of the version numbers.
use herdr_hive.Base.{
  ℕ, zero, suc, ◌+◌, ◌-◌, ◌*◌, ◌==◌, ◌≡◌, ◌≤◌, ◌<◌, refl, sym, subst, ◌∙◌, ap, Bool, true, not,
  some, List, [], ◌∷◌, map, ltb, if◌then◌else◌, Bytes, bytes_eq, bytes_eq_iff, bytes_eq→eq, length,
  arith, Bool-cases, inl, inr,
}
use native.Mathlib.Nat.{mul-le-mul_right, suc-mul}
use herdr_hive.Update.Version.{
  is_digit, all_digits, is_numeral, split, all_numerals, is_stable, cut, greater, newer_parts,
  newer,
}

abbrev pub power : ℕ → ℕ
power zero = 1
power (suc k) = 10 * power k

-- The number that a numeral writes.
unfoldable pub value : Bytes → ℕ
value [] = 0
value (d ∷ ds) = (d - b'0') * power (length ds) + value ds

times-lt : (d e p : ℕ) → d < e → d * p + p ≤ e * p
times-lt d e p h = omega (arith, mul-le-mul_right p h, suc-mul d p)

value-lt : (ds : Bytes) → all_digits ds ≡ true → value ds < power (length ds)
unfolding value all_digits is_digit
value-lt [] h = omega arith
value-lt (d ∷ ds) h =
    omega
      (arith, times-lt (d - b'0') 10 (power (length ds)) (ground arith), value-lt ds (ground arith))

power_pos : (k : ℕ) → 0 < power k
power_pos zero = omega arith
power_pos (suc k) = omega (arith, power_pos k)

power-le : (j k : ℕ) → j ≤ k → power j ≤ power k
power-le zero k h = power_pos k
power-le (suc j) zero h = omega arith
power-le (suc j) (suc k) h = omega (arith, power-le j k (omega arith))

head-lt : (d e p v w : ℕ) → d < e → v < p → d * p + v < e * p + w
head-lt d e p v w h k = omega (arith, times-lt d e p h)

-- The number of a text with a digit before it.
value-cons :
    (d : ℕ) (ds : Bytes) (k : ℕ) → length ds ≡ k → value (d ∷ ds) ≡ (d - b'0') * power k + value ds
unfolding value
value-cons d ds k e = ap (λ j. (d - b'0') * power j + value ds) e

value-lt_at : (ds : Bytes) (k : ℕ) → length ds ≡ k → all_digits ds ≡ true → value ds < power k
value-lt_at ds k e h = subst (λ j. value ds < power j) e (value-lt ds h)

-- Numerals of the same length are ordered as their texts.
value-lt_head :
    (x y : ℕ) (xs ys : Bytes)
    → all_digits (x ∷ xs) ≡ true
    → all_digits (y ∷ ys) ≡ true
    → length xs ≡ length ys
    → x < y
    → value (x ∷ xs) < value (y ∷ ys)
unfolding all_digits is_digit
value-lt_head x y xs ys h k l e = omega (
  arith,
  head-lt (x - b'0') (y - b'0') (power (length ys)) (value xs) (value ys) (ground arith)
      (value-lt_at xs (length ys) l (ground arith)),
  value-cons x xs (length ys) l,
  value-cons y ys (length ys) refl,
)

greater-value :
    (xs ys : Bytes)
    → all_digits xs ≡ true
    → all_digits ys ≡ true
    → length xs ≡ length ys
    → greater xs ys ≡ ltb (value ys) (value xs)
unfolding greater all_digits value
greater-value [] [] h k l = refl
greater-value [] (y ∷ ys) h k l = ground arith
greater-value (x ∷ xs) [] h k l = ground arith
greater-value (x ∷ xs) (y ∷ ys) h k l = ground (
  arith,
  greater-value xs ys,
  value-lt_head x y xs ys,
  value-lt_head y x ys xs,
  value-cons x xs (length ys),
  value-cons y ys (length ys),
)

value-injective :
    (xs ys : Bytes)
    → all_digits xs ≡ true
    → all_digits ys ≡ true
    → length xs ≡ length ys
    → value xs ≡ value ys
    → xs ≡ ys
unfolding all_digits value
value-injective [] [] h k l e = refl
value-injective [] (y ∷ ys) h k l e = absurd (omega (arith, l))
value-injective (x ∷ xs) [] h k l e = absurd (omega (arith, l))
value-injective (x ∷ xs) (y ∷ ys) h k l e = ground (
  arith,
  value-injective xs ys,
  value-lt_head x y xs ys,
  value-lt_head y x ys xs,
  value-cons x xs (length ys),
  value-cons y ys (length ys),
)

pub is_numeral-digits : (ds : Bytes) → is_numeral ds ≡ true → all_digits ds ≡ true
unfolding is_numeral all_digits is_digit
is_numeral-digits [] h = refl
is_numeral-digits (d ∷ ds) h = ground (arith, bytes_eq→eq ds [])

-- A numeral with more digits is the greater number, since none starts with a zero but zero itself.
value-lt_longer :
    (xs ys : Bytes)
    → is_numeral xs ≡ true
    → is_numeral ys ≡ true
    → length ys < length xs
    → value ys < value xs
unfolding is_numeral is_digit
value-lt_longer [] ys h k l = absurd (omega (arith, l))
value-lt_longer (x ∷ xs) [] h k l = cc
value-lt_longer (x ∷ xs) (y ∷ ys) h k l = elim (Bool-cases (x == b'0')) [
  | inl z ↦ absurd (omega (arith, l, ap length (bytes_eq→eq xs [] (rw z at h))))
  | inr z ↦ omega (
    arith,
    value-lt (y ∷ ys) (is_numeral-digits (y ∷ ys) k),
    power-le (length (y ∷ ys)) (length xs) (omega (arith, l)),
    times-lt 0 (x - b'0') (power (length xs)) (ground arith),
    value-cons x xs (length xs) refl,
  )
]

-- Versions as lists of numbers, the most significant first; equal ones are decided by `rest`.
unfoldable pub later : List ℕ → List ℕ → Bool → Bool
later [] ys rest = rest
later (x ∷ xs) [] rest = true
later (x ∷ xs) (y ∷ ys) rest = if x == y then later xs ys rest else ltb y x

newer_parts-later :
    (xs ys : List Bytes) (rest : Bool)
    → all_numerals xs ≡ true
    → all_numerals ys ≡ true
    → length xs ≡ length ys
    → newer_parts (length xs) xs ys rest ≡ some (later (map value xs) (map value ys) rest)
unfolding newer_parts later all_numerals
newer_parts-later [] ys rest h k l = refl
newer_parts-later (x ∷ xs) [] rest h k l = absurd (omega (arith, l))
newer_parts-later (x ∷ xs) (y ∷ ys) rest h k l = ground (
  arith,
  newer_parts-later xs ys rest,
  value-lt_longer x y,
  value-lt_longer y x,
  value-injective x y,
  greater-value x y,
  is_numeral-digits x,
  is_numeral-digits y,
  bytes_eq_iff x y,
)

-- The numbers of a version.
unfoldable pub numbers : Bytes → List ℕ
numbers s = map value (split b'.' s)

stable_parts :
    (s : Bytes)
    → is_stable s ≡ true
    → (length (split b'.' s) ≡ 3) × (all_numerals (split b'.' s) ≡ true)
unfolding is_stable
stable_parts s h = (ground arith, ground arith)

-- For a stable version and another one whose core is stable, `newer` compares the three numbers in
-- order, and of equal ones the release is newer than a prerelease.
pub newer-later :
    (a b : Bytes)
    → is_stable a ≡ true
    → is_stable (cut b'-' b).0 ≡ true
    → newer a b
      ≡ some (later (numbers a) (numbers (cut b'-' b).0) (not (bytes_eq (cut b'-' b).1 [])))
unfolding newer numbers
newer-later a b h k =
    let x = stable_parts a h in
    let y = stable_parts (cut b'-' b).0 k in
    rw k (
      subst
        (λ n.
          newer_parts n (split b'.' a) (split b'.' (cut b'-' b).0)
            (not (bytes_eq (cut b'-' b).1 []))
          ≡ some (later (numbers a) (numbers (cut b'-' b).0) (not (bytes_eq (cut b'-' b).1 []))))
        x.0
        (newer_parts-later (split b'.' a) (split b'.' (cut b'-' b).0)
          (not (bytes_eq (cut b'-' b).1 [])) x.1 y.1 (x.0 ∙ sym y.0)))
