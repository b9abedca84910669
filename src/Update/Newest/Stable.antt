-- ===== src/Update/Newest/Stable.antt =====
-- Stable versions have no dash, and the order of versions is one.
use herdr_hive.Base.{
  ℕ, ◌==◌, ◌≡◌, refl, sym, subst, inl, inr, Bool, true, false, ◌&&◌, not, some, List, [], ◌∷◌,
  Bytes, bytes_eq, arith, Bool-cases,
}
use herdr_hive.Update.Version.{
  is_digit, all_digits, is_numeral, prepend, split, all_numerals, is_stable, cut, newer,
}
use herdr_hive.Update.Order.{later, numbers, newer-later, is_numeral-digits}

pub parts_digits : List Bytes → Bool
parts_digits [] = true
parts_digits (p ∷ ps) = all_digits p && parts_digits ps

pub all_numerals-digits : (ps : List Bytes) → all_numerals ps ≡ true → parts_digits ps ≡ true
unfolding all_numerals parts_digits
all_numerals-digits [] h = refl
all_numerals-digits (p ∷ ps) h = ground (arith, is_numeral-digits p, all_numerals-digits ps)

pub prepend-digits :
    (b : ℕ) (ps : List Bytes)
    → parts_digits (prepend b ps) ≡ true
    → (is_digit b ≡ true) × (parts_digits ps ≡ true)
unfolding prepend parts_digits all_digits
prepend-digits b [] h = (ground arith, refl)
prepend-digits b (p ∷ ps) h = (ground arith, ground arith)

pub cut-cons :
    (b : ℕ) (bs : Bytes)
    → (b == b'-') ≡ false
    → cut b'-' bs ≡ (bs, [])
    → cut b'-' (b ∷ bs) ≡ (b ∷ bs, [])
unfolding cut
cut-cons b bs x e = ground (arith)

pub digit_dash : (b : ℕ) → is_digit b ≡ true → (b == b'-') ≡ false
unfolding is_digit
digit_dash b h = ground arith

-- A text of digits and dots has no dash.
pub cut-digits : (s : Bytes) → parts_digits (split b'.' s) ≡ true → cut b'-' s ≡ (s, [])
unfolding cut split parts_digits is_digit all_digits
cut-digits [] h = refl
cut-digits (b ∷ bs) h = elim (Bool-cases (b == b'.')) [
  | inl x ↦ cut-cons b bs (ground arith) (cut-digits bs (ground arith))
  | inr x ↦
      let d = prepend-digits b (split b'.' bs) (rw x at h) in
      cut-cons b bs (digit_dash b d.0) (cut-digits bs d.1)
]

pub cut_stable : (s : Bytes) → is_stable s ≡ true → cut b'-' s ≡ (s, [])
unfolding is_stable
cut_stable s h = cut-digits s (all_numerals-digits (split b'.' s) (ground arith))

pub newer_stable :
    (a b : Bytes)
    → is_stable a ≡ true
    → is_stable b ≡ true
    → newer a b ≡ some (later (numbers a) (numbers b) false)
newer_stable a b h k =
    subst
      (λ (c : Bytes × Bytes).
        newer a b ≡ some (later (numbers a) (numbers c.0) (not (bytes_eq c.1 []))))
      (cut_stable b k)
      (newer-later a b h
        (subst (λ (c : Bytes × Bytes). is_stable c.0 ≡ true) (sym (cut_stable b k)) k))

pub newer_first : (a : Bytes) → newer a [] ≡ some true
unfolding newer is_stable split cut all_numerals is_numeral
newer_first a = refl

pub newer_first_at : (a b : Bytes) → b ≡ [] → newer a b ≡ some true
newer_first_at a b e = subst (λ c. newer a c ≡ some true) (sym e) (newer_first a)

pub not_stable : (b : Bytes) → b ≡ [] → is_stable b ≡ true → ⊥
unfolding is_stable split all_numerals
not_stable b e f = false_true (subst (λ c. is_stable c ≡ true) e f)
  where
    false_true : is_stable [] ≡ true → ⊥
    false_true g = cc

pub later_irrefl : (x : List ℕ) → later x x false ≡ false
unfolding later
later_irrefl [] = refl
later_irrefl (a ∷ x) = ground (arith, later_irrefl x)

-- What is not newer than one version is not newer than a newer one.
pub later_trans :
    (w b v : List ℕ) → later w b false ≡ false → later v b false ≡ true → later w v false ≡ false
unfolding later
later_trans [] b v h k = refl
later_trans (x ∷ w) [] v h k = cc
later_trans (x ∷ w) (y ∷ b) [] h k = cc
later_trans (x ∷ w) (y ∷ b) (z ∷ v) h k = ground (arith, later_trans w b v)
