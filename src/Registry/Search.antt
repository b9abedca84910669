-- ===== src/Registry/Search.antt =====
-- The search for a free name ends, and ends at one that no other owner has.
use herdr_hive.Base.{
  ℕ, zero, suc, ◌+◌, ◌≤◌, ◌<◌, ◌≡◌, ◌≢◌, refl, sym, ap, ◌∙◌, inl, inr, Bool, true, false, ◌||◌,
  none, some, List, [], ◌∷◌, ◌++◌, if◌then◌else◌, Bytes, bytes_eq, bytes_eq_iff, length,
  length-append, drop, drop-append, arith, Bool-cases, Option-cases, ap₂,
}
use native.Mathlib.Decide.{ℕ_discrete}
use herdr_hive.Base.Dict.{Dict}
use herdr_hive.Base.Decimal.{decimal, decimal-injective}
use herdr_hive.Registry.{is_used, suffixed, find_name}

-- The names in the order in which the loop tries them.
candidate : Bytes → ℕ → Bytes
candidate wanted zero = wanted
candidate wanted (suc i) = suffixed wanted (i + 2)

append_cancel : (xs ys zs : Bytes) → xs ++ ys ≡ xs ++ zs → ys ≡ zs
append_cancel xs ys zs h = sym (drop-append xs ys) ∙ ap (drop (length xs)) h ∙ drop-append xs zs

cons_cancel : (x : ℕ) (ys zs : Bytes) → x ∷ ys ≡ x ∷ zs → ys ≡ zs
cons_cancel x ys zs h = ap (drop 1) h

candidate-injective : (wanted : Bytes) (i j : ℕ) → candidate wanted i ≡ candidate wanted j → i ≡ j
unfolding candidate suffixed
candidate-injective wanted zero zero h = refl
candidate-injective wanted zero (suc j) h =
    absurd (omega (arith, ap length h, length-append wanted (b'-' ∷ decimal (j + 2))))
candidate-injective wanted (suc i) zero h =
    absurd (omega (arith, ap length h, length-append wanted (b'-' ∷ decimal (i + 2))))
candidate-injective wanted (suc i) (suc j) h =
    omega
      (arith, decimal-injective (i + 2) (j + 2) (cons_cancel b'-' _ _ (append_cancel wanted _ _ h)))

-- The names of the other owners.
others : Bytes → Dict Bytes → List Bytes
others owner [] = []
others owner ((k, v) ∷ names) =
    let rest = others owner names in if bytes_eq k owner then rest else v ∷ rest

has : Bytes → List Bytes → Bool
has x [] = false
has x (y ∷ ys) = bytes_eq y x || has x ys

remove : Bytes → List Bytes → List Bytes
remove x [] = []
remove x (y ∷ ys) = if bytes_eq y x then ys else y ∷ remove x ys

is_used-has :
    (owner name : Bytes) (names : Dict Bytes)
    → is_used owner name names ≡ has name (others owner names)
unfolding is_used has others
is_used-has owner name [] = refl
is_used-has owner name ((k, v) ∷ names) = ground (arith, is_used-has owner name names)

length-others-le : (owner : Bytes) (names : Dict Bytes) → length (others owner names) ≤ length names
unfolding others
length-others-le owner [] = omega arith
length-others-le owner ((k, v) ∷ names) = ground (arith, length-others-le owner names)

length-remove : (x : Bytes) (l : List Bytes) → has x l ≡ true → length l ≡ length (remove x l) + 1
unfolding has remove
length-remove x [] h = cc
length-remove x (y ∷ l) h = ground (arith, length-remove x l)

has-remove : (x y : Bytes) (l : List Bytes) → x ≢ y → has y l ≡ true → has y (remove x l) ≡ true
unfolding has remove
has-remove x y [] ne h = h
has-remove x y (z ∷ l) ne h = ground (arith, bytes_eq_iff z x, bytes_eq_iff z y, has-remove x y l)

-- The pigeonholes: distinct names that are all in a list are at most as many as its entries.
pigeonhole :
    (c : ℕ → Bytes)
    → ((i j : ℕ) → c i ≡ c j → i ≡ j)
    → (f a : ℕ) (l : List Bytes) → ((i : ℕ) → a ≤ i → i < a + f → has (c i) l ≡ true)
    → f ≤ length l
pigeonhole c inj zero a l h = omega arith
pigeonhole c inj (suc f) a l h = omega (
  arith,
  length-remove (c a) l (h a (omega arith) (omega arith)),
  pigeonhole c inj f (a + 1) (remove (c a) l) (λ i lo hi.
      has-remove (c a) (c i) l (λ e. absurd (omega (arith, inj a i e)))
        (h i (omega arith) (omega arith))),
)

next_candidate : (wanted : Bytes) (i : ℕ) → suffixed wanted (i + 2) ≡ candidate wanted (i + 1)
unfolding candidate
next_candidate wanted i = let e : i + 1 ≡ suc i = omega arith in rw e

find_used :
    (f : ℕ) (owner : Bytes) (names : Dict Bytes) (wanted : Bytes) (n : ℕ) (name : Bytes)
    → is_used owner name names ≡ true
    → find_name (suc f) owner names wanted n name
      ≡ find_name f owner names wanted (n + 1) (suffixed wanted n)
unfolding find_name
find_used f owner names wanted n name h = rw (h, find_name)

find_free :
    (f : ℕ) (owner : Bytes) (names : Dict Bytes) (wanted : Bytes) (n : ℕ) (name : Bytes)
    → is_used owner name names ≡ false
    → find_name (suc f) owner names wanted n name ≡ some name
unfolding find_name
find_free f owner names wanted n name h = rw (h, find_name)

module _ (owner : Bytes) (names : Dict Bytes) (wanted : Bytes) where
  deeper :
      (f i : ℕ)
      → is_used owner (candidate wanted i) names ≡ true
      → find_name (suc f) owner names wanted (i + 2) (candidate wanted i) ≡ none
      → find_name f owner names wanted (i + 1 + 2) (candidate wanted (i + 1)) ≡ none
  deeper f i used h =
      ap₂ (find_name f owner names wanted) (omega arith) (sym (next_candidate wanted i))
      ∙ sym (find_used f owner names wanted (i + 2) (candidate wanted i) used)
      ∙ h

  -- A search that runs out of fuel has found each candidate used.
  find_none :
      (f i : ℕ)
      → find_name f owner names wanted (i + 2) (candidate wanted i) ≡ none
      → (j : ℕ) → i ≤ j
      → j < i + f
      → is_used owner (candidate wanted j) names ≡ true
  find_none zero i h j lo hi = absurd (omega arith)
  find_none (suc f) i h j lo hi = elim (Bool-cases (is_used owner (candidate wanted i) names)) [
    | inr free ↦ absurd (cc (find_free f owner names wanted (i + 2) (candidate wanted i) free))
    | inl used ↦ elim (ℕ_discrete i j) [
      | yes here ↦ rw (← here) used
      | no later ↦ find_none f (i + 1) (deeper f i used h) j (omega arith) (omega arith)
    ]
  ]

  find_some :
      (f n : ℕ) (name got : Bytes)
      → find_name f owner names wanted n name ≡ some got
      → is_used owner got names ≡ false
  find_some zero n name got h = cc (found_zero n name)
    where
      found_zero : (n : ℕ) (name : Bytes) → find_name zero owner names wanted n name ≡ none
      found_zero n name = unfold find_name in refl
  find_some (suc f) n name got h = elim (Bool-cases (is_used owner name names)) [
    | inr free ↦ cc (free, find_free f owner names wanted n name free)
    | inl used ↦
        find_some f (n + 1) (suffixed wanted n) got
          (sym (find_used f owner names wanted n name used) ∙ h)
  ]

  -- The loop ends within one more round than there are names, at a name that no other owner has.
  pub find_name_total :
      (got : Bytes) × (find_name (length names + 1) owner names wanted 2 wanted ≡ some got)
      × (is_used owner got names ≡ false)
  find_name_total = elim (Option-cases (find_name (length names + 1) owner names wanted 2 wanted)) [
    | inr (got, e) ↦ (got, e, find_some (length names + 1) 2 wanted got e)
    | inl e ↦ absurd (
        omega (
          arith,
          length-others-le owner names,
          pigeonhole (candidate wanted) (candidate-injective wanted) (length names + 1) 0
              (others owner names)
              (λ j lo hi.
                sym (is_used-has owner (candidate wanted j) names)
                ∙ find_none (length names + 1) 0 (first e) j lo hi),
        ))
  ]
    where
      first :
          find_name (length names + 1) owner names wanted 2 wanted ≡ none
          → find_name (length names + 1) owner names wanted (0 + 2) (candidate wanted 0) ≡ none
      first e = unfold candidate in e

-- Two searches over maps in which the owner sees the same names used end alike, whatever their fuel.
pub find_agree :
    (owner : Bytes) (m m' : Dict Bytes) (wanted : Bytes)
    → ((x : Bytes) → is_used owner x m ≡ is_used owner x m')
    → (f g n : ℕ) (name a b : Bytes) → find_name f owner m wanted n name ≡ some a
    → find_name g owner m' wanted n name ≡ some b
    → a ≡ b
find_agree owner m m' wanted alike zero g n name a b h k = cc (no_fuel m n name)
  where
    no_fuel : (l : Dict Bytes) (n : ℕ) (name : Bytes) → find_name zero owner l wanted n name ≡ none
    no_fuel l n name = unfold find_name in refl
find_agree owner m m' wanted alike (suc f) zero n name a b h k = cc (no_fuel m' n name)
  where
    no_fuel : (l : Dict Bytes) (n : ℕ) (name : Bytes) → find_name zero owner l wanted n name ≡ none
    no_fuel l n name = unfold find_name in refl
find_agree owner m m' wanted alike (suc f) (suc g) n name a b h k =
    elim (Bool-cases (is_used owner name m)) [
      | inr free ↦ cc (
        find_free f owner m wanted n name free,
        find_free g owner m' wanted n name (sym (alike name) ∙ free),
      )
      | inl used ↦
          find_agree owner m m' wanted alike f g (n + 1) (suffixed wanted n) a b
            (sym (find_used f owner m wanted n name used) ∙ h)
            (sym (find_used g owner m' wanted n name (sym (alike name) ∙ used)) ∙ k)
    ]
