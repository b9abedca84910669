-- ===== src/Update/Version.antt =====
-- Stable versions and their order: `stable` and `newer`, internal/update/update.go, 31 and 112-127.
use herdr_hive.Base.{
  ℕ, zero, suc, ◌==◌, Bool, true, false, ◌&&◌, not, Option, none, some, List, [], ◌∷◌, ltb, leb,
  if◌then◌else◌, Bytes, bytes_eq, length,
}

unfoldable pub is_digit : ℕ → Bool
is_digit b = leb b'0' b && leb b b'9'

unfoldable pub all_digits : Bytes → Bool
all_digits [] = true
all_digits (b ∷ bs) = is_digit b && all_digits bs

-- `0|[1-9][0-9]*`
unfoldable pub is_numeral : Bytes → Bool
is_numeral [] = false
is_numeral (b ∷ bs) = if b == b'0' then bytes_eq bs [] else is_digit b && all_digits bs

-- `strings.Split(s, sep)` for a separator of one byte.
unfoldable pub prepend : ℕ → List Bytes → List Bytes
prepend b [] = (b ∷ []) ∷ []
prepend b (p ∷ ps) = (b ∷ p) ∷ ps

unfoldable pub split : ℕ → Bytes → List Bytes
split sep [] = [] ∷ []
split sep (b ∷ bs) = if b == sep then [] ∷ split sep bs else prepend b (split sep bs)

unfoldable pub all_numerals : List Bytes → Bool
all_numerals [] = true
all_numerals (p ∷ ps) = is_numeral p && all_numerals ps

-- `stable.MatchString`
unfoldable pub is_stable : Bytes → Bool
is_stable s = length (split b'.' s) == 3 && all_numerals (split b'.' s)

-- `strings.Cut(s, "-")`: what stands before the first dash, and what after it.
unfoldable pub cut : ℕ → Bytes → Bytes × Bytes
cut sep [] = ([], [])
cut sep (b ∷ bs) = if b == sep then ([], bs) else let r = cut sep bs in (b ∷ r.0, r.1)

-- `>` on strings
unfoldable pub greater : Bytes → Bytes → Bool
greater [] ys = false
greater (x ∷ xs) [] = true
greater (x ∷ xs) (y ∷ ys) = if x == y then greater xs ys else ltb y x

-- The loop of `newer` over the three parts; `none` is an index out of range.
unfoldable pub newer_parts : ℕ → List Bytes → List Bytes → Bool → Option Bool
newer_parts zero xs ys rest = some rest
newer_parts (suc n) [] ys rest = none
newer_parts (suc n) (a ∷ xs) [] rest = none
newer_parts (suc n) (a ∷ xs) (b ∷ ys) rest =
    if not (length a == length b)
    then some (ltb (length b) (length a))
    else if not (bytes_eq a b)
    then some (greater a b)
    else newer_parts n xs ys rest

-- `newer`
unfoldable pub newer : Bytes → Bytes → Option Bool
newer a b =
    let core = cut b'-' b in
    if not (is_stable core.0)
    then some true
    else newer_parts 3 (split b'.' a) (split b'.' core.0) (not (bytes_eq core.1 []))
