-- ===== src/Wire/Decoder.antt =====
-- The decoder of hive/internal/gateway/wire.go, lines 67 to 183.
-- `d.b` and `d.p` are kept as what is left to read, `d.b[d.p:]`.
pub mod Numbers
pub mod Echo
pub mod Loops
pub mod Limits
pub mod Reads
use herdr_hive.Base.{
  ℕ, zero, suc, ◌-◌, ◌≡◌, refl, Bool, true, false, ◌||◌, List, [], ◌∷◌, ◌++◌, ltb, ◌==◌,
  if◌then◌else◌, Bytes, get_le, length, take, drop,
}
use herdr_hive.Wire.Encode.{max_frame, number, str}

pub record Decoder : Type 0 where
  pub rest : Bytes
  pub out : Bytes
  pub failed : Bool

-- `decoder{b: b}`
abbrev pub decoder : Bytes → Decoder
decoder b = record { rest = b; out = []; failed = false }

abbrev pub M : Type 0 → Type 0
M A = Decoder → A × Decoder

infixl 5 ◌>>=◌ ◌>>◌
unfoldable pub ◌>>=◌ : {A B : Type 0} → M A → (A → M B) → M B
◌>>=◌ m f d = let r = m d in f r.0 r.1

unfoldable pub ◌>>◌ : {A B : Type 0} → M A → M B → M B
◌>>◌ m k d = k (m d).1

unfoldable pub pure : {A : Type 0} → A → M A
pure a d = (a, d)

-- A read whose value is dropped.
unfoldable pub skip : {A : Type 0} → M A → M (Unit {0})
skip m d = (tt, (m d).1)

-- `d.err = errWire`
unfoldable pub fail : {A : Type 0} → A → M A
fail a d = (a, record d { failed = true })

-- `if bad { d.err = errWire }`
unfoldable pub fail_if : Bool → M (Unit {0})
fail_if bad d = (tt, record d { failed = bad || d.failed })

-- `raw`; a count is never negative here.
unfoldable pub raw : ℕ → M Bytes
raw n d =
    if ltb (length d.rest) n
    then ([], record d { failed = true })
    else (take n d.rest, record d { rest = drop n d.rest; out = d.out ++ take n d.rest })

-- A number of `k` bytes behind its tag.
unfoldable pub fixed : ℕ → M ℕ
fixed k = do b ← raw k; pure (if length b == k then get_le b else 0)

unfoldable pub num_tag : Bytes → M ℕ
unfolding fixed
num_tag [] = pure 0
num_tag (b ∷ _) =
    if b == 251
    then fixed 2
    else if b == 252
    then fixed 4
    else if b == 253
    then fixed 8
    else if b == 254 || b == 255
    then fail 0
    else pure b

-- `num`
unfoldable pub num : M ℕ
unfolding num_tag
num = do b ← raw 1; num_tag b

text_body : ℕ → M Bytes
text_body n = if ltb max_frame n then fail [] else raw n

-- `text`
unfoldable pub text : M Bytes
unfolding text_body
text = do n ← num; text_body n

-- `replaceText`
unfoldable pub replace_text : (Bytes → Bytes) → M Bytes
replace_text f d = let r = text d in (r.0, record r.1 { out = d.out ++ str (f r.0) })

-- `replaceNum`
unfoldable pub replace_num : ℕ → M ℕ
replace_num v d = let r = num d in (r.0, record r.1 { out = d.out ++ number v })

-- The loop of `many`, with the variables `S` that the closure changes.
unfoldable pub repeat : {S : Type 0} → ℕ → (S → M S) → S → M S
repeat zero fn s d = (s, d)
repeat (suc n) fn s d = elim d.failed [ true ↦ (s, d) | false ↦ repeat n fn (fn s d).0 (fn s d).1 ]

pub many_body : {S : Type 0} → (S → M S) → S → ℕ → M S
many_body fn s n d =
    if ltb max_frame n || ltb (length d.rest) n
    then (s, record d { failed = true })
    else repeat n fn s d

-- `many`
unfoldable pub many_with : {S : Type 0} → (S → M S) → S → M S
unfolding many_body
many_with fn s = do n ← num; many_body fn s n

unfoldable pub many : M (Unit {0}) → M (Unit {0})
many fn = many_with (λ _. fn) tt

option_tag : M (Unit {0}) → Bytes → M (Unit {0})
option_tag fn [] = pure tt
option_tag fn (v ∷ _) = if v == 1 then fn else if v == 0 then pure tt else fail tt

-- `option`
unfoldable pub option : M (Unit {0}) → M (Unit {0})
unfolding option_tag
option fn = do v ← raw 1; option_tag fn v

-- `enum`
unfoldable pub enum : ℕ → M (Unit {0})
enum max = do v ← num; fail_if (ltb max v)

-- `nums`
unfoldable pub nums : ℕ → M (Unit {0})
nums zero = pure tt
nums (suc n) = do num; nums n
