-- ===== src/Wire/Decoder/Reads.antt =====
-- What a read consumes, that an error is never taken back, and the range of what is read.
use herdr_hive.Base.{
  ℕ, zero, suc, ◌≤◌, ◌<◌, ◌≡◌, refl, sym, ap, inl, inr, ◌∙◌, Bool, true, false, ◌||◌, [], ◌∷◌, ◌++◌,
  ltb, ◌==◌, if◌then◌else◌, Bytes, IsBytes, length, take, append-nil, append_assoc, length-take,
  take-append-drop, get_le-lt, le_limit, arith, Bool-cases,
}
use herdr_hive.Wire.Encode.{max_frame}
use herdr_hive.Wire.Decoder.{
  Decoder, M, ◌>>=◌, pure, fail, raw, fixed, num_tag, num, text_body, text, repeat, many_body,
  many_with,
}
use herdr_hive.Wire.Decoder.Numbers.{at}
use herdr_hive.Wire.Decoder.Echo.{Echoes, num-Echoes}

-- Some bytes leave the input, and those are the bytes that join the output.
pub record Eaten (d e : Decoder) : Type 0 where
  pub eaten : Bytes
  pub from : d.rest ≡ eaten ++ e.rest
  pub into : e.out ≡ d.out ++ eaten

abbrev pub Consumes : {A : Type 0} → M A → Type 0
Consumes m = (d : Decoder) → Eaten d (m d).1

Eaten-stay : (d : Decoder) (f : Bool) → Eaten d (at d.rest d.out f)
Eaten-stay d f = record { eaten = []; from = refl; into = sym (append-nil d.out) }

pub bind-Consumes :
    {A B : Type 0} (m : M A) (f : A → M B)
    → Consumes m
    → ((a : A) → Consumes (f a))
    → Consumes (m >>= f)
unfolding ◌>>=◌
bind-Consumes m f e g d =
    let s = e d in
    let t = g (m d).0 (m d).1 in
    record {
      eaten = s.eaten ++ t.eaten;
      from = s.from ∙ rw (append_assoc) (ap (λ x. s.eaten ++ x) t.from);
      into = t.into ∙ rw (s.into, append_assoc);
    }

if-Consumes :
    {A : Type 0} (m n : M A) (b : Bool) → Consumes m → Consumes n → Consumes (if b then m else n)
if-Consumes m n true e g = e
if-Consumes m n false e g = g

pub pure-Consumes : {A : Type 0} (a : A) → Consumes (pure a)
unfolding pure
pure-Consumes a d = Eaten-stay d d.failed

fail-Consumes : {A : Type 0} (a : A) → Consumes (fail a)
unfolding fail
fail-Consumes a d = Eaten-stay d true

raw-Consumes : (n : ℕ) → Consumes (raw n)
unfolding raw
raw-Consumes n d = elim (Bool-cases (ltb (length d.rest) n)) [
  | inl short ↦ rw short (Eaten-stay d true)
  | inr fits ↦
      rw fits
        (record { eaten = take n d.rest; from = sym (take-append-drop n d.rest); into = refl })
]

fixed-Consumes : (k : ℕ) → Consumes (fixed k)
unfolding fixed
fixed-Consumes k = bind-Consumes (raw k) _ (raw-Consumes k) (λ b. pure-Consumes _)

num_tag-Consumes : (b : Bytes) → Consumes (num_tag b)
unfolding num_tag
num_tag-Consumes [] = pure-Consumes 0
num_tag-Consumes (b ∷ _) = search (if-Consumes, fixed-Consumes, fail-Consumes, pure-Consumes)

pub num-Consumes : Consumes num
unfolding num
num-Consumes = bind-Consumes (raw 1) num_tag (raw-Consumes 1) num_tag-Consumes

pub text-Consumes : Consumes text
unfolding text text_body
text-Consumes =
    bind-Consumes num text_body num-Consumes
      (λ n. if-Consumes _ _ _ (fail-Consumes []) (raw-Consumes n))

-- A run that ends without an error began without one.
abbrev pub Sticks : {A : Type 0} → M A → Type 0
Sticks m = (d : Decoder) → (m d).1.failed ≡ false → d.failed ≡ false

pub Echoes-Sticks : {A : Type 0} (j : ℕ) (m m' : M A) → Echoes j m m' → Sticks m
Echoes-Sticks j m m' e d h = (e d h).calm

many_body-Sticks : {S : Type 0} (fn : S → M S) (s : S) (n : ℕ) → Sticks (many_body fn s n)
unfolding many_body
many_body-Sticks fn s n d h = elim (Bool-cases d.failed) [
  | inl bad ↦ elim (Bool-cases (ltb max_frame n || ltb (length d.rest) n)) [
    | inl over ↦ absurd (ground arith)
    | inr fits ↦ absurd (cc (repeat_stuck fn s n d bad, rw fits at h))
  ]
  | inr good ↦ good
]
  where
    repeat_stuck :
        {S : Type 0} (fn : S → M S) (s : S) (n : ℕ) (d : Decoder)
        → d.failed ≡ true
        → (repeat n fn s d).1.failed ≡ true
    repeat_stuck fn s zero d bad = unfold repeat in bad
    repeat_stuck fn s (suc n) d bad = unfold repeat in ground arith

pub many_with-Sticks : {S : Type 0} (fn : S → M S) (s : S) → Sticks (many_with fn s)
unfolding many_with ◌>>=◌
many_with-Sticks fn s d h = (num-Echoes d (many_body-Sticks fn s (num d).0 (num d).1 h)).calm

-- A property of the loop's state that each round keeps.
pub repeat_keeps {ℓ} :
    {S : Type 0} (P : S → Type ℓ) (fn : S → M S)
    → ((s : S) (d : Decoder) → P s → P (fn s d).0)
    → (n : ℕ) (s : S) (d : Decoder) → P s
    → P (repeat n fn s d).0
unfolding repeat
repeat_keeps P fn step zero s d h = h
repeat_keeps P fn step (suc n) s d h =
    ground (arith, repeat_keeps P fn step n (fn s d).0 (fn s d).1 (step s d h))

pub many_with_keeps {ℓ} :
    {S : Type 0} (P : S → Type ℓ) (fn : S → M S)
    → ((s : S) (d : Decoder) → P s → P (fn s d).0)
    → (s : S) (d : Decoder) → P s
    → P (many_with fn s d).0
unfolding many_with many_body ◌>>=◌
many_with_keeps P fn step s d h = ground (arith, repeat_keeps P fn step (num d).0 s (num d).1 h)

text_body_short : (n : ℕ) (d : Decoder) → length (text_body n d).0 ≤ max_frame
unfolding text_body raw fail
text_body_short n d = ground (arith, length-take n d.rest)

-- A text is at most `MaxFrame` long, also where the read fails.
pub text_short : (d : Decoder) → length (text d).0 ≤ max_frame
unfolding text ◌>>=◌
text_short d = text_body_short (num d).0 (num d).1

take-IsBytes : (n : ℕ) (b : Bytes) → IsBytes b → IsBytes (take n b)
take-IsBytes zero b h = tt
take-IsBytes (suc n) [] h = tt
take-IsBytes (suc n) (x ∷ b) h = (h.0, take-IsBytes n b h.1)

raw-IsBytes : (n : ℕ) (d : Decoder) → IsBytes d.rest → IsBytes (raw n d).0
unfolding raw
raw-IsBytes n d h = ground (arith, take-IsBytes n d.rest h)

le_limit_mono : (k : ℕ) → k ≤ 8 → le_limit k ≤ le_limit 8
le_limit_mono zero h = omega arith
le_limit_mono (suc zero) h = omega arith
le_limit_mono (suc (suc zero)) h = omega arith
le_limit_mono (suc (suc (suc zero))) h = omega arith
le_limit_mono (suc (suc (suc (suc zero)))) h = omega arith
le_limit_mono (suc (suc (suc (suc (suc zero))))) h = omega arith
le_limit_mono (suc (suc (suc (suc (suc (suc zero)))))) h = omega arith
le_limit_mono (suc (suc (suc (suc (suc (suc (suc zero))))))) h = omega arith
le_limit_mono (suc (suc (suc (suc (suc (suc (suc (suc k)))))))) h =
    let e : k ≡ 0 = omega arith in rw e (omega arith)

fixed-lt : (k : ℕ) (d : Decoder) → k ≤ 8 → IsBytes d.rest → (fixed k d).0 < le_limit 8
unfolding fixed ◌>>=◌ pure
fixed-lt k d small h = elim (Bool-cases (length (raw k d).0 == k)) [
  | inl whole ↦
      let e : length (raw k d).0 ≡ k = ground arith in
      rw whole (
        omega
          (arith, get_le-lt (raw k d).0 (raw-IsBytes k d h), le_limit_mono k small, ap le_limit e))
  | inr part ↦ rw part (omega arith)
]

num_tag-lt : (b : Bytes) (d : Decoder) → IsBytes b → IsBytes d.rest → (num_tag b d).0 < le_limit 8
unfolding num_tag pure fail
num_tag-lt [] d hb h = omega arith
num_tag-lt (b ∷ _) d hb h = ground (
  arith,
  fixed-lt 2 d (omega arith) h,
  fixed-lt 4 d (omega arith) h,
  fixed-lt 8 d (omega arith) h,
)

suffix-IsBytes : (a b : Bytes) → IsBytes (a ++ b) → IsBytes b
suffix-IsBytes [] b h = h
suffix-IsBytes (x ∷ a) b h = suffix-IsBytes a b h.1

pub Consumes-IsBytes :
    {A : Type 0} (m : M A) → Consumes m → (d : Decoder) → IsBytes d.rest → IsBytes (m d).1.rest
Consumes-IsBytes m e d h = let s = e d in suffix-IsBytes s.eaten (m d).1.rest (rw s.from at h)

-- A number that is read from bytes fits a uint64.
pub num-lt : (d : Decoder) → IsBytes d.rest → (num d).0 < le_limit 8
unfolding num ◌>>=◌
num-lt d h =
    num_tag-lt (raw 1 d).0 (raw 1 d).1 (raw-IsBytes 1 d h)
      (Consumes-IsBytes (raw 1) (raw-Consumes 1) d h)
