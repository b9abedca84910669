-- ===== src/Wire/Decoder/Echo.antt =====
-- Decoder actions whose output is read again by the same codec: `Echoes j m m'` says that a run of
-- `m` without an error appends at least `j` bytes, and that `m'` reads just those bytes, returns the
-- same value and copies them.
use herdr_hive.Base.{
  ℕ, ◌+◌, ◌≤◌, ◌<◌, ◌≡◌, refl, sym, ap, inl, inr, ◌∙◌, Bool, true, false, [], ◌∷◌, ◌++◌, ltb,
  ltb→le, if◌then◌else◌, Bytes, length, take, drop, append-nil, append_assoc, length-append,
  length-take, arith, Bool-cases, le_limit,
}
use herdr_hive.Wire.Encode.{max_frame, number, str}
use herdr_hive.Wire.Decoder.{
  Decoder, M, ◌>>=◌, ◌>>◌, pure, skip, fail, fail_if, raw, fixed, num_tag, num, text_body, text,
  replace_text, replace_num,
}
use herdr_hive.Wire.Decoder.Numbers.{at, raw-append, num-number, text-str}

pub record Trace {A : Type 0} (j : ℕ) (m' : M A) (d : Decoder) (r : A × Decoder) : Type 0 where
  pub calm : d.failed ≡ false
  pub written : Bytes
  pub long : j ≤ length written
  pub grows : r.1.out ≡ d.out ++ written
  pub again : (t o : Bytes) → m' (at (written ++ t) o false) ≡ (r.0, at t (o ++ written) false)

abbrev pub Echoes : {A : Type 0} → ℕ → M A → M A → Type 0
Echoes j m m' = (d : Decoder) → (m d).1.failed ≡ false → Trace j m' d (m d)

pub weaken : {A : Type 0} {m m' : M A} (j : ℕ) → Echoes j m m' → Echoes 0 m m'
weaken j e d h =
    let s = e d h in
    record {
      calm = s.calm;
      written = s.written;
      long = omega arith;
      grows = s.grows;
      again = s.again;
    }

pub bind_sum :
    {A B : Type 0} {m m' : M A} {f f' : A → M B} (j k : ℕ)
    → Echoes j m m'
    → ((a : A) → Echoes k (f a) (f' a))
    → Echoes (j + k) (m >>= f) (m' >>= f')
unfolding ◌>>=◌
bind_sum {m = m} {m' = m'} {f = f} {f' = f'} j k e g d h =
    let t = g (m d).0 (m d).1 h in
    let s = e d t.calm in
    record {
      calm = s.calm;
      written = s.written ++ t.written;
      long = omega (arith, length-append s.written t.written, s.long, t.long);
      grows = t.grows ∙ rw (s.grows, append_assoc);
      again = λ u o.
          rw (append_assoc, s.again (t.written ++ u) o)
            (rw (t.again u (o ++ s.written), append_assoc));
    }

module _ {A B : Type 0} {m m' : M A} {f f' : A → M B} where
  pub bind : Echoes 1 m m' → ((a : A) → Echoes 0 (f a) (f' a)) → Echoes 1 (m >>= f) (m' >>= f')
  bind e g = bind_sum 1 0 e g

  pub bind0 : Echoes 0 m m' → ((a : A) → Echoes 0 (f a) (f' a)) → Echoes 0 (m >>= f) (m' >>= f')
  bind0 e g = bind_sum 0 0 e g

module _ {A B : Type 0} {m m' : M A} {k k' : M B} where
  pub seq : Echoes 1 m m' → Echoes 0 k k' → Echoes 1 (m >> k) (m' >> k')
  unfolding ◌>>◌ ◌>>=◌
  seq e g = bind {f = λ _. k} {f' = λ _. k'} e (λ _. g)

  pub seq0 : Echoes 0 m m' → Echoes 0 k k' → Echoes 0 (m >> k) (m' >> k')
  unfolding ◌>>◌ ◌>>=◌
  seq0 e g = bind0 {f = λ _. k} {f' = λ _. k'} e (λ _. g)

pub skip-Echoes : {A : Type 0} {m m' : M A} (j : ℕ) → Echoes j m m' → Echoes j (skip m) (skip m')
unfolding skip
skip-Echoes j e d h =
    let s = e d h in
    record {
      calm = s.calm;
      written = s.written;
      long = s.long;
      grows = s.grows;
      again = λ t o. ap (λ p. (tt, p.1)) (s.again t o);
    }

pub if-Echoes :
    {A : Type 0} {m m' n n' : M A} (j : ℕ) (b : Bool)
    → Echoes j m m'
    → Echoes j n n'
    → Echoes j (if b then m else n) (if b then m' else n')
if-Echoes j true e g = e
if-Echoes j false e g = g

pub pure-Echoes : {A : Type 0} (a : A) → Echoes 0 (pure a) (pure a)
unfolding pure
pure-Echoes a d h = record {
  calm = h;
  written = [];
  long = omega arith;
  grows = sym (append-nil d.out);
  again = λ t o. rw (append-nil o);
}

pub fail-Echoes : {A : Type 0} (j : ℕ) (a : A) → Echoes j (fail a) (fail a)
unfolding fail
fail-Echoes j a d h = cc

pub fail_if-Echoes : (b : Bool) → Echoes 0 (fail_if b) (fail_if b)
unfolding fail_if
fail_if-Echoes true d h = cc
fail_if-Echoes false d h = record {
  calm = h;
  written = [];
  long = omega arith;
  grows = sym (append-nil d.out);
  again = λ t o. rw (append-nil o);
}

raw_short : (n : ℕ) (d : Decoder) → ltb (length d.rest) n ≡ true → (raw n d).1.failed ≡ true
unfolding raw
raw_short n d h = rw h

raw_fits :
    (n : ℕ) (d : Decoder)
    → ltb (length d.rest) n ≡ false
    → raw n d ≡ (take n d.rest, at (drop n d.rest) (d.out ++ take n d.rest) d.failed)
unfolding raw
raw_fits n d h = rw h

raw_calm : (n : ℕ) (d : Decoder) → (raw n d).1.failed ≡ false → d.failed ≡ false
unfolding raw
raw_calm n d h = ground arith

pub raw-Echoes : (n : ℕ) → Echoes n (raw n) (raw n)
raw-Echoes n d h = elim (Bool-cases (ltb (length d.rest) n)) [
  | inl short ↦ absurd (cc (raw_short n d short))
  | inr fits ↦
      let size : length (take n d.rest) ≡ n = length-take n d.rest (ltb→le _ _ fits) in
      rw (raw_fits n d fits) (record {
        calm = raw_calm n d h;
        written = take n d.rest;
        long = omega (arith, size);
        grows = refl;
        again = λ t o. raw-append (take n d.rest) t o false n (sym size);
      })
]

fixed-Echoes : (k : ℕ) → Echoes 0 (fixed k) (fixed k)
unfolding fixed
fixed-Echoes k = bind0 (weaken k (raw-Echoes k)) (λ b. pure-Echoes _)

num_tag-Echoes : (b : Bytes) → Echoes 0 (num_tag b) (num_tag b)
unfolding num_tag
num_tag-Echoes [] = pure-Echoes 0
num_tag-Echoes (b ∷ _) = search (if-Echoes, fixed-Echoes, fail-Echoes, pure-Echoes)

pub num-Echoes : Echoes 1 num num
unfolding num
num-Echoes = bind (raw-Echoes 1) num_tag-Echoes

pub text-Echoes : Echoes 1 text text
unfolding text text_body
text-Echoes = bind num-Echoes (λ n. if-Echoes 0 _ (fail-Echoes 0 []) (weaken n (raw-Echoes n)))

pub number_long : (v : ℕ) → 1 ≤ length (number v)
unfolding number
number_long v = ground arith

pub str_long : (x : Bytes) → 1 ≤ length (str x)
unfolding str
str_long x = omega (arith, length-append (number (length x)) x, number_long (length x))

-- The identity on byte strings.
abbrev pub same : Bytes → Bytes
same s = s

-- A rewriting of texts that keeps them short enough for the decoder.
abbrev pub IsShort : (Bytes → Bytes) → Type 0
IsShort f = (s : Bytes) → length (f s) ≤ max_frame

-- `g` leaves alone what `f` writes.
pub replace_text-Echoes :
    (f g : Bytes → Bytes)
    → IsShort f
    → ((s : Bytes) → g (f s) ≡ f s)
    → Echoes 1 (skip (replace_text f)) (skip (replace_text g))
unfolding skip replace_text
replace_text-Echoes f g short fixes d h =
    let s = (text d).0 in
    record {
      calm = (text-Echoes d h).calm;
      written = str (f s);
      long = str_long (f s);
      grows = refl;
      again = λ t o. rw (text-str (f s) t o false (short s), fixes s);
    }

pub replace_num-Echoes :
    (v : ℕ) → v < le_limit 8 → Echoes 1 (skip (replace_num v)) (skip (replace_num v))
unfolding skip replace_num
replace_num-Echoes v small d h = record {
  calm = (num-Echoes d h).calm;
  written = number v;
  long = number_long v;
  grows = refl;
  again = λ t o. rw (num-number v t o false small);
}
