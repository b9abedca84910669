-- ===== src/Wire/Decoder/Limits.antt =====
-- Actions whose output stays below the limit of a frame: a rewriting of texts matters only where
-- what it writes fits.
use herdr_hive.Base.{
  ℕ, zero, suc, ◌≤◌, ◌≡◌, refl, ap, inl, inr, ◌∙◌, Bool, true, false, ◌||◌, [], ◌∷◌, ◌++◌, ltb, leb,
  if◌then◌else◌, Bytes, length, length-append, arith, Bool-cases, ◌==◌,
}
use herdr_hive.Wire.Encode.{max_frame, number, str}
use herdr_hive.Wire.Decoder.{
  Decoder, M, ◌>>=◌, ◌>>◌, skip, text, replace_text, repeat, many_body, many_with, many, option_tag,
  option,
}
use herdr_hive.Wire.Decoder.Echo.{
  Echoes, IsShort, raw-Echoes, num-Echoes, pure-Echoes, text-Echoes, fail-Echoes,
}
use herdr_hive.Wire.Decoder.Loops.{repeat_stop, repeat_step, many_stop, many_step}

-- A run of `m` without an error whose output fits is a run of `n`, and began with an output that
-- fits.
pub record Same {A : Type 0} (n : M A) (d : Decoder) (r : A × Decoder) : Type 0 where
  pub same : n d ≡ r
  pub calm : d.failed ≡ false
  pub grows : length d.out ≤ length r.1.out

abbrev pub Agrees : {A : Type 0} → M A → M A → Type 0
Agrees m n =
    (d : Decoder) → (m d).1.failed ≡ false → length (m d).1.out ≤ max_frame → Same n d (m d)

pub Echoes-Agrees : {A : Type 0} {m m' : M A} {j : ℕ} → Echoes j m m' → Agrees m m
Echoes-Agrees e d h k =
    let s = e d h in
    record {
      same = refl;
      calm = s.calm;
      grows = omega (arith, ap length s.grows, length-append d.out s.written);
    }

pub bind-Agrees :
    {A B : Type 0} {m n : M A} {f g : A → M B}
    → Agrees m n
    → ((a : A) → Agrees (f a) (g a))
    → Agrees (m >>= f) (n >>= g)
unfolding ◌>>=◌
bind-Agrees {m = m} {n = n} {f = f} {g = g} a b d h k =
    let t = b (m d).0 (m d).1 h k in
    let s = a d t.calm (omega (arith, t.grows, k)) in
    record {
      same = ap (λ r. g r.0 r.1) s.same ∙ t.same;
      calm = s.calm;
      grows = omega (arith, s.grows, t.grows);
    }

pub seq-Agrees :
    {A B : Type 0} {m n : M A} {f g : M B} → Agrees m n → Agrees f g → Agrees (m >> f) (n >> g)
unfolding ◌>>◌ ◌>>=◌
seq-Agrees {f = f} {g = g} a b = bind-Agrees {f = λ _. f} {g = λ _. g} a (λ _. b)

pub skip-Agrees : {A : Type 0} {m n : M A} → Agrees m n → Agrees (skip m) (skip n)
unfolding skip
skip-Agrees a d h k =
    let s = a d h k in record { same = ap (λ r. (tt, r.1)) s.same; calm = s.calm; grows = s.grows }

pub if-Agrees :
    {A : Type 0} {m n m' n' : M A} (b : Bool)
    → Agrees m n
    → Agrees m' n'
    → Agrees (if b then m else m') (if b then n else n')
if-Agrees true a c = a
if-Agrees false a c = c

module _ {S : Type 0} (f g : S → M S) (a : (s : S) → Agrees (f s) (g s)) where
  repeat_zero-Agrees : (s : S) → Agrees (repeat zero f s) (repeat zero g s)
  unfolding repeat
  repeat_zero-Agrees s d h k = record { same = refl; calm = h; grows = omega arith }

  repeat-Agrees : (n : ℕ) (s : S) → Agrees (repeat n f s) (repeat n g s)
  repeat-Agrees zero s d h k = repeat_zero-Agrees s d h k
  repeat-Agrees (suc n) s d h k = elim (Bool-cases d.failed) [
    | inl bad ↦ absurd (cc (repeat_stop n f s d bad))
    | inr good ↦
        let step = repeat_step n f s d good in
        let r = bind-Agrees (a s) (repeat-Agrees n) d (rw step at h) (rw step at k) in
        rw step
          (record { same = repeat_step n g s d good ∙ r.same; calm = r.calm; grows = r.grows })
  ]

  many_body-Agrees : (s : S) (n : ℕ) → Agrees (many_body f s n) (many_body g s n)
  many_body-Agrees s n d h k = elim (Bool-cases (ltb max_frame n || ltb (length d.rest) n)) [
    | inl bad ↦ absurd (cc (many_stop f s n d bad))
    | inr good ↦
        let step = many_step f s n d good in
        let r = repeat-Agrees n s d (rw step at h) (rw step at k) in
        rw step (record { same = many_step g s n d good ∙ r.same; calm = r.calm; grows = r.grows })
  ]

  many_with-Agrees : (s : S) → Agrees (many_with f s) (many_with g s)
  unfolding many_with
  many_with-Agrees s = bind-Agrees (Echoes-Agrees num-Echoes) (many_body-Agrees s)

pub many-Agrees : {m n : M (Unit {0})} → Agrees m n → Agrees (many m) (many n)
unfolding many
many-Agrees {m = m} {n = n} a = many_with-Agrees (λ _. m) (λ _. n) (λ _. a) tt

option_tag-Agrees :
    {m n : M (Unit {0})} (v : Bytes) → Agrees m n → Agrees (option_tag m v) (option_tag n v)
unfolding option_tag
option_tag-Agrees [] a = Echoes-Agrees (pure-Echoes tt)
option_tag-Agrees (v ∷ _) a =
    if-Agrees (v == 1) a
      (if-Agrees (v == 0) (Echoes-Agrees (pure-Echoes tt)) (Echoes-Agrees (fail-Echoes 0 tt)))

pub option-Agrees : {m n : M (Unit {0})} → Agrees m n → Agrees (option m) (option n)
unfolding option
option-Agrees a = bind-Agrees (Echoes-Agrees (raw-Echoes 1)) (λ v. option_tag-Agrees v a)

-- The rewriting with what does not fit a frame left out.
pub clipped : (Bytes → Bytes) → Bytes → Bytes
clipped f s = if leb (length (f s)) max_frame then f s else []

pub clipped-IsShort : (f : Bytes → Bytes) → IsShort (clipped f)
unfolding clipped
clipped-IsShort f s = ground (arith)

clipped-short : (f : Bytes → Bytes) (s : Bytes) → length (f s) ≤ max_frame → clipped f s ≡ f s
unfolding clipped
clipped-short f s h = ground (arith)

length-str : (x : Bytes) → length x ≤ length (str x)
unfolding str
length-str x = omega (arith, length-append (number (length x)) x)

pub renamed-Agrees :
    (f : Bytes → Bytes) → Agrees (skip (replace_text f)) (skip (replace_text (clipped f)))
unfolding skip replace_text
renamed-Agrees f d h k =
    let s = (text d).0 in
    let long = length-append d.out (str (f s)) in
    record {
      same =
          ap (λ x. (tt, record (text d).1 { out = d.out ++ str x }))
            (clipped-short f s (omega (arith, k, long, length-str (f s))));
      calm = (text-Echoes d h).calm;
      grows = omega (arith, long);
    }
