-- ===== src/Wire/Decoder/Loops.antt =====
-- The loops and the optional parts of the decoder, read again by the same codec.
use herdr_hive.Base.{
  ℕ, zero, suc, ◌≡◌, refl, inl, inr, ◌∙◌, true, false, ◌||◌, [], ◌∷◌, ◌++◌, ltb, Bytes, length,
  length-append, arith, Bool-cases,
}
use herdr_hive.Wire.Encode.{max_frame}
use herdr_hive.Wire.Decoder.{
  Decoder, M, ◌>>=◌, pure, repeat, many_body, many_with, many, option_tag, option, enum, nums,
}
use herdr_hive.Wire.Decoder.Numbers.{at}
use herdr_hive.Wire.Decoder.Echo.{
  Echoes, weaken, bind_sum, bind, seq, if-Echoes, pure-Echoes, fail-Echoes, fail_if-Echoes,
  raw-Echoes, num-Echoes,
}

pub repeat_stop :
    {S : Type 0} (n : ℕ) (fn : S → M S) (s : S) (d : Decoder)
    → d.failed ≡ true
    → repeat (suc n) fn s d ≡ (s, d)
unfolding repeat
repeat_stop n fn s d h = ground arith

pub repeat_step :
    {S : Type 0} (n : ℕ) (fn : S → M S) (s : S) (d : Decoder)
    → d.failed ≡ false
    → repeat (suc n) fn s d ≡ (fn s >>= repeat n fn) d
unfolding repeat ◌>>=◌
repeat_step n fn s d h = ground arith

pub many_stop :
    {S : Type 0} (fn : S → M S) (s : S) (n : ℕ) (d : Decoder)
    → (ltb max_frame n || ltb (length d.rest) n) ≡ true
    → (many_body fn s n d).1.failed ≡ true
unfolding many_body
many_stop fn s n d h = rw h

pub many_step :
    {S : Type 0} (fn : S → M S) (s : S) (n : ℕ) (d : Decoder)
    → (ltb max_frame n || ltb (length d.rest) n) ≡ false
    → many_body fn s n d ≡ repeat n fn s d
unfolding many_body
many_step fn s n d h = rw h

module _ {S : Type 0} (fn fn' : S → M S) (e : (s : S) → Echoes 1 (fn s) (fn' s)) where
  repeat_zero-Echoes : (s : S) → Echoes 0 (repeat zero fn s) (repeat zero fn' s)
  unfolding repeat pure
  repeat_zero-Echoes s = pure-Echoes s

  repeat-Echoes : (n : ℕ) (s : S) → Echoes n (repeat n fn s) (repeat n fn' s)
  repeat-Echoes zero s d h = repeat_zero-Echoes s d h
  repeat-Echoes (suc n) s d h = elim (Bool-cases d.failed) [
    | inl bad ↦ absurd (cc (repeat_stop n fn s d bad))
    | inr good ↦
        let step = repeat_step n fn s d good in
        let r = bind_sum 1 n (e s) (repeat-Echoes n) d (rw step at h) in
        rw step (record {
          calm = r.calm;
          written = r.written;
          long = omega (arith, r.long);
          grows = r.grows;
          again = λ t o. repeat_step n fn' s (at (r.written ++ t) o false) refl ∙ r.again t o;
        })
  ]

  many_body-Echoes : (s : S) (n : ℕ) → Echoes 0 (many_body fn s n) (many_body fn' s n)
  many_body-Echoes s n d h = elim (Bool-cases (ltb max_frame n || ltb (length d.rest) n)) [
    | inl bad ↦ absurd (cc (many_stop fn s n d bad))
    | inr good ↦
        let step = many_step fn s n d good in
        let r = repeat-Echoes n s d (rw step at h) in
        rw step (record {
          calm = r.calm;
          written = r.written;
          long = omega arith;
          grows = r.grows;
          again = λ t o.
              many_step fn' s n (at (r.written ++ t) o false)
                (ground (arith, r.long, length-append r.written t))
              ∙ r.again t o;
        })
  ]

  pub many_with-Echoes : (s : S) → Echoes 1 (many_with fn s) (many_with fn' s)
  unfolding many_with
  many_with-Echoes s = bind num-Echoes (many_body-Echoes s)

pub many-Echoes : {m m' : M (Unit {0})} → Echoes 1 m m' → Echoes 1 (many m) (many m')
unfolding many
many-Echoes {m = m} {m' = m'} e = many_with-Echoes (λ _. m) (λ _. m') (λ _. e) tt

option_tag-Echoes :
    {m m' : M (Unit {0})} (v : Bytes) → Echoes 0 m m' → Echoes 0 (option_tag m v) (option_tag m' v)
unfolding option_tag
option_tag-Echoes [] e = pure-Echoes tt
option_tag-Echoes (v ∷ _) e = if-Echoes 0 _ e (if-Echoes 0 _ (pure-Echoes tt) (fail-Echoes 0 tt))

pub option-Echoes : {m m' : M (Unit {0})} → Echoes 0 m m' → Echoes 1 (option m) (option m')
unfolding option
option-Echoes e = bind (raw-Echoes 1) (λ v. option_tag-Echoes v e)

pub enum-Echoes : (n : ℕ) → Echoes 1 (enum n) (enum n)
unfolding enum
enum-Echoes n = bind num-Echoes (λ v. fail_if-Echoes _)

pub nums-Echoes : (n : ℕ) → Echoes 0 (nums n) (nums n)
unfolding nums
nums-Echoes zero = pure-Echoes tt
nums-Echoes (suc n) = weaken 1 (seq num-Echoes (nums-Echoes n))

pub nums_pos-Echoes : (n : ℕ) → Echoes 1 (nums (suc n)) (nums (suc n))
unfolding nums
nums_pos-Echoes n = seq num-Echoes (nums-Echoes n)
