-- ===== src/Wire/Decoder/Numbers.antt =====
-- Reading back what `number`, `str`, `control` and `Write` put on the wire.
use herdr_hive.Base.{
  ℕ, ◌≤◌, ◌<◌, ◌≡◌, refl, sym, inl, inr, Bool, false, [], ◌∷◌, ◌++◌, ltb, leb, Bytes, put_le,
  length, append_assoc, take-append, drop-append, length-append, length-put_le, get_le-put_le,
  le_limit, arith, Bool-cases,
}
use herdr_hive.Wire.Encode.{max_frame, number, str}
use herdr_hive.Wire.Decoder.{Decoder, raw, ◌>>=◌, pure, num, text, num_tag, fixed, text_body}

abbrev pub at : Bytes → Bytes → Bool → Decoder
at r o f = record { rest = r; out = o; failed = f }

pub raw-append :
    (w t o : Bytes) (f : Bool) (n : ℕ)
    → n ≡ length w
    → raw n (at (w ++ t) o f) ≡ (w, at t (o ++ w) f)
unfolding raw
raw-append w t o f n e = rw (e, short, take-append w t, drop-append w t)
  where
    short : ltb (length (w ++ t)) (length w) ≡ false
    short = ground (arith, length-append w t)

pub raw_one :
    (b : ℕ) (t o : Bytes) (f : Bool) → raw 1 (at (b ∷ t) o f) ≡ (b ∷ [], at t (o ++ b ∷ []) f)
raw_one b t o f = raw-append (b ∷ []) t o f 1 refl

pub fixed-put_le :
    (k tag v : ℕ) (t o : Bytes) (f : Bool)
    → v < le_limit k
    → fixed k (at (put_le k v ++ t) (o ++ tag ∷ []) f) ≡ (v, at t (o ++ (tag ∷ put_le k v)) f)
unfolding fixed ◌>>=◌ pure
fixed-put_le k tag v t o f h =
    rw (raw-append (put_le k v) t (o ++ tag ∷ []) f k (sym (length-put_le k v)), append_assoc)
      (ground (arith, length-put_le k v, get_le-put_le k v))

-- The number comes back, its bytes are consumed, and they are copied to the output.
pub num-number :
    (v : ℕ) (t o : Bytes) (f : Bool)
    → v < le_limit 8
    → num (at (number v ++ t) o f) ≡ (v, at t (o ++ number v) f)
unfolding num number num_tag ◌>>=◌ pure
num-number v t o f h = elim (Bool-cases (ltb v 251)) [
  | inl small ↦ rw small (rw (raw_one v t o f) (ground arith))
  | inr big ↦ rw big (elim (Bool-cases (leb v 65535)) [
    | inl two ↦
        rw two (rw (raw_one 251 (put_le 2 v ++ t) o f) (fixed-put_le 2 251 v t o f (ground arith)))
    | inr more ↦ rw more (elim (Bool-cases (leb v 4294967295)) [
      | inl four ↦
          rw four
            (rw (raw_one 252 (put_le 4 v ++ t) o f) (fixed-put_le 4 252 v t o f (ground arith)))
      | inr eight ↦ rw eight (rw (raw_one 253 (put_le 8 v ++ t) o f) (fixed-put_le 8 253 v t o f h))
    ])
  ])
]

-- So does a text of at most `MaxFrame` bytes.
pub text-str :
    (s t o : Bytes) (f : Bool)
    → length s ≤ max_frame
    → text (at (str s ++ t) o f) ≡ (s, at t (o ++ str s) f)
unfolding text str text_body ◌>>=◌ pure
text-str s t o f h =
    rw (append_assoc, num-number (length s) (s ++ t) o f (omega arith))
      (elim (Bool-cases (ltb max_frame (length s))) [
        | inl long ↦ absurd (ground arith)
        | inr fits ↦
            rw fits (rw (raw-append s t (o ++ number (length s)) f (length s) refl, append_assoc))
      ])
