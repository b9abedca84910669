-- ===== src/Relay/Agree.antt =====
-- The decoders of Bee and of the gateway read numbers alike.
use herdr_hive.Base.{ℕ, ◌≡◌, refl, Bool, true, false, [], ◌∷◌, if◌then◌else◌, Bytes, arith}
use herdr_hive.Wire.Decoder
use herdr_hive.Wire.Decoder.{Decoder}
use herdr_hive.Relay.{WireDecoder, M, ◌>>=◌, pure, fail, take_bytes, fixed, number_tag, read_number}

-- The same value, the same bytes left and the same error flag.
pub record Same {A : Type 0} (r : A × Decoder) (s : A × WireDecoder) : Type 0 where
  pub value : r.0 ≡ s.0
  pub left : r.1.rest ≡ s.1.payload
  pub flag : r.1.failed ≡ s.1.failed

abbrev pub Agrees : {A : Type 0} → Decoder.M A → M A → Type 0
Agrees m m' =
    (d : Decoder) (w : WireDecoder) → d.rest ≡ w.payload → d.failed ≡ w.failed → Same (m d) (m' w)

module _ {A B : Type 0} {m : Decoder.M A} {m' : M A} {f : A → Decoder.M B} {f' : A → M B} where
  bind : Agrees m m' → ((a : A) → Agrees (f a) (f' a)) → Agrees (Decoder.◌>>=◌ m f) (m' >>= f')
  unfolding Decoder.◌>>=◌ ◌>>=◌
  bind e g d w p q = let h = e d w p q in rw h.value (g (m' w).0 (m d).1 (m' w).1 h.left h.flag)

if-Agrees :
    {A : Type 0} {m n : Decoder.M A} {m' n' : M A} (b : Bool)
    → Agrees m m'
    → Agrees n n'
    → Agrees (if b then m else n) (if b then m' else n')
if-Agrees true e g = e
if-Agrees false e g = g

pure-Agrees : {A : Type 0} (a : A) → Agrees (Decoder.pure a) (pure a)
unfolding Decoder.pure pure
pure-Agrees a d w p q = record { value = refl; left = p; flag = q }

fail-Agrees : {A : Type 0} (a : A) → Agrees (Decoder.fail a) (fail a)
unfolding Decoder.fail fail
fail-Agrees a d w p q = record { value = refl; left = p; flag = refl }

raw-Agrees : (n : ℕ) → Agrees (Decoder.raw n) (take_bytes n)
unfolding Decoder.raw take_bytes
raw-Agrees n d w p q = ground arith

fixed-Agrees : (k : ℕ) → Agrees (Decoder.fixed k) (fixed k)
unfolding Decoder.fixed fixed
fixed-Agrees k = bind (raw-Agrees k) (λ b. pure-Agrees _)

tag-Agrees : (b : Bytes) → Agrees (Decoder.num_tag b) (number_tag b)
unfolding Decoder.num_tag number_tag
tag-Agrees [] = pure-Agrees 0
tag-Agrees (b ∷ _) = search (if-Agrees, fixed-Agrees, fail-Agrees, pure-Agrees)

num-Agrees : Agrees Decoder.num read_number
unfolding Decoder.num read_number
num-Agrees = bind (raw-Agrees 1) tag-Agrees

-- On the same bytes, and with the same error flags, the two decoders read the same number, leave the
-- same bytes and set their error flags alike.
pub num-read_number :
    (d : Decoder) (w : WireDecoder)
    → d.rest ≡ w.payload
    → d.failed ≡ w.failed
    → Same (Decoder.num d) (read_number w)
num-read_number d w p q = num-Agrees d w p q
