-- ===== src/Relay/Frames.antt =====
-- What the relay does to frames, and what Bee's writers put on the wire.
use herdr_hive.Base.{
  ℕ, ◌-◌, ◌%◌, ◌<◌, ◌≤◌, ◌≡◌, refl, sym, ap, ◌∙◌, Bool, true, false, ◌||◌, none, [], ◌∷◌, ◌++◌, ltb,
  ◌==◌, Bytes, put_le, get_le, length, take, drop, append_assoc, take-append, drop-append, arith,
  Bool-cases, inl, inr, le_limit, length-append, length-put_le, get_le-put_le,
}
use herdr_hive.Wire.Encode.{number, read_full, ok}
use herdr_hive.Wire.Encode.Framing.{read_full-append}
use herdr_hive.Wire.Decoder.{num, num_tag, ◌>>=◌, pure}
use herdr_hive.Wire.Decoder.Numbers.{at, raw_one, num-number, fixed-put_le}
use herdr_hive.Relay.Agree.{num-read_number}
use herdr_hive.Relay.{
  WireDecoder, read_number, wire_number, Inspected, forward, max_sizing_frame, max_inspected,
  is_inspected, sizing_frame, relay_frame, headed, dispatch, materialize, deliver, copy_rest,
}

-- The gateway reads the numbers below 2 ^ 64 that Bee writes, although Bee never uses the two
-- shorter forms.
pub num-wire_number :
    (v : ℕ) (t o : Bytes) (f : Bool)
    → v < le_limit 8
    → num (at (wire_number v ++ t) o f) ≡ (v, at t (o ++ wire_number v) f)
unfolding num num_tag wire_number ◌>>=◌ pure
num-wire_number v t o f h = elim (Bool-cases (ltb v 251)) [
  | inl small ↦ rw small (rw (raw_one v t o f) (ground arith))
  | inr big ↦ rw big (rw (raw_one 253 (put_le 8 v ++ t) o f) (fixed-put_le 8 253 v t o f h))
]

-- Bee reads back every number below 2 ^ 64 that the gateway writes.
pub read_number-number :
    (v : ℕ) (t : Bytes) (f : Bool)
    → v < le_limit 8
    → read_number (record { payload = number v ++ t; failed = f })
      ≡ (v, record { payload = t; failed = f })
read_number-number v t f h =
    let w : WireDecoder = record { payload = number v ++ t; failed = f } in
    let s = num-read_number (at (number v ++ t) [] f) w refl refl in
    let n = num-number v t [] f h in ground (arith, s, n)

sizing_frame_lem :
    (p : Bytes) → length p ≤ max_sizing_frame → sizing_frame p ≡ put_le 4 (length p) ++ p
unfolding sizing_frame
sizing_frame_lem p h = let e : length p % 4294967296 ≡ length p = omega arith in rw e

get_le_one : (b : ℕ) → get_le (b ∷ []) ≡ b
unfolding get_le
get_le_one b = omega arith

module _ (inspect : Bytes → Inspected) (client : Bool) (dst : Bytes) where
  headed_lem :
      (n tag : ℕ) (rest : Bytes)
      → n < le_limit 4
      → headed inspect client dst (read_full 5 (put_le 4 n ++ (tag ∷ rest)))
        ≡ dispatch inspect client dst (put_le 4 n ++ tag ∷ []) n tag rest
  unfolding headed
  headed_lem n tag rest h =
      let h4 = put_le 4 n in
      let whole : read_full 5 (h4 ++ (tag ∷ rest)) ≡ ok (h4 ++ tag ∷ [], rest) =
        ap (read_full 5) (sym (append_assoc h4 (tag ∷ []) rest))
        ∙ read_full-append 5 (h4 ++ tag ∷ []) rest
            (omega (arith, length-append h4 (tag ∷ []), length-put_le 4 n)) in
      let front : take 4 (h4 ++ tag ∷ []) ≡ h4 =
        ap (λ k. take k (h4 ++ tag ∷ [])) (sym (length-put_le 4 n)) ∙ take-append h4 (tag ∷ []) in
      let back : drop 4 (h4 ++ tag ∷ []) ≡ tag ∷ [] =
        ap (λ k. drop k (h4 ++ tag ∷ [])) (sym (length-put_le 4 n)) ∙ drop-append h4 (tag ∷ []) in
      rw whole (rw (front, back, get_le-put_le 4 n h, get_le_one tag))

  module _ (tag : ℕ) (body t : Bytes) (h : length (tag ∷ body) ≤ max_sizing_frame) where
    legal : (length (tag ∷ body) == 0 || ltb max_sizing_frame (length (tag ∷ body))) ≡ false
    legal = ground arith

    less : length (tag ∷ body) - 1 ≡ length body
    less = omega arith

    enough : ltb (length (body ++ t)) (length body) ≡ false
    enough = ground (arith, length-append body t)

    fits : length (tag ∷ body) ≤ max_inspected → ltb max_inspected (length (tag ∷ body)) ≡ false
    fits short = ground arith

    dispatch_opaque :
        is_inspected client tag ≡ false
        → dispatch inspect client dst
            (put_le 4 (length (tag ∷ body)) ++ tag ∷ [])
            (length (tag ∷ body))
            tag
            (body ++ t)
          ≡ record {
            dst = dst ++ (put_le 4 (length (tag ∷ body)) ++ (tag ∷ body));
            src = t;
            error = none;
          }
    unfolding dispatch copy_rest
    dispatch_opaque o =
        rw (legal, o, less, enough, take-append body t, drop-append body t, append_assoc)

    dispatch_inspected :
        is_inspected client tag ≡ true
        → length (tag ∷ body) ≤ max_inspected
        → inspect (tag ∷ body) ≡ forward (tag ∷ body)
        → dispatch inspect client dst
            (put_le 4 (length (tag ∷ body)) ++ tag ∷ [])
            (length (tag ∷ body))
            tag
            (body ++ t)
          ≡ record { dst = dst ++ sizing_frame (tag ∷ body); src = t; error = none }
    unfolding dispatch materialize deliver
    dispatch_inspected o short passed =
        rw (legal, o, fits short, less, read_full-append (length body) body t refl, passed)

-- A frame that is not empty and has at most 32 MiB is written as it was read, and what follows it is
-- left on the stream: always if it is opaque, and if it is inspected, where it has at most 2 MiB and
-- the inspection passes it on unchanged.
pub relay_frame_transparent :
    (inspect : Bytes → Inspected) (client : Bool) (dst : Bytes) (tag : ℕ) (body t : Bytes)
    → length (tag ∷ body) ≤ max_sizing_frame
    → (is_inspected client tag ≡ true
        → (length (tag ∷ body) ≤ max_inspected) × (inspect (tag ∷ body) ≡ forward (tag ∷ body)))
    → relay_frame inspect client dst (sizing_frame (tag ∷ body) ++ t)
      ≡ record { dst = dst ++ sizing_frame (tag ∷ body); src = t; error = none }
unfolding relay_frame
relay_frame_transparent inspect client dst tag body t h passes =
    let n = length (tag ∷ body) in
    rw
      (
        sizing_frame_lem (tag ∷ body) h,
        append_assoc,
        headed_lem inspect client dst n tag (body ++ t) (omega arith),
      )
      (elim (Bool-cases (is_inspected client tag)) [
        | inl seen ↦
            dispatch_inspected inspect client dst tag body t h seen (passes seen).0 (passes seen).1
            ∙ rw (sizing_frame_lem (tag ∷ body) h)
        | inr opaque ↦ dispatch_opaque inspect client dst tag body t h opaque
      ])
