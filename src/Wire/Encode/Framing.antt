-- ===== src/Wire/Encode/Framing.antt =====
-- Frames on a stream: `Read` after `Write`, and what `Read` accepts.
use herdr_hive.Base.{
  ℕ, ◌≤◌, ◌<◌, ◌≡◌, refl, sym, ap, inl, inr, ◌⊎◌, false, ◌||◌, some, ◌++◌, ltb, ◌==◌, Bytes, put_le,
  get_le, length, length-append, length-take, take-append-drop, append_assoc, take-append,
  drop-append, length-put_le, get_le-put_le, arith, Bool-cases,
}
use herdr_hive.Wire.Encode.{
  max_frame, ReadError, Result, ok, err, read_full, read_body, read, write,
}

pub read_full-append :
    (n : ℕ) (xs ys : Bytes) → n ≡ length xs → read_full n (xs ++ ys) ≡ ok (xs, ys)
unfolding read_full
read_full-append n xs ys e = rw (e, enough, take-append xs ys, drop-append xs ys)
  where
    enough : ltb (length (xs ++ ys)) (length xs) ≡ false
    enough = ground (arith, length-append xs ys)

-- A frame that `Write` accepts is read back by `Read`, whatever the writer held before and
-- whatever follows on the stream.
pub read-write :
    (w b t : Bytes)
    → 0 < length b
    → length b ≤ max_frame
    → (f : Bytes) × (write w b ≡ some (w ++ f)) × (read (f ++ t) ≡ ok (b, t))
unfolding write read read_body
read-write w b t nonempty short =
    let size : get_le (put_le 4 (length b)) ≡ length b = get_le-put_le 4 (length b) (omega arith) in
    (
      put_le 4 (length b) ++ b,
      ground arith,
      rw
          (
            append_assoc,
            read_full-append 4 (put_le 4 (length b)) (b ++ t) (sym (length-put_le 4 (length b))),
            size,
            accepted,
          )
          (read_full-append (length b) b t refl),
    )
  where
    accepted : (length b == 0 || ltb max_frame (length b)) ≡ false
    accepted = ground arith

read_full-ok :
    (n : ℕ) (r : Bytes) {b t : Bytes} → read_full n r ≡ ok (b, t) → (r ≡ b ++ t) × (length b ≡ n)
unfolding read_full
read_full-ok n r {b} {t} h = elim (Bool-cases (ltb (length r) n)) [
  | inl short ↦ absurd (ground arith)
  | inr enough ↦ ground (arith, take-append-drop n r, length-take n r)
]

read_body-ok :
    (h r : Bytes) {b t : Bytes}
    → read_body (ok (h, r)) ≡ ok (b, t)
    → (0 < get_le h) × (get_le h ≤ max_frame) × (read_full (get_le h) r ≡ ok (b, t))
unfolding read_body
read_body-ok h r e = ground arith

Result-cases :
    (m : Result (Bytes × Bytes))
    → ((x : Bytes × Bytes) × (m ≡ ok x)) ⊎ ((e : ReadError) × (m ≡ err e))
Result-cases (ok x) = inl (x, refl)
Result-cases (err e) = inr (e, refl)

-- `Read` consumes the four bytes of the length and the frame and nothing more, and never returns
-- an empty frame or one above `MaxFrame`.
pub read_bounds :
    (r b t : Bytes)
    → read r ≡ ok (b, t)
    → (h : Bytes) × (r ≡ h ++ (b ++ t))
      × (length h ≡ 4)
      × (get_le h ≡ length b)
      × (0 < length b)
      × (length b ≤ max_frame)
unfolding read
read_bounds r b t e = elim (Result-cases (read_full 4 r)) [
  | inr (x, f) ↦ absurd (ground (arith, body_err x))
  | inl (hr, f) ↦
      let p = read_full-ok 4 r f in
      let q = read_body-ok hr.0 hr.1 (rw f at e) in
      let s = read_full-ok (get_le hr.0) hr.1 q.2 in
      (hr.0, rw (p.0) (ap (λ x. hr.0 ++ x) s.0), p.1, sym s.1, rw s.1 q.0, rw s.1 q.1)
]
  where
    body_err : (x : ReadError) → read_body (err x) ≡ err x
    body_err x = unfold read_body in refl
