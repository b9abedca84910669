-- ===== src/Gateway/Handshake/Resize.antt =====
-- The resize that a hello leaves, as the handler of the viewer's frames reads it.
use herdr_hive.Base.{
  ℕ, ◌*◌, ◌≤◌, ◌<◌, ◌≡◌, refl, ap, subst, inl, inr, Bool, true, false, ◌||◌, Option, none, some, [],
  ◌∷◌, ◌++◌, ltb, leb, ◌==◌, Bytes, codes, length, arith, Bool-cases, if_elim, le_limit,
}
use herdr_hive.Json
use herdr_hive.Json.{Value, Fields, StdLib, obj, get}
use herdr_hive.Wire.Encode.{number}
use herdr_hive.Wire.Decoder.{decoder, num, ◌>>=◌, pure}
use herdr_hive.Wire.Decoder.Numbers.{at, num-number, raw_one}
use herdr_hive.Wire.Codec.{is_empty}
use herdr_hive.Gateway.{Session}
use herdr_hive.Gateway.Handshake.{
  Geometry, HelloError, hello_integer, geometry, check_geometry, resize_frame, mouse_byte, flag,
  wish, hello_state, accept_hello, offer_flags, flags, check_flags, check_size, offer_codecs,
  required_codecs, first_offer, check_codecs, check_hello, is_one, negotiate_hello, resize_fields,
  resize_of, is_flag,
}

shape_or : Geometry → Option Geometry → Geometry
shape_or s none = s
shape_or s (some t) = t

-- The dimensions that are accepted.
record IsLegal (s : Geometry) : Type 0 where
  columns : (0 < s.columns) × (s.columns ≤ 65535)
  lines : (0 < s.lines) × (s.lines ≤ 65535)
  cells : s.columns * s.lines ≤ 65536
  cell_width : s.cell_width ≤ 4294967295
  cell_height : s.cell_height ≤ 4294967295

-- An integer that is accepted is at most the limit.
Within : ℕ → Option ℕ → Type 0
Within max none = Unit {0}
Within max (some n) = n ≤ max

hello_integer-Within : (v : Value) (max : ℕ) → Within max (hello_integer v max)
unfolding hello_integer Within
hello_integer-Within (Json.num n) max = elim (Bool-cases (leb n max)) [
  | inl e ↦ rw e (ground arith)
  | inr e ↦ rw e tt
]
hello_integer-Within Json.null max = tt
hello_integer-Within (Json.bool x) max = tt
hello_integer-Within (Json.real x) max = tt
hello_integer-Within (Json.str x) max = tt
hello_integer-Within (Json.arr x) max = tt
hello_integer-Within (obj x) max = tt

check_geometry-IsLegal :
    (c r w h : Option ℕ) (s : Geometry)
    → Within 65535 c
    → Within 65535 r
    → Within 4294967295 w
    → Within 4294967295 h
    → check_geometry c r w h ≡ some s
    → IsLegal s
unfolding check_geometry Within shape_or
check_geometry-IsLegal (some c) (some r) (some w) (some h) s p q x y e =
    elim (Bool-cases (c == 0 || r == 0 || ltb 65536 (c * r))) [
      | inl bad ↦ absurd (cc (rw bad at e))
      | inr good ↦ legal_some (rw good at e) (record {
        columns = (ground arith, p);
        lines = (ground arith, q);
        cells = ground arith;
        cell_width = x;
        cell_height = y;
      })
    ]
  where
    legal_some : {t : Geometry} → some t ≡ some s → IsLegal t → IsLegal s
    legal_some {t} k i = subst IsLegal (ap (shape_or t) k) i
check_geometry-IsLegal none r w h s p q x y e = absurd (cc e)
check_geometry-IsLegal (some c) none w h s p q x y e = absurd (cc e)
check_geometry-IsLegal (some c) (some r) none h s p q x y e = absurd (cc e)
check_geometry-IsLegal (some c) (some r) (some w) none s p q x y e = absurd (cc e)

-- What an accepted hello leaves.
record Greeted (g : Session) : Type 0 where
  shape : Geometry
  legal : IsLegal shape
  mouse : ℕ
  is_bit : mouse ≤ 1
  resize : g.resize ≡ resize_frame shape mouse
  cols : g.cols ≡ shape.columns
  rows : g.rows ≡ shape.lines

-- An outcome without an error leaves such a session.
Greets : Option HelloError × Session → Type 0
Greets r = r.0 ≡ none → Greeted r.1

mouse_bit : (o : Option Bool) → mouse_byte o ≤ 1
unfolding mouse_byte
mouse_bit none = omega arith
mouse_bit (some true) = omega arith
mouse_bit (some false) = omega arith

module _ (l : StdLib) where
  accept_hello-Greets :
      (w : Option Bool) (h upstream : Fields) (s : Geometry) (g : Session)
      → IsLegal s
      → Greets (accept_hello l w h upstream s g)
  unfolding accept_hello hello_state Greets
  accept_hello-Greets none h upstream s g i = λ e. absurd (cc e)
  accept_hello-Greets (some active) h upstream s g i = λ e. record {
    shape = s;
    legal = i;
    mouse = mouse_byte (flag (get (codes "pixel_mouse") h));
    is_bit = mouse_bit _;
    resize = refl;
    cols = refl;
    rows = refl;
  }

  check_flags-Greets :
      (h : Fields) (r : Option Bytes × Fields) (s : Geometry) (g : Session)
      → IsLegal s
      → Greets (check_flags l h r s g)
  unfolding check_flags Greets
  check_flags-Greets h (some k, upstream) s g i = λ e. absurd (cc e)
  check_flags-Greets h (none, upstream) s g i =
      unfold Greets in accept_hello-Greets (wish h) h upstream s g i

  check_size-Greets :
      (h upstream : Fields) (o : Option Geometry) (g : Session)
      → ((s : Geometry) → o ≡ some s → IsLegal s)
      → Greets (check_size l h upstream o g)
  unfolding check_size Greets
  check_size-Greets h upstream none g i = λ e. absurd (cc e)
  check_size-Greets h upstream (some s) g i =
      unfold Greets in check_flags-Greets h (offer_flags flags h upstream) s g (i s refl)

  geometry-IsLegal : (h : Fields) (s : Geometry) → geometry h ≡ some s → IsLegal s
  unfolding geometry
  geometry-IsLegal h s e =
      check_geometry-IsLegal _ _ _ _ s (hello_integer-Within _ 65535) (hello_integer-Within _ 65535)
        (hello_integer-Within _ 4294967295) (hello_integer-Within _ 4294967295) e

  check_codecs-Greets :
      (h : Fields) (r : Option Bytes × Fields) (g : Session) → Greets (check_codecs l h r g)
  unfolding check_codecs Greets
  check_codecs-Greets h (some codec, upstream) g = λ e. absurd (cc e)
  check_codecs-Greets h (none, upstream) g =
      unfold Greets in check_size-Greets h upstream (geometry h) g (geometry-IsLegal h)

  check_hello-Greets : (o : Option Value) (g : Session) → Greets (check_hello l o g)
  unfolding check_hello Greets
  check_hello-Greets none g = λ e. absurd (cc e)
  check_hello-Greets (some Json.null) g = λ e. absurd (cc e)
  check_hello-Greets (some (Json.bool x)) g = λ e. absurd (cc e)
  check_hello-Greets (some (Json.num x)) g = λ e. absurd (cc e)
  check_hello-Greets (some (Json.real x)) g = λ e. absurd (cc e)
  check_hello-Greets (some (Json.str x)) g = λ e. absurd (cc e)
  check_hello-Greets (some (Json.arr x)) g = λ e. absurd (cc e)
  check_hello-Greets (some (obj h)) g =
      if_elim Greets (is_one (get (codes "generation") h)) _ _
        (check_codecs-Greets h (offer_codecs required_codecs h first_offer) g) (λ e. absurd (cc e))

  negotiate_hello-Greets : (p : Bytes) (g : Session) → Greets (negotiate_hello l p g)
  unfolding negotiate_hello
  negotiate_hello-Greets p g =
      if_elim Greets (ltb 262144 (length p)) _ _ (unfold Greets in λ e. absurd (cc e))
        (check_hello-Greets (l.unmarshal p) g)

-- The fields of a resize are read back.
resized_fields :
    (w h c r m : ℕ) (o : Bytes)
    → w < le_limit 8
    → h < le_limit 8
    → c < le_limit 8
    → r < le_limit 8
    → resize_fields (at (number w ++ (number h ++ (number c ++ (number r ++ (m ∷ []))))) o false)
      ≡ (
        (w, h, c, r, m ∷ []),
        at [] ((((o ++ number w) ++ number h) ++ number c) ++ number r ++ (m ∷ [])) false,
      )
unfolding resize_fields ◌>>=◌ pure
resized_fields w h c r m o hw hh hc hr =
    rw (num-number w (number h ++ (number c ++ (number r ++ (m ∷ [])))) o false hw) (
      rw (num-number h (number c ++ (number r ++ (m ∷ []))) (o ++ number w) false hh) (
        rw (num-number c (number r ++ (m ∷ [])) ((o ++ number w) ++ number h) false hc) (
          rw (num-number r (m ∷ []) (((o ++ number w) ++ number h) ++ number c) false hr) (
            rw (raw_one m [] ((((o ++ number w) ++ number h) ++ number c) ++ number r) false)
              refl))))

-- The frame that `resize_frame` makes carries tag 12 and its dimensions.
resize_frame_read :
    (s : Geometry) (m : ℕ)
    → IsLegal s
    → m ≤ 1
    → ((num (decoder (resize_frame s m))).0 ≡ 12)
      × (resize_of (num (decoder (resize_frame s m))).1 ≡ some (s.columns, s.lines))
unfolding resize_frame resize_of is_flag is_empty
resize_frame_read s m i h =
    let rest =
      number s.cell_width
      ++ (number s.cell_height ++ (number s.columns ++ (number s.lines ++ (m ∷ [])))) in
    let tag = num-number 12 rest [] false (omega arith) in
    let wide : s.cell_width < le_limit 8 = omega (arith, i.cell_width) in
    let high : s.cell_height < le_limit 8 = omega (arith, i.cell_height) in
    let cols : s.columns < le_limit 8 = omega (arith, i.columns.1) in
    let rows : s.lines < le_limit 8 = omega (arith, i.lines.1) in
    let fields =
      resized_fields s.cell_width s.cell_height s.columns s.lines m ([] ++ number 12) wide high cols
        rows in
    (
      ap (λ r. r.0) tag,
      rw tag (rw fields (ground (arith, i.columns, i.lines, i.cells, i.cell_width, i.cell_height))),
    )

-- A hello that is accepted leaves a resize frame that the handler of the viewer's frames would read
-- as tag 12 with the columns and rows of the session, which are at least one and whose product
-- is at most 65536.
pub negotiate_hello-resize_of :
    (l : StdLib) (p : Bytes) (g : Session)
    → (negotiate_hello l p g).0 ≡ none
    → let k = (negotiate_hello l p g).1 in
      ((num (decoder k.resize)).0 ≡ 12)
      × (resize_of (num (decoder k.resize)).1 ≡ some (k.cols, k.rows))
      × (0 < k.cols)
      × (0 < k.rows)
      × (k.cols * k.rows ≤ 65536)
negotiate_hello-resize_of l p g h =
    let q : Greeted (negotiate_hello l p g).1 = unfold Greets in negotiate_hello-Greets l p g h in
    let f = resize_frame_read q.shape q.mouse q.legal q.is_bit in
    (
      rw (q.resize) (f.0),
      rw (q.resize, q.cols, q.rows) (f.1),
      rw (q.cols) (q.legal.columns.0),
      rw (q.rows) (q.legal.lines.0),
      rw (q.cols, q.rows) (q.legal.cells),
    )
