-- ===== src/Gateway/Handshake.antt =====
-- The viewer's hello and a publisher's welcome: hive/internal/gateway/handshake.go, and `decoder`'s
-- use for a resize, gateway.go, lines 905 to 915.
pub mod Resize
use herdr_hive.Base.{
  ℕ, ◌*◌, Bool, true, false, ◌||◌, ◌&&◌, not, Option, none, some, List, [], ◌∷◌, ◌++◌, ltb, leb,
  ◌==◌, if◌then◌else◌, Bytes, bytes_eq, codes, length,
}
use herdr_hive.Json
use herdr_hive.Json.{
  Value, Items, Fields, StdLib, null, bool, str, arr, obj, nil, cons, end, field, array, get, set,
  member, is_null, has_text,
}
use herdr_hive.Wire.Encode.{number, control}
use herdr_hive.Wire.Decoder.{Decoder, M, ◌>>=◌, pure, num, raw}
use herdr_hive.Wire.Codec.{is_empty}
use herdr_hive.Gateway.{Session}

-- `requiredCodecs`
abbrev pub required_codecs : List (Bytes × Bytes)
required_codecs =
    (codes "snapshot", codes "shell.snapshot.v1")
    ∷ (codes "surface", codes "shell.surface.v1")
    ∷ (codes "input", codes "shell.input.semantic.v1")
    ∷ (codes "blob", codes "shell.blob.v1")
    ∷ []

-- `helloInteger`; a number that is no natural one is never accepted.
unfoldable pub hello_integer : Value → ℕ → Option ℕ
hello_integer (Json.num n) max = if leb n max then some n else none
hello_integer _ max = none

-- The ways in which a hello is refused.
pub data HelloError : Type 0 where
  bad_json : HelloError
  bad_generation : HelloError
  bad_codec : Bytes → HelloError
  bad_geometry : HelloError
  not_boolean : Bytes → HelloError

is_text : Bytes → Value → Bool
is_text k (str s) = bytes_eq s k
is_text k _ = false

is_one : Value → Bool
is_one (Json.num n) = n == 1
is_one _ = false

-- One of the codecs that the viewer offers is `codec`.
unfoldable pub offers : Bytes → Items → Bool
unfolding is_text
offers codec nil = false
offers codec (cons v vs) = is_text codec v || offers codec vs

-- The loop over the codecs, with the offer to the publishers.
unfoldable pub offer_codecs : List (Bytes × Bytes) → Fields → Fields → Option Bytes × Fields
offer_codecs [] h upstream = (none, upstream)
offer_codecs ((name, codec) ∷ rest) h upstream =
    let key = name ++ codes "_codecs" in
    elim (offers codec (array (get key h))) [
      | true ↦ offer_codecs rest h (set key (arr (cons (str codec) nil)) upstream)
      | false ↦ (some codec, upstream)
    ]

abbrev pub flags : List Bytes
flags =
    codes "pixel_mouse"
    ∷ codes "mouse_capture"
    ∷ codes "endpoint_keybindings"
    ∷ codes "direct_graphics"
    ∷ []

unfoldable pub flag : Value → Option Bool
flag (bool b) = some b
flag _ = none

-- The loop over the flags.
unfoldable pub offer_flags : List Bytes → Fields → Fields → Option Bytes × Fields
offer_flags [] h upstream = (none, upstream)
offer_flags (k ∷ rest) h upstream = elim (flag (get k h)) [
  | none ↦ (some k, upstream)
  | some b ↦
      offer_flags rest h
        (if bytes_eq k (codes "direct_graphics") then upstream else set k (bool b) upstream)
]

-- The four dimensions, if all of them are accepted.
pub record Geometry : Type 0 where
  pub columns : ℕ
  pub lines : ℕ
  pub cell_width : ℕ
  pub cell_height : ℕ

check_geometry : Option ℕ → Option ℕ → Option ℕ → Option ℕ → Option Geometry
check_geometry (some cols) (some rows) (some width) (some height) =
    if cols == 0 || rows == 0 || ltb 65536 (cols * rows)
    then none
    else some (record { columns = cols; lines = rows; cell_width = width; cell_height = height })
check_geometry _ _ _ _ = none

unfoldable pub geometry : Fields → Option Geometry
unfolding check_geometry
geometry h =
    let size = get (codes "surface_size") h in
    check_geometry (hello_integer (member (codes "cols") size) 65535)
      (hello_integer (member (codes "rows") size) 65535)
      (hello_integer (get (codes "cell_width_px") h) 4294967295)
      (hello_integer (get (codes "cell_height_px") h) 4294967295)

-- The resize of a hello.
unfoldable pub resize_frame : Geometry → ℕ → Bytes
resize_frame s pixel_mouse =
    number 12
    ++ (number s.cell_width
        ++ (number s.cell_height ++ (number s.columns ++ (number s.lines ++ (pixel_mouse ∷ [])))))

-- `h["surface_active"]`, if it is there.
unfoldable pub has_key : Bytes → Fields → Bool
has_key k end = false
has_key k (field j v fs) = bytes_eq j k || has_key k fs

-- The offer to the publishers before the loops.
abbrev pub first_offer : Fields
first_offer =
    field (codes "generation") (Json.num 1) (
      field (codes "direct_graphics") (bool false)
        (field (codes "surface_active") (bool false) end))

mouse_byte : Option Bool → ℕ
mouse_byte (some true) = 1
mouse_byte _ = 0

-- `surface_active`, which is `true` if it is not there; `none` if it is no Boolean.
wish : Fields → Option Bool
wish h =
    if has_key (codes "surface_active") h then flag (get (codes "surface_active") h) else some true

module _ (l : StdLib) where
  hello_state : Fields → Fields → Geometry → Bool → Session → Session
  unfolding mouse_byte
  hello_state h upstream s active g =
      let size =
        obj (
          field (codes "cols") (Json.num s.columns)
            (field (codes "rows") (Json.num s.lines) end)) in
      let offer = set (codes "surface_size") size (
        set (codes "cell_height_px") (Json.num s.cell_height)
          (set (codes "cell_width_px") (Json.num s.cell_width) upstream)) in
      record g {
        surface_active = active;
        cols = s.columns;
        rows = s.lines;
        resize = resize_frame s (mouse_byte (flag (get (codes "pixel_mouse") h)));
        hello = control (codes "endpoint.hello.v1") (l.marshal (obj offer));
      }

  -- From the viewer's wish on.
  accept_hello : Option Bool → Fields → Fields → Geometry → Session → Option HelloError × Session
  unfolding hello_state
  accept_hello (some active) h upstream s g = (none, hello_state h upstream s active g)
  accept_hello none h upstream s g =
      (some (not_boolean (codes "surface_active")), record g { surface_active = true })

  check_flags : Fields → Option Bytes × Fields → Geometry → Session → Option HelloError × Session
  unfolding accept_hello wish
  check_flags h (some k, upstream) s g = (some (not_boolean k), g)
  check_flags h (none, upstream) s g = accept_hello (wish h) h upstream s g

  check_size : Fields → Fields → Option Geometry → Session → Option HelloError × Session
  unfolding check_flags
  check_size h upstream none g = (some bad_geometry, g)
  check_size h upstream (some s) g = check_flags h (offer_flags flags h upstream) s g

  check_codecs : Fields → Option Bytes × Fields → Session → Option HelloError × Session
  unfolding check_size
  check_codecs h (some codec, upstream) g = (some (bad_codec codec), g)
  check_codecs h (none, upstream) g = check_size h upstream (geometry h) g

  check_hello : Option Value → Session → Option HelloError × Session
  unfolding check_codecs is_one
  check_hello (some (obj h)) g =
      if is_one (get (codes "generation") h)
      then check_codecs h (offer_codecs required_codecs h first_offer) g
      else (some bad_generation, g)
  check_hello _ g = (some bad_json, g)

  -- `negotiateHello`
  unfoldable pub negotiate_hello : Bytes → Session → Option HelloError × Session
  unfolding check_hello
  negotiate_hello p g =
      if ltb 262144 (length p) then (some bad_json, g) else check_hello (l.unmarshal p) g

codecs_selected : List (Bytes × Bytes) → Fields → Bool
unfolding is_text
codecs_selected [] v = true
codecs_selected ((name, codec) ∷ rest) v =
    is_text codec (get (name ++ codes "_codec") v) && codecs_selected rest v

-- `validateWelcome` returns no error.
unfoldable pub valid_welcome : Fields → Bool
unfolding codecs_selected is_one
valid_welcome v =
    is_null (get (codes "error") v)
    && is_one (get (codes "generation") v)
    && codecs_selected required_codecs v

-- What a resize carries: the dimensions, if the viewer may ask for them.
unfoldable pub resize_fields : M (ℕ × ℕ × ℕ × ℕ × Bytes)
resize_fields = do
  width ← num
  height ← num
  cols ← num
  rows ← num
  mouse ← raw 1
  pure (width, height, cols, rows, mouse)

is_flag : Bytes → Bool
is_flag (b ∷ []) = leb b 1
is_flag _ = false

unfoldable pub resize_of : Decoder → Option (ℕ × ℕ)
unfolding is_flag
resize_of d =
    let r = resize_fields d in
    let cols = r.0.2 in
    let rows = r.0.3 in
    if not (is_flag r.0.4)
    then none
    else if ltb 4294967295 r.0.0
        || ltb 4294967295 r.0.1
        || cols == 0
        || rows == 0
        || ltb 65535 cols
        || ltb 65535 rows
        || ltb 65536 (cols * rows)
        || r.1.failed
        || not (is_empty r.1.rest)
    then none
    else some (cols, rows)
