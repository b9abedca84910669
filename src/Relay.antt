-- ===== src/Relay.antt =====
-- The native relay of Bee: bee/internal/herdr/sizing_wire.go, lines 16 to 72 and 135 to 200.
-- A reader is the list of the bytes that it still holds, a writer the list of those written.
pub mod Agree
pub mod Frames
use herdr_hive.Base.{
  ℕ, zero, suc, ◌-◌, ◌%◌, Bool, true, false, ◌||◌, ◌&&◌, not, Option, none, some, List, [], ◌∷◌,
  ◌++◌, ltb, leb, ◌==◌, if◌then◌else◌, Bytes, put_le, get_le, length, take, drop,
}
use herdr_hive.Wire.Encode.{read_full, ReadError, wire, eof, unexpected_eof, Result, ok, err}

-- 32 << 20
abbrev pub max_sizing_frame : ℕ
max_sizing_frame = 33_554_432

-- 2 << 20
abbrev pub max_inspected : ℕ
max_inspected = 2_097_152

pub record WireDecoder : Type 0 where
  pub payload : Bytes
  pub failed : Bool

abbrev pub M : Type 0 → Type 0
M A = WireDecoder → A × WireDecoder

infixl 5 ◌>>=◌
unfoldable pub ◌>>=◌ : {A B : Type 0} → M A → (A → M B) → M B
◌>>=◌ m f d = let r = m d in f r.0 r.1

pure : {A : Type 0} → A → M A
pure a d = (a, d)

fail : {A : Type 0} → A → M A
fail a d = (a, record d { failed = true })

-- `take`
unfoldable pub take_bytes : ℕ → M Bytes
take_bytes n d =
    if ltb (length d.payload) n
    then ([], record d { failed = true })
    else (take n d.payload, record d { payload = drop n d.payload })

fixed : ℕ → M ℕ
unfolding pure
fixed k = do b ← take_bytes k; pure (if length b == k then get_le b else 0)

number_tag : Bytes → M ℕ
unfolding fixed pure fail
number_tag [] = pure 0
number_tag (b ∷ _) =
    if b == 251
    then fixed 2
    else if b == 252
    then fixed 4
    else if b == 253
    then fixed 8
    else if b == 254 || b == 255
    then fail 0
    else pure b

-- `number` of the decoder
unfoldable pub read_number : M ℕ
unfolding number_tag
read_number = do b ← take_bytes 1; number_tag b

-- `text` of the decoder
unfoldable pub read_text : M Bytes
read_text = do n ← read_number; take_bytes n

-- `wireNumber`
unfoldable pub wire_number : ℕ → Bytes
wire_number n = if ltb n 251 then n ∷ [] else 253 ∷ put_le 8 n

-- `wireText`
unfoldable pub wire_text : Bytes → Bytes
wire_text s = wire_number (length s) ++ s

-- `wireControl`
unfoldable pub wire_control : Bytes → Bytes → Bytes
wire_control kind payload = (20 ∷ wire_text kind) ++ wire_text payload

-- `writeSizingFrame`, to a writer that does not fail; the length wraps at 32 bits.
unfoldable pub sizing_frame : Bytes → Bytes
sizing_frame b = put_le 4 (length b % 4294967296) ++ b

-- What `inspect` returns: a frame, `nil`, or an error.
pub data Inspected : Type 0 where
  forward : Bytes → Inspected
  discard : Inspected
  refuse : Inspected

-- `errSizingWire`, an error of the reader, or that of `inspect`.
pub data RelayError : Type 0 where
  sizing_wire : RelayError
  reading : ReadError → RelayError
  inspecting : RelayError

-- The outcome of one round, with both streams after it.
pub record Relayed : Type 0 where
  pub dst : Bytes
  pub src : Bytes
  pub error : Option RelayError

unfoldable pub is_inspected : Bool → ℕ → Bool
is_inspected client tag = tag == 20 || (client && tag == 15) || (not client && tag == 18)

module _ (inspect : Bytes → Inspected) (client : Bool) (dst : Bytes) where
  deliver : Bytes → Inspected → Relayed
  deliver src (forward p) = record { dst = dst ++ sizing_frame p; src = src; error = none }
  deliver src discard = record { dst = dst; src = src; error = none }
  deliver src refuse = record { dst = dst; src = src; error = some inspecting }

  -- An `io.ReadFull` that fails has drained its reader.
  materialize : ℕ → Result (Bytes × Bytes) → Relayed
  unfolding deliver
  materialize tag (err e) = record { dst = dst; src = []; error = some (reading e) }
  materialize tag (ok (body, src)) = deliver src (inspect (tag ∷ body))

  -- `io.CopyN` copies what is there.
  copy_rest : Bytes → ℕ → Bytes → Relayed
  copy_rest h n src =
      if ltb (length src) n
      then record { dst = dst ++ (h ++ src); src = []; error = some (reading eof) }
      else record { dst = dst ++ (h ++ take n src); src = drop n src; error = none }

  dispatch : Bytes → ℕ → ℕ → Bytes → Relayed
  unfolding materialize copy_rest
  dispatch h n tag src =
      if n == 0 || ltb max_sizing_frame n
      then record { dst = dst; src = src; error = some sizing_wire }
      else if is_inspected client tag
      then (if ltb max_inspected n
          then record { dst = dst; src = src; error = some sizing_wire }
          else materialize tag (read_full (n - 1) src))
      else copy_rest h (n - 1) src

  -- The length takes four of the five bytes, the tag the last.
  headed : Result (Bytes × Bytes) → Relayed
  unfolding dispatch
  headed (err e) = record { dst = dst; src = []; error = some (reading e) }
  headed (ok (h, src)) = dispatch h (get_le (take 4 h)) (get_le (drop 4 h)) src

  -- `relaySizingFrame`
  unfoldable pub relay_frame : Bytes → Relayed
  unfolding headed
  relay_frame src = headed (read_full 5 src)
