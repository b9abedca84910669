-- ===== src/Wire/Encode.antt =====
-- Writing frames: hive/internal/gateway/wire.go, lines 11 to 65.
-- A reader is the list of the bytes that it still holds, a writer the list of those written.
pub mod Framing
use herdr_hive.Base.{
  ℕ, ◌+◌, ◌*◌, ◌≤◌, ◌<◌, ◌≡◌, refl, Bool, true, false, ◌||◌, Option, none, some, List, [], ◌∷◌,
  ◌++◌, ltb, leb, ◌==◌, if◌then◌else◌, Bytes, put_le, get_le, length, take, drop,
}

-- 2 << 20
abbrev pub max_frame : ℕ
max_frame = 2_097_152

-- `errWire`, and the two errors of `io.ReadFull`.
pub data ReadError : Type 0 where
  wire eof unexpected_eof : ReadError

pub data Result {ℓ} (A : Type ℓ) : Type ℓ where
  ok : A → Result A
  err : ReadError → Result A

-- `io.ReadFull`: the bytes read and the bytes left, or the error of a stream that ends.
unfoldable pub read_full : ℕ → Bytes → Result (Bytes × Bytes)
read_full n r =
    if ltb (length r) n
    then err (if length r == 0 then eof else unexpected_eof)
    else ok (take n r, drop n r)

read_body : Result (Bytes × Bytes) → Result (Bytes × Bytes)
read_body (err e) = err e
read_body (ok (h, r)) =
    let n = get_le h in if n == 0 || ltb max_frame n then err wire else read_full n r

-- `Read`
unfoldable pub read : Bytes → Result (Bytes × Bytes)
unfolding read_body
read r = read_body (read_full 4 r)

-- `Write` to a writer that does not fail; `none` is `errWire`.
unfoldable pub write : Bytes → Bytes → Option Bytes
write w b =
    if length b == 0 || ltb max_frame (length b)
    then none
    else some (w ++ (put_le 4 (length b) ++ b))

-- `number`
unfoldable pub number : ℕ → Bytes
number v =
    if ltb v 251
    then v ∷ []
    else if leb v 65535
    then 251 ∷ put_le 2 v
    else if leb v 4294967295
    then 252 ∷ put_le 4 v
    else 253 ∷ put_le 8 v

-- `str`
unfoldable pub str : Bytes → Bytes
str s = number (length s) ++ s

-- `control`
unfoldable pub control : Bytes → Bytes → Bytes
control kind payload = 20 ∷ (str kind ++ str payload)
