-- ===== src/Tests/WireTests.antt =====
-- Frames and the two surface codecs on concrete bytes: hive/internal/gateway/wire.go.
use herdr_hive.Base.{
  ℕ, ◌≡◌, ◌<◌, ◌≤◌, ◌⊎◌, refl, false, some, [], ◌∷◌, ◌++◌, Bytes, get_le, length, arith,
}
use herdr_hive.Wire.Encode.{max_frame, write, read, read_full, ok, control, str, number}
use herdr_hive.Wire.Encode.Framing.{read-write, read_bounds}
use herdr_hive.Wire.Decoder.{
  decoder, ◌>>=◌, ◌>>◌, pure, skip, num, raw, text, replace_num, replace_text, many, many_with,
  repeat, option, nums,
}
use herdr_hive.Wire.Decoder.Numbers.{at}
use herdr_hive.Wire.Decoder.Echo.{same}
use herdr_hive.Wire.Codec.{surface, opening, sideband, patch_body, pane, finish}
use herdr_hive.Wire.Codec.Rewrite.{surface-surface}
use herdr_hive.Wire.Codec.Headers.{sideband-control, opening-surface}

read-write_example :
    (f : Bytes) × (write (9 ∷ []) (7 ∷ 8 ∷ []) ≡ some ((9 ∷ []) ++ f))
    × (read (f ++ (5 ∷ [])) ≡ ok (7 ∷ 8 ∷ [], 5 ∷ []))
read-write_example = read-write (9 ∷ []) (7 ∷ 8 ∷ []) (5 ∷ []) (omega arith) (omega arith)

abbrev stream : Bytes
stream = 2 ∷ 0 ∷ 0 ∷ 0 ∷ 7 ∷ 8 ∷ 5 ∷ []

abbrev got : Bytes
got = 7 ∷ 8 ∷ []

abbrev left : Bytes
left = 5 ∷ []

two_bytes : read stream ≡ ok (got, left)
unfolding read read_full get_le
two_bytes = refl

read_bounds_example :
    (h : Bytes) × (stream ≡ h ++ (got ++ left))
    × (length h ≡ 4)
    × (get_le h ≡ length got)
    × (0 < length got)
    × (length got ≤ max_frame)
read_bounds_example = read_bounds stream got left two_bytes

sideband-control_example :
    sideband (decoder (control (107 ∷ []) (112 ∷ 113 ∷ [])))
    ≡ ((20, 107 ∷ [], 112 ∷ 113 ∷ []), at [] (control (107 ∷ []) (112 ∷ 113 ∷ [])) false)
sideband-control_example = sideband-control (107 ∷ []) (112 ∷ 113 ∷ []) (omega arith) (omega arith)

-- A patch of a publisher: no row, one pane called `p`, no cursor.
abbrev sent : Bytes
sent =
    19 ∷ 1 ∷ 98 ∷ 3 ∷ 4 ∷ 5 ∷ 0 ∷ 1 ∷ 1 ∷ 112 ∷ 0 ∷ 0 ∷ 0 ∷ 0 ∷ 0 ∷ 0 ∷ 0 ∷ 0 ∷ 0 ∷ 0 ∷ 0 ∷ 0 ∷ 0
    ∷ 0 ∷ 0 ∷ 0 ∷ 0 ∷ 0 ∷ []

-- A prefix before each identifier, as for a publisher's frames.
abbrev prefixed : Bytes → Bytes
prefixed s = 122 ∷ s

abbrev shown : Bytes
shown =
    19 ∷ 2 ∷ 104 ∷ 105 ∷ 9 ∷ 4 ∷ 5 ∷ 0 ∷ 1 ∷ 2 ∷ 122 ∷ 112 ∷ 0 ∷ 0 ∷ 0 ∷ 0 ∷ 0 ∷ 0 ∷ 0 ∷ 0 ∷ 0 ∷ 0
    ∷ 0 ∷ 0 ∷ 0 ∷ 0 ∷ 0 ∷ 0 ∷ 0 ∷ 0 ∷ []

surface_run : surface sent (104 ∷ 105 ∷ []) 9 prefixed ≡ some shown
unfolding surface ◌>>=◌ ◌>>◌ pure skip num raw text replace_num replace_text many many_with repeat
    option nums patch_body pane finish str number
surface_run = refl

surface-surface_example : surface shown (104 ∷ 105 ∷ []) 9 same ≡ some shown
surface-surface_example =
    surface-surface (104 ∷ 105 ∷ []) 9 (omega arith) (omega arith) sent shown prefixed (omega arith)
      surface_run

opening-surface_example :
    (tag : ℕ) × ((opening (decoder shown)).0 ≡ (tag, 104 ∷ 105 ∷ [], 9)) × ((tag ≡ 13) ⊎ (tag ≡ 19))
opening-surface_example =
    opening-surface (104 ∷ 105 ∷ []) 9 (omega arith) (omega arith) sent shown prefixed (omega arith)
      surface_run
