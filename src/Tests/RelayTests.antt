-- ===== src/Tests/RelayTests.antt =====
-- Frames through Bee's relay: bee/internal/herdr/sizing_wire.go.
use herdr_hive.Base.{◌≡◌, refl, true, false, none, [], ◌∷◌, ◌++◌, arith}
use herdr_hive.Wire.Encode.{number}
use herdr_hive.Wire.Decoder.{num}
use herdr_hive.Wire.Decoder.Numbers.{at}
use herdr_hive.Relay.{WireDecoder, forward, sizing_frame, wire_number, read_number, relay_frame}
use herdr_hive.Relay.Agree.{Same, num-read_number}
use herdr_hive.Relay.Frames.{relay_frame_transparent, num-wire_number, read_number-number}

relay_frame_transparent_example :
    relay_frame forward true [] (sizing_frame (20 ∷ 7 ∷ []) ++ (3 ∷ []))
    ≡ record { dst = sizing_frame (20 ∷ 7 ∷ []); src = 3 ∷ []; error = none }
relay_frame_transparent_example =
    relay_frame_transparent forward true [] 20 (7 ∷ []) (3 ∷ []) (omega arith)
      (λ _. (omega arith, refl))

num-wire_number_example :
    num (at (wire_number 300 ++ (7 ∷ [])) [] false)
    ≡ (300, at (7 ∷ []) ([] ++ wire_number 300) false)
num-wire_number_example = num-wire_number 300 (7 ∷ []) [] false (omega arith)

read_number-number_example :
    read_number (record { payload = number 300 ++ (7 ∷ []); failed = false })
    ≡ (300, record { payload = 7 ∷ []; failed = false })
read_number-number_example = read_number-number 300 (7 ∷ []) false (omega arith)

abbrev bee : WireDecoder
bee = record { payload = 251 ∷ 44 ∷ 1 ∷ []; failed = false }

num-read_number_example : Same (num (at (251 ∷ 44 ∷ 1 ∷ []) [] false)) (read_number bee)
num-read_number_example = num-read_number (at (251 ∷ 44 ∷ 1 ∷ []) [] false) bee refl refl
