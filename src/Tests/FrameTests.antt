-- ===== src/Tests/FrameTests.antt =====
-- Frames of one viewer, the first one of a session.
use herdr_hive.Base.{
  ◌≡◌, refl, false, Option, none, some, [], ◌∷◌, ◌++◌, Bytes, codes, starts_with, arith,
}
use herdr_hive.Json.{StdLib, end, field, num}
use herdr_hive.Relay.{read_number, read_text, take_bytes, ◌>>=◌}
use herdr_hive.Sizing.Panes.{SizeError}
use herdr_hive.Sizing.Sessions.{new_view, Reachable}
use herdr_hive.Sizing.Client.{Codec, two_texts, client_frame}
use herdr_hive.Sizing.Server.{read_reply, reply_of, server_frame}
use herdr_hive.Sizing.Frames.Bounds.Waits.{IsBounded}
use herdr_hive.Sizing.Frames.Bounds.Replies.{frames-IsBounded}
use herdr_hive.Sizing.Frames.Reserved.{is_pass, IsQuiet, server_frame-reserved, client_frame-hello}
use herdr_hive.Sizing.Sessions.Frames.Replies.{handled, frames-Reachable}
use herdr_hive.Tests.SizingTests.{native, shown, empty, moved, moved_view, moved-Reachable}

abbrev json : StdLib
json = record {
  marshal = λ v. codes "{}";
  unmarshal = λ b. none;
  sha256 = λ b. b;
  truncate = λ b. 0;
}

-- Decoders that take any text for a request without fields.
abbrev codec : Codec
codec = record {
  json = json;
  hello = λ b. some (field (codes "generation") (num 1) end);
  request = λ b. some (record {
    id = codes "r1";
    method = codes "tab.focus";
    active = none;
    pane = [];
    tab = codes "t2";
    workspace = [];
  });
  response = λ b. some (record { error = []; revision = 1 });
  response_error = λ b. some [];
  snapshot = λ b. none;
}

abbrev writes : Bytes → Option SizeError
writes b = none

abbrev focus_frame : Bytes
focus_frame = 15 ∷ 1 ∷ 98 ∷ 2 ∷ 123 ∷ 125 ∷ []

frames-IsBounded_example :
    IsBounded (client_frame codec writes native empty shown focus_frame).view
    × IsBounded (server_frame codec writes native empty shown focus_frame).view
frames-IsBounded_example =
    frames-IsBounded codec writes native empty shown focus_frame
      (record { pending = omega arith; hide = omega arith })

-- The reply to the activation.
abbrev activated : Bytes
activated = (18 ∷ 1 ∷ 98 ∷ 19 ∷ codes "bee-sizing:activate") ++ (1 ∷ 2 ∷ 123 ∷ 125 ∷ [])

server_frame-reserved_example :
    is_pass (server_frame codec writes native empty shown activated).outcome ≡ false
unfolding read_number read_text take_bytes ◌>>=◌ read_reply reply_of starts_with
server_frame-reserved_example =
    server_frame-reserved codec writes native empty shown activated
      (record {
        boot = codes "b";
        id = codes "bee-sizing:activate";
        final = 1;
        payload = codes "{}";
      })
      refl refl refl refl

abbrev hello_frame : Bytes
hello_frame = (20 ∷ 17 ∷ codes "endpoint.hello.v1") ++ (2 ∷ codes "{}")

client_frame-hello_example :
    IsQuiet codec (client_frame codec writes native empty new_view hello_frame).sent
    × (is_pass (client_frame codec writes native empty new_view hello_frame).outcome ≡ false)
unfolding read_number read_text take_bytes ◌>>=◌ two_texts
client_frame-hello_example =
    client_frame-hello codec writes native empty new_view hello_frame (codes "{}") refl refl

frames-Reachable_example :
    Reachable (handled moved 0 (client_frame codec writes native moved.sizing shown focus_frame))
    × Reachable (handled moved 0 (server_frame codec writes native moved.sizing shown focus_frame))
frames-Reachable_example =
    frames-Reachable moved 0 shown codec writes native focus_frame moved-Reachable moved_view
