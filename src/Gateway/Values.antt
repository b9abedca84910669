-- ===== src/Gateway/Values.antt =====
-- What the handlers read and write besides the session: the methods that the gateway routes, prefixes,
-- kept effects and chunks; hive/internal/gateway/gateway.go, lines 592 to 651 and 944 to 953.
use herdr_hive.Base.{
  ℕ, ◌+◌, ◌/◌, ◌%◌, Bool, true, false, Option, none, some, List, [], ◌∷◌, ◌++◌, ltb, ◌==◌,
  if◌then◌else◌, Bytes, codes, length, take,
}
use herdr_hive.Base.Dict.{Dict}
use herdr_hive.Json.{Items, StdLib, nil, cons, string_val, has_text}
use herdr_hive.Wire.Decoder.{M, ◌>>=◌, pure, text, raw}
use herdr_hive.Wire.Codec.{is_empty}
use herdr_hive.Gateway.{Source, Backend, Error, failure, Session, put}

-- `supportedMethods`
abbrev pub supported_methods : List Bytes
supported_methods =
    codes "client_shell.surface.set"
    ∷ codes "command.invoke"
    ∷ codes "layout.set_split_ratio"
    ∷ codes "workspace.focus"
    ∷ codes "workspace.create"
    ∷ codes "workspace.rename"
    ∷ codes "workspace.close"
    ∷ codes "tab.focus"
    ∷ codes "tab.create"
    ∷ codes "tab.rename"
    ∷ codes "tab.close"
    ∷ codes "tab.move"
    ∷ codes "pane.focus"
    ∷ codes "pane.focus_direction"
    ∷ codes "pane.split"
    ∷ codes "pane.close"
    ∷ codes "pane.rename"
    ∷ codes "pane.resize"
    ∷ codes "pane.scroll"
    ∷ codes "pane.copy_motion"
    ∷ codes "pane.copy_search"
    ∷ codes "pane.edit_scrollback"
    ∷ codes "pane.input.set"
    ∷ codes "pane.link.activate"
    ∷ codes "pane.selection.read"
    ∷ codes "pane.swap"
    ∷ codes "pane.zoom"
    ∷ []

-- `allowedMethod`
unfoldable pub allowed_method : Bytes → Bool
allowed_method m = has_text m supported_methods

-- `protocolFailure()`
abbrev pub protocol_failure : Error
protocol_failure = failure false

abbrev pub ready_kind : Bytes
ready_kind = codes "endpoint.presentation.ready.v1"

-- A change of one backend.
unfoldable pub change : ℕ → (Backend → Backend) → Session → Session
change b f g = record g { heap = put g.heap b (f (g.heap b)) }

unfoldable pub hex_digit : ℕ → ℕ
hex_digit n = if ltb n 10 then 48 + n else 87 + n

-- `hex.EncodeToString`
unfoldable pub hex : Bytes → Bytes
unfolding hex_digit
hex [] = []
hex (b ∷ bs) = hex_digit (b / 16) ∷ hex_digit (b % 16) ∷ hex bs

-- The prefix of a publisher's identifiers.
unfoldable pub prefix_of : StdLib → Source → Bytes → Bytes
prefix_of l s boot =
    (b'g' ∷ hex (take 8 (l.sha256 (s.id ++ (0 ∷ (s.generation ++ (0 ∷ boot))))))) ++ (b'/' ∷ [])

-- The methods of a welcome that the gateway can route.
unfoldable pub add_methods : Items → List Bytes → List Bytes
add_methods nil methods = methods
add_methods (cons m ms) methods =
    add_methods ms (if allowed_method (string_val m) then string_val m ∷ methods else methods)

-- Frames that are passed on to the viewer, kept by tag.
unfoldable pub keep_effect : ℕ → Bytes → List (ℕ × Bytes) → List (ℕ × Bytes)
keep_effect tag p [] = (tag, p) ∷ []
keep_effect tag p ((k, v) ∷ rest) =
    if k == tag then (tag, p) ∷ rest else (k, v) ∷ keep_effect tag p rest

-- `nil`, as a missing key and an empty append have it.
unfoldable pub is_missing : Option Bytes → Bool
is_missing none = true
is_missing (some v) = is_empty v

unfoldable pub content : Option Bytes → Bytes
content none = []
content (some v) = v

unfoldable pub total_length : Dict Bytes → ℕ
total_length [] = 0
total_length ((k, v) ∷ rest) = length v + total_length rest

-- The boot identity, the request, the marker of the last chunk and the chunk.
unfoldable pub chunk_fields : M (Bytes × Bytes × Bytes × Bytes)
chunk_fields = do
  boot ← text
  id ← text
  final ← raw 1
  data_bytes ← text
  pure (boot, id, final, data_bytes)

unfoldable pub is_final : Bytes → Option Bool
is_final (b ∷ []) = if b == 0 then some false else if b == 1 then some true else none
is_final _ = none
