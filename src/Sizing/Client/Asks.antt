-- ===== src/Sizing/Client/Asks.antt =====
-- What `clientFrame` reads of a frame, and what it does to the viewer before the locks are
-- reconciled: bee/internal/herdr/sizing.go, 734-834.
use herdr_hive.Base.{
  ℕ, ◌+◌, ◌==◌, ◌%◌, ◌^◌, Bool, true, false, ◌&&◌, ◌||◌, not, Option, none, some, List, [], ◌∷◌,
  leb, if◌then◌else◌, Bytes, bytes_eq, codes, length, starts_with,
}
use herdr_hive.Base.Dict.{lookup, insert}
use herdr_hive.Json.{Value, Fields, StdLib, get, set, null, bool, num, str, obj}
use herdr_hive.Relay.{WireDecoder, read_number, read_text, wire_control}
use herdr_hive.Sizing.Locks.{Sizing}
use herdr_hive.Sizing.Panes.{Pane, Workspace, Snapshot, SizeError}
use herdr_hive.Sizing.Panes.SizeError.{native_protocol}
use herdr_hive.Sizing.View.{View, Navigation}

-- The fields that `clientFrame` reads of a request; a missing text is empty.
pub record Request : Type 0 where
  pub id : Bytes
  pub method : Bytes
  pub active : Option Bool
  pub pane : Bytes
  pub tab : Bytes
  pub workspace : Bytes

-- The fields that `serverFrame` reads of a response: the raw error and the projection's revision.
pub record Response : Type 0 where
  pub error : Bytes
  pub revision : ℕ

-- `encoding/json` for the types of this file, besides the values of `Json`.
pub record Codec : Type 0 where
  pub json : StdLib
  pub hello : Bytes → Option Fields
  pub request : Bytes → Option Request
  pub response : Bytes → Option Response
  pub response_error : Bytes → Option Bytes
  pub snapshot : Bytes → Option Snapshot

-- A frame that goes on, none, or an error that ends the relay.
pub data Outcome : Type 0 where
  pass : Bytes → Outcome
  swallow : Outcome
  failed : SizeError → Outcome

-- `sent` is what was written to the session besides.
pub record Handled : Type 0 where
  pub sizing : Sizing
  pub view : View
  pub sent : List Bytes
  pub outcome : Outcome

-- What is read of a frame before the shared state is used.
pub data Inspect : Type 0 where
  refuses : SizeError → Inspect
  passes : Inspect
  goes : View → Bytes → Inspect

abbrev pub internal_prefix : Bytes
internal_prefix = codes "bee-sizing:"

abbrev pub hello_kind : Bytes
hello_kind = codes "endpoint.hello.v1"

abbrev pub surface_active : Bytes
surface_active = codes "surface_active"

unfoldable pub is_one : Value → Bool
is_one (num n) = n == 1
is_one null = false
is_one (bool b) = false
is_one (Value.real s) = false
is_one (str s) = false
is_one (Value.arr xs) = false
is_one (obj fs) = false

unfoldable pub is_false : Value → Bool
is_false (bool b) = not b
is_false null = false
is_false (num n) = false
is_false (Value.real s) = false
is_false (str s) = false
is_false (Value.arr xs) = false
is_false (obj fs) = false

-- The hello that the session gets: its surface is not active yet.
unfoldable pub quiet_hello : Codec → Fields → Bytes
quiet_hello c fs =
    wire_control hello_kind (c.json.marshal (obj (set surface_active (bool false) fs)))

unfoldable pub greet : Codec → View → Option Fields → Inspect
unfolding is_one is_false quiet_hello
greet c v none = refuses native_protocol
greet c v (some fs) =
    if is_one (get (codes "generation") fs)
    then goes
        (record v {
          active = not (is_false (get surface_active fs));
          requested_active = not (is_false (get surface_active fs));
          initial = true;
          initialized = true;
        })
        (quiet_hello c fs)
    else refuses native_protocol

unfoldable pub control : Codec → View → Bytes → Bytes → Bytes → Inspect
unfolding greet
control c v p kind payload =
    if bytes_eq kind hello_kind
    then (if v.initialized then refuses native_protocol else greet c v (c.hello payload))
    else goes v p

unfoldable pub tab_of_pane : Bytes → List Pane → Bytes
tab_of_pane pane [] = []
tab_of_pane pane (p ∷ ps) = if bytes_eq p.id pane then p.tab else tab_of_pane pane ps

unfoldable pub tab_of_workspace : Bytes → List Workspace → Bytes
tab_of_workspace workspace [] = []
tab_of_workspace workspace (w ∷ ws) =
    if bytes_eq w.id workspace then w.tab else tab_of_workspace workspace ws

-- The tab that a request navigates to, or none.
unfoldable pub target : View → Request → Bytes
target v r =
    if bytes_eq r.method (codes "tab.focus")
    then r.tab
    else if bytes_eq r.method (codes "pane.focus")
    then tab_of_pane r.pane v.snapshot.panes
    else if bytes_eq r.method (codes "workspace.focus")
    then tab_of_workspace r.workspace v.snapshot.workspaces
    else []

abbrev pub max_pending : ℕ
max_pending = 64

unfoldable pub set_surface : View → Bytes → Bytes → Bool → Inspect
set_surface v p id active =
    let activity = (v.activity + 1) % 2 ^ 64 in
    if leb max_pending (length v.hide)
    then refuses native_protocol
    else if active
    then goes (record v { activity = activity; requested_active = true; active = true }) p
    else goes
        (record v {
          activity = activity;
          requested_active = false;
          hide = insert id activity v.hide;
        })
        p

unfoldable pub is_pending : Option Navigation → Bool
is_pending none = false
is_pending (some n) = true

unfoldable pub navigate : ℕ → View → Bytes → Bytes → Bytes → Inspect
navigate now v p id tab =
    let sequence = (v.sequence + 1) % 2 ^ 64 in
    if leb max_pending (length v.pending) || is_pending (lookup id v.pending)
    then refuses native_protocol
    else goes
        (record v {
          sequence = sequence;
          pending =
              insert id (record { tab = tab; seq = sequence; ack = false; floor = 0; since = now })
                v.pending;
        })
        p

unfoldable pub set_or_navigate : ℕ → View → Bytes → Request → Option Bool → Inspect
unfolding set_surface navigate
set_or_navigate now v p r (some active) = set_surface v p r.id active
set_or_navigate now v p r none = goes v p

unfoldable pub asked : ℕ → View → Bytes → Request → Inspect
unfolding set_or_navigate navigate target
asked now v p r =
    if bytes_eq r.method (codes "client_shell.surface.set")
    then set_or_navigate now v p r r.active
    else if bytes_eq (target v r) []
    then goes v p
    else navigate now v p r.id (target v r)

unfoldable pub ask : ℕ → View → Bytes → Option Request → Inspect
unfolding asked
ask now v p none = refuses native_protocol
ask now v p (some r) =
    if starts_with internal_prefix r.id then refuses native_protocol else asked now v p r

-- Two texts of a frame after its tag, or an error of the decoder.
unfoldable pub two_texts : WireDecoder → Option (Bytes × Bytes)
two_texts d =
    let a = read_text d in let b = read_text a.1 in if b.1.failed then none else some (a.0, b.0)

unfoldable pub control_frame : Codec → View → Bytes → Option (Bytes × Bytes) → Inspect
unfolding control
control_frame c v p none = refuses native_protocol
control_frame c v p (some (kind, payload)) = control c v p kind payload

unfoldable pub request_frame : Codec → ℕ → View → Bytes → Option (Bytes × Bytes) → Inspect
unfolding ask
request_frame c now v p none = refuses native_protocol
request_frame c now v p (some (boot, payload)) =
    if not (bytes_eq v.snapshot.boot []) && not (bytes_eq boot v.snapshot.boot)
    then passes
    else ask now v p (c.request payload)

unfoldable pub inspect_client : Codec → ℕ → View → Bytes → Inspect
unfolding two_texts control_frame request_frame
inspect_client c now v p =
    let r = read_number (record { payload = p; failed = false }) in
    if r.0 == 20
    then control_frame c v p (two_texts r.1)
    else if r.0 == 15
    then request_frame c now v p (two_texts r.1)
    else goes v p
