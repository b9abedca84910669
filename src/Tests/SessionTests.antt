-- ===== src/Tests/SessionTests.antt =====
-- A session with one backend that fails, and a hello: hive/internal/gateway.
use herdr_hive.Base.{
  ◌*◌, ◌≤◌, ◌<◌, length, ◌≢◌, List, ◌≡◌, refl, true, false, none, some, [], ◌∷◌, bytes_eq_iff,
  codes, arith,
}
use herdr_hive.Base.Dict.{lookup}
use herdr_hive.Json
use herdr_hive.Json.{
  StdLib, Value, null, bool, str, arr, obj, nil, cons, end, field, array, get, set, member,
}
use herdr_hive.Wire.Decoder.{num, decoder}
use herdr_hive.Gateway.Handshake.{
  negotiate_hello, offer_codecs, offers, flag, geometry, hello_integer, offer_flags, has_key,
  resize_of,
}
use herdr_hive.Gateway.Handshake.Resize.{negotiate_hello-resize_of}
use herdr_hive.Wire.Complete.{CompleteSurface}
use herdr_hive.Gateway.{unfinished, Backend, RecoveryRecord, native, Session, is_current}
use herdr_hive.Gateway.Recovery.{fail}
use herdr_hive.Gateway.Publish.{publish}
use herdr_hive.Gateway.Refresh.{
  Event, tick, viewer_frame, stream_opened, publisher_failed, step, run,
}
use herdr_hive.Gateway.Ends.{publish-Fine}
use herdr_hive.Gateway.Refresh.Reachable.{step-IsSound, run-IsSound}
use herdr_hive.Gateway.Sound.{IsSound, Fine, Failed, fail-Failed}
use herdr_hive.Gateway.Recovery.{is_stable}
use herdr_hive.Gateway.Backoff.{failures, IsCounted, Penalty, fail-Penalty}

abbrev lib : StdLib
lib = record {
  marshal = λ _. codes "{}";
  unmarshal = λ _. none;
  sha256 = λ b. b;
  truncate = λ _. 0;
}

abbrev no_surface : CompleteSurface
no_surface = record {
  assets = [];
  header = none;
  cells = [];
  width = 0;
  height = 0;
  cursor_bytes = [];
  tail = [];
  revision = 0;
}

-- The publisher `a`, of generation `g`.
abbrev publisher : Backend
publisher = record {
  effects = [];
  welcomed = true;
  surface_active = false;
  source = record { id = codes "a"; name = codes "a"; label = codes "a"; generation = codes "g" };
  has_stream = true;
  boot = codes "b";
  prefix = codes "p";
  snapshot = none;
  methods = [];
  frame = no_surface;
  chunks = [];
  initialize_by = none;
  render_ready = false;
  stable_since = none;
}

-- A viewer with that publisher as its active backend, and one request on its way.
abbrev viewer : Session
viewer = record {
  clock = 7;
  catalog = [];
  next = 1;
  heap = λ _. publisher;
  sources = (codes "a", 0) ∷ [];
  recovery = [];
  active = some 0;
  boot = codes "h";
  revision = 1;
  hello = [];
  resize = [];
  surface_active = true;
  surface_revision = 0;
  interest_sequence = 0;
  pending = (codes "r", 0) ∷ [];
  fence = [];
  fence_pending = false;
  fence_source = none;
  fence_until = 0;
  deadlines = [];
  cols = 80;
  rows = 24;
  request_sequence = 0;
  request_ids = (codes "r", codes "q") ∷ [];
  retired = [];
  rendered_source = none;
  rendered_revision = 0;
  rendered_surface = 0;
  rendered_project = 0;
  cancelled = false;
  closed = [];
  down = [];
  up = [];
  faults = [];
}

viewer-IsSound : IsSound viewer
unfolding lookup
viewer-IsSound = record {
  keyed = λ id b e. ground (arith, bytes_eq_iff (codes "a") id);
  active_in = λ b e. ground arith;
  fresh = λ id b e. ground (arith, bytes_eq_iff (codes "a") id);
}

viewer_current : is_current 0 viewer ≡ true
unfolding is_current lookup
viewer_current = refl

fail-Failed_example : Failed 0 viewer (fail lib 0 native viewer)
fail-Failed_example = fail-Failed lib 0 native viewer viewer-IsSound viewer_current

-- The publisher has failed twice before.
abbrev failing : Session
failing = record viewer {
  recovery =
      (codes "a", record { generation = codes "g"; attempts = 2; retry_at = 5; blocked = false })
      ∷ [];
}

failing_current : is_current 0 failing ≡ true
unfolding is_current lookup
failing_current = refl

fail-Penalty_example :
    (r : RecoveryRecord) × (lookup (codes "a") (fail lib 0 native failing).recovery ≡ some r)
    × Penalty native 7 (codes "g") 2 r
    × IsCounted (fail lib 0 native failing).recovery
unfolding failures is_stable lookup
fail-Penalty_example =
    fail-Penalty lib 0 native failing failing_current (λ id r e. unfold lookup in ground arith)

publish-Fine_example : Fine (length viewer.sources) (publish lib 2 viewer)
publish-Fine_example = publish-Fine lib 2 viewer viewer-IsSound (omega arith)

step-IsSound_example :
    IsSound (step lib (publisher_failed 0 native) viewer).1
    × ((step lib (publisher_failed 0 native) viewer).0 ≢ some unfinished)
step-IsSound_example = step-IsSound lib (publisher_failed 0 native) viewer (λ e. cc) viewer-IsSound

-- The publisher fails, comes back, and the viewer pings.
abbrev history : List Event
history =
    publisher_failed 0 native
    ∷ tick 2_000_000_000 (publisher.source ∷ [])
    ∷ stream_opened 1
    ∷ viewer_frame (20 ∷ 0 ∷ 0 ∷ [])
    ∷ []

run-IsSound_example : IsSound (run lib history viewer)
run-IsSound_example = run-IsSound lib history viewer viewer-IsSound

-- A hello for 80 columns and 24 rows.
abbrev greeting : Value
greeting = obj (
    field (codes "generation") (Json.num 1) (
      field (codes "snapshot_codecs") (arr (cons (str (codes "shell.snapshot.v1")) nil)) (
        field (codes "surface_codecs") (arr (cons (str (codes "shell.surface.v1")) nil)) (
          field (codes "input_codecs") (arr (cons (str (codes "shell.input.semantic.v1")) nil)) (
            field (codes "blob_codecs") (arr (cons (str (codes "shell.blob.v1")) nil)) (
              field (codes "surface_size")
                (obj (field (codes "cols") (Json.num 80) (field (codes "rows") (Json.num 24) end)))
                (field (codes "cell_width_px") (Json.num 8) (
                  field (codes "cell_height_px") (Json.num 16) (
                    field (codes "pixel_mouse") (bool true) (
                      field (codes "mouse_capture") (bool false) (
                        field (codes "endpoint_keybindings") (bool false)
                          (field (codes "direct_graphics") (bool false) end))))))))))))

abbrev greeting_lib : StdLib
greeting_lib = record lib { unmarshal = λ _. some greeting }

greeting_accepted : (negotiate_hello greeting_lib [] viewer).0 ≡ none
unfolding negotiate_hello offer_codecs offers array get set member flag geometry hello_integer
    offer_flags has_key
greeting_accepted = refl

negotiate_hello-resize_of_example :
    let k = (negotiate_hello greeting_lib [] viewer).1 in
    ((num (decoder k.resize)).0 ≡ 12)
    × (resize_of (num (decoder k.resize)).1 ≡ some (k.cols, k.rows))
    × (0 < k.cols)
    × (0 < k.rows)
    × (k.cols * k.rows ≤ 65536)
negotiate_hello-resize_of_example =
    negotiate_hello-resize_of greeting_lib [] viewer greeting_accepted
