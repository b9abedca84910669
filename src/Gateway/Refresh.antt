-- ===== src/Gateway/Refresh.antt =====
-- The tick of a session, and its event loop: `refresh` and `Serve` of
-- hive/internal/gateway/gateway.go, lines 154 to 208 and 251 to 356. A new backend takes the handle
-- `next`; what its goroutine reads comes back as an event. A loop over a map goes over its keys and
-- passes over those that have been deleted meanwhile.
pub mod Ticks
pub mod Opens
pub mod Reachable
use herdr_hive.Base.{
  ℕ, zero, suc, ◌+◌, Bool, true, false, ◌||◌, ◌&&◌, not, Option, none, some, List, [], ◌∷◌, ◌++◌,
  ltb, leb, ◌==◌, if◌then◌else◌, Bytes, bytes_eq, codes, length, take,
}
use herdr_hive.Base.Dict.{Dict, lookup, insert, delete}
use herdr_hive.Json.{StdLib}
use herdr_hive.Wire.Complete.{CompleteSurface}
use herdr_hive.Gateway.{
  Source, Backend, RecoveryRecord, Error, failure, native, unfinished, Session, Outcome,
  max_sources, initialization_timeout, is_handle, is_some, put, is_current, ◌then_do◌,
}
use herdr_hive.Gateway.Recovery.{
  fail_request, cancel_on_error, forget, remove, reset_recovery, fail,
}
use herdr_hive.Gateway.Publish.{bytes_lt, publish_all}
use herdr_hive.Gateway.Server.{server}
use herdr_hive.Gateway.Values.{change}
use herdr_hive.Gateway.Client.{client}

is_unfinished : Error → Bool
is_unfinished unfinished = true
is_unfinished _ = false

-- An error cancels the session. That the fuel of `publish` ran out is no error of the source, so it
-- is handed on.
settled : Outcome → Outcome
unfolding is_unfinished
settled (none, g) = (none, g)
settled (some e, g) = if is_unfinished e then (some e, g) else (none, cancel_on_error (some e, g))

insert_source : Source → List Source → List Source
insert_source s [] = s ∷ []
insert_source s (t ∷ ts) = if bytes_lt t.id s.id then t ∷ insert_source s ts else s ∷ (t ∷ ts)

sort_sources : List Source → List Source
sort_sources [] = []
sort_sources (s ∷ ss) = insert_source s (sort_sources ss)

-- The publications that the session shows.
unfoldable pub listed : List Source → List Source
unfolding insert_source sort_sources
listed catalog = take max_sources (sort_sources catalog)

visible_in : List Source → Dict Source → Dict Source
visible_in [] seen = seen
visible_in (s ∷ ss) seen = visible_in ss (insert s.id s seen)

-- The publication is there with this generation.
unfoldable pub is_same : Bytes → Option Source → Bool
is_same generation none = false
is_same generation (some s) = bytes_eq generation s.generation

abbrev pub no_frame : CompleteSurface
no_frame = record {
  assets = [];
  header = none;
  cells = [];
  width = 0;
  height = 0;
  cursor_bytes = [];
  tail = [];
  revision = 0;
}

-- A backend before its stream is open.
unfoldable pub new_backend : Source → ℕ → Backend
new_backend s now = record {
  effects = [];
  welcomed = false;
  surface_active = false;
  source = s;
  has_stream = false;
  boot = [];
  prefix = [];
  snapshot = none;
  methods = [];
  frame = no_frame;
  chunks = [];
  initialize_by = some (now + initialization_timeout);
  render_ready = false;
  stable_since = none;
}

is_due : Option ℕ → ℕ → Bool
is_due none now = false
is_due (some t) now = leb t now

-- A source that failed lately may not be opened again yet.
must_wait : Option RecoveryRecord → ℕ → Bool
must_wait none now = false
must_wait (some r) now = r.blocked || ltb now r.retry_at

-- The session, and whether something has changed that must be published.
abbrev pub Marked : Type 0
Marked = Session × Bool

module _ (l : StdLib) where
  -- Publications that are gone or replaced.
  unfoldable pub retire : Dict Source → Dict ℕ → Marked → Marked
  retire visible [] m = m
  retire visible ((id, _) ∷ rest) (g, changed) = elim (lookup id g.sources) [
    | none ↦ retire visible rest (g, changed)
    | some b ↦ elim (is_same (g.heap b).source.generation (lookup id visible)) [
      | true ↦ retire visible rest (g, changed)
      | false ↦ retire visible rest (remove l b g, true)
    ]
  ]

  keep_records : Dict Source → Dict RecoveryRecord → Dict RecoveryRecord
  keep_records visible [] = []
  keep_records visible ((id, r) ∷ rest) =
      let kept = keep_records visible rest in
      if is_same r.generation (lookup id visible) then (id, r) ∷ kept else kept

  -- Publishers that did not finish their start in time.
  unfoldable pub expire_starts : Dict ℕ → Marked → Marked
  unfolding is_due
  expire_starts [] m = m
  expire_starts ((id, _) ∷ rest) (g, changed) = elim (lookup id g.sources) [
    | none ↦ expire_starts rest (g, changed)
    | some b ↦
        let g1 = reset_recovery b g in
        elim (is_due (g1.heap b).initialize_by g1.clock) [
          | true ↦ expire_starts rest (fail l b native g1, true)
          | false ↦ expire_starts rest (g1, changed)
        ]
  ]

  pub expire_fence_of : Option ℕ → Marked → Marked
  expire_fence_of none m = m
  expire_fence_of (some b) (g, changed) =
      if leb g.fence_until g.clock then (fail l b native g, true) else (g, changed)

  -- A request of `b` whose time is over.
  expire_request : Bytes → ℕ → Option Bytes → Marked → Marked
  expire_request id b none (g, changed) = (fail l b native g, true)
  expire_request id b (some consumer) (g, changed) = (
    cancel_on_error (
        fail_request l consumer (codes "sharing operation timed out")
          (record g { retired = insert id b g.retired })),
    changed,
  )

  expire_for : Bytes → Option ℕ → Marked → Marked
  unfolding expire_request
  -- A request with a deadline is pending, so this does not happen.
  expire_for id none m = m
  expire_for id (some b) (g, changed) =
      expire_request id b (lookup id g.request_ids)
        (forget id (change b (λ s. record s { chunks = delete id s.chunks }) g), changed)

  -- Requests that were answered too late. A deadline that an earlier one has removed is passed over.
  unfoldable pub expire_requests : Dict ℕ → Marked → Marked
  unfolding expire_for
  expire_requests [] m = m
  expire_requests ((id, t) ∷ rest) (g, changed) =
      elim (leb t g.clock && is_some (lookup id g.deadlines)) [
        | true ↦ expire_requests rest (expire_for id (lookup id g.pending) (g, changed))
        | false ↦ expire_requests rest (g, changed)
      ]

  -- A publication that the session has already: its names may have changed.
  rename_source : Source → ℕ → Marked → Marked
  rename_source s b (g, changed) =
      let old = (g.heap b).source in
      if not (bytes_eq old.name s.name) || not (bytes_eq old.label s.label)
      then (
        change b (λ k. record k { source = record old { name = s.name; label = s.label } }) g,
        true,
      )
      else (g, changed)

  open_source : Source → Option ℕ → Marked → Marked
  unfolding rename_source must_wait
  open_source s (some b) m = rename_source s b m
  open_source s none (g, changed) =
      if must_wait (lookup s.id g.recovery) g.clock then (g, changed) else (
        record g {
          heap = put g.heap g.next (new_backend s g.clock);
          next = g.next + 1;
          sources = insert s.id g.next g.sources;
        },
        changed,
      )

  -- The publications in turn.
  unfoldable pub open_sources : List Source → Marked → Marked
  unfolding open_source
  open_sources [] m = m
  open_sources (s ∷ ss) m = open_sources ss (open_source s (lookup s.id m.0.sources) m)

  publish_changed : (Session → Outcome) → Marked → Outcome
  unfolding settled
  publish_changed again (g, changed) = if changed then settled (again g) else (none, g)

  expire_fence : Marked → Marked
  unfolding expire_fence_of
  expire_fence m = expire_fence_of m.0.fence_source m

  keep_visible : Dict Source → Marked → Marked
  unfolding keep_records
  keep_visible visible (g, changed) =
      (record g { recovery = keep_records visible g.recovery }, changed)

  expire_all : Marked → Marked
  expire_all m = expire_requests m.0.deadlines m

  expire_all_starts : Marked → Marked
  expire_all_starts m = expire_starts m.0.sources m

  -- `refresh`
  unfoldable pub refresh : (Session → Outcome) → Session → Outcome
  unfolding visible_in expire_fence keep_visible publish_changed expire_all expire_all_starts
  refresh again g =
      let sources = listed g.catalog in
      let visible = visible_in sources [] in
      publish_changed again (
        open_sources sources (
          expire_all (
            expire_fence
              (expire_all_starts (keep_visible visible (retire visible g.sources (g, false)))))))

-- What the loop of `Serve` receives; the time of the tick is that of the session.
pub data Event : Type 0 where
  tick : ℕ → List Source → Event
  viewer_frame : Bytes → Event
  viewer_failed : Error → Event
  stream_opened : ℕ → Event
  publisher_frame : ℕ → Bytes → Event
  publisher_failed : ℕ → Error → Event

-- The error belongs to a publisher, which is retired, and not to the viewer.
unfoldable pub is_upstream : Error → Bool
is_upstream (failure retryable) = true
is_upstream native = true
is_upstream _ = false

module _ (l : StdLib) where
  give_up : ℕ → Outcome → Outcome
  give_up b (none, g) = (none, g)
  give_up b (some e, g) =
      let published = publish_all l (fail l b e g) in
      if is_upstream e then published else (some e, g)

  -- An event of a backend that is current.
  unfoldable pub take_publisher : ℕ → Event → Session → Outcome
  unfolding give_up
  take_publisher b (stream_opened _) g = (none, change b (λ s. record s { has_stream = true }) g)
  take_publisher b (publisher_frame _ p) g = give_up b (server l (publish_all l) b p g)
  take_publisher b (publisher_failed _ e) g = publish_all l (fail l b e g)
  take_publisher b _ g = (none, g)

  for_current : ℕ → Event → Session → Outcome
  for_current b e g =
      let taken = take_publisher b e g in if is_current b g then taken else (none, g)

  -- One round of the loop of `Serve`.
  unfoldable pub step : Event → Session → Outcome
  unfolding for_current
  step (tick now catalog) g =
      refresh l (publish_all l) (record g { clock = now; catalog = catalog })
  step (viewer_failed e) g = (some e, g)
  step (viewer_frame p) g = client l (publish_all l) p g
  step (stream_opened b) g = for_current b (stream_opened b) g
  step (publisher_frame b p) g = for_current b (publisher_frame b p) g
  step (publisher_failed b e) g = for_current b (publisher_failed b e) g

  -- The loop ends with an error.
  unless_ended : (Session → Session) → Outcome → Session
  unless_ended next (some _, g) = g
  unless_ended next (none, g) = next g

  -- The events in turn, up to one that ends the session.
  unfoldable pub run : List Event → Session → Session
  unfolding unless_ended
  run [] g = g
  run (e ∷ es) g = unless_ended (run es) (step e g)
