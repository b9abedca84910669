-- ===== src/Gateway.antt =====
-- The state of one viewer's session: hive/internal/gateway/gateway.go, lines 17 to 93, and recovery.go.
-- Backends are pointers: a handle is a number, and `heap` gives what it points to. The time is the
-- field `clock`, in nanoseconds, which does not change while one event is handled. What is written
-- is kept in order; `faults` says of each coming write whether the stream fails it.
pub mod Recovery
pub mod Snapshot
pub mod Surface
pub mod Publish
pub mod Handshake
pub mod Values
pub mod Server
pub mod Client
pub mod Refresh
pub mod Sound
pub mod Alike
pub mod Ends
pub mod Changes
pub mod Backoff
use herdr_hive.Base.{
  ℕ, ◌+◌, ◌*◌, Bool, true, false, ◌||◌, ◌&&◌, not, Option, none, some, List, [], ◌∷◌, ◌++◌, ltb,
  leb, ◌==◌, if◌then◌else◌, Bytes, bytes_eq, codes, length,
}
use herdr_hive.Base.Dict.{Dict, lookup, insert, delete}
use herdr_hive.Json.{Value}
use herdr_hive.Wire.Encode.{max_frame}
use herdr_hive.Wire.Complete.{CompleteSurface}

abbrev pub max_sources : ℕ
max_sources = 8

abbrev pub second : ℕ
second = 1_000_000_000

abbrev pub initialization_timeout : ℕ
initialization_timeout = 10 * second

abbrev pub operation_timeout : ℕ
operation_timeout = 30 * second

abbrev pub max_requests : ℕ
max_requests = 64

abbrev pub max_internal_requests : ℕ
max_internal_requests = 2 * max_sources

abbrev pub recovery_stable_interval : ℕ
recovery_stable_interval = 10 * second

pub record Source : Type 0 where
  pub id : Bytes
  pub name : Bytes
  pub label : Bytes
  pub generation : Bytes

-- The zero time and a `nil` map are `none`.
pub record Backend : Type 0 where
  pub effects : List (ℕ × Bytes)
  pub welcomed : Bool
  pub surface_active : Bool
  pub source : Source
  pub has_stream : Bool
  pub boot : Bytes
  pub prefix : Bytes
  pub snapshot : Option Value
  pub methods : List Bytes
  pub frame : CompleteSurface
  pub chunks : Dict Bytes
  pub initialize_by : Option ℕ
  pub render_ready : Bool
  pub stable_since : Option ℕ

-- `recoveryRecord`
pub record RecoveryRecord : Type 0 where
  pub generation : Bytes
  pub attempts : ℕ
  pub retry_at : ℕ
  pub blocked : Bool

-- `errWire`, an `UpstreamFailure`, an `upstreamError`, the error of a stream, and the refusals of
-- the gateway itself.
pub data Error : Type 0 where
  wire : Error
  failure : Bool → Error
  native : Error
  stream : Error
  offline : Error
  eof : Error
  -- The model's own: the fuel of `publish` ran out.
  unfinished : Error

pub record Session : Type 0 where
  pub clock : ℕ
  pub catalog : List Source
  pub next : ℕ
  pub heap : ℕ → Backend
  pub sources : Dict ℕ
  pub recovery : Dict RecoveryRecord
  pub active : Option ℕ
  pub boot : Bytes
  pub revision : ℕ
  pub hello : Bytes
  pub resize : Bytes
  pub surface_active : Bool
  pub surface_revision : ℕ
  pub interest_sequence : ℕ
  pub pending : Dict ℕ
  pub fence : Bytes
  pub fence_pending : Bool
  pub fence_source : Option ℕ
  pub fence_until : ℕ
  pub deadlines : Dict ℕ
  pub cols : ℕ
  pub rows : ℕ
  pub request_sequence : ℕ
  pub request_ids : Dict Bytes
  pub retired : Dict ℕ
  pub rendered_source : Option ℕ
  pub rendered_revision : ℕ
  pub rendered_surface : ℕ
  pub rendered_project : ℕ
  pub cancelled : Bool
  pub closed : List ℕ
  pub down : List Bytes
  pub up : List (ℕ × Bytes)
  pub faults : List Bool

abbrev pub Outcome : Type 0
Outcome = Option Error × Session

abbrev pub is_handle : Option ℕ → ℕ → Bool
is_handle none b = false
is_handle (some a) b = a == b

abbrev pub is_some {ℓ} : {A : Type ℓ} → Option A → Bool
is_some none = false
is_some (some _) = true

-- A change of one backend.
abbrev pub put : (ℕ → Backend) → ℕ → Backend → ℕ → Backend
put heap b new k = if k == b then new else heap k

-- `g.sources[b.source.ID] == b`
unfoldable pub is_current : ℕ → Session → Bool
is_current b g = is_handle (lookup (g.heap b).source.id g.sources) b

-- The next write to a stream: whether it fails, and the faults that are left.
next_fault : List Bool → Bool × List Bool
next_fault [] = (false, [])
next_fault (f ∷ fs) = (f, fs)

-- `Write(g.out, p)`
unfoldable pub write_down : Bytes → Session → Outcome
unfolding next_fault
write_down p g =
    let f = next_fault g.faults in
    if length p == 0 || ltb max_frame (length p)
    then (some wire, g)
    else if f.0
    then (some stream, record g { faults = f.1 })
    else (none, record g { faults = f.1; down = g.down ++ p ∷ [] })

-- `Write(b.stream, p)`
unfoldable pub write_up : ℕ → Bytes → Session → Outcome
unfolding next_fault
write_up b p g =
    let f = next_fault g.faults in
    if length p == 0 || ltb max_frame (length p)
    then (some wire, g)
    else if f.0
    then (some stream, record g { faults = f.1 })
    else (none, record g { faults = f.1; up = g.up ++ (b, p) ∷ [] })

-- `if e := m; e != nil { return e }`, and what follows.
infixl 5 ◌then_do◌
unfoldable pub ◌then_do◌ : Outcome → (Session → Outcome) → Outcome
(some e, g) then_do k = (some e, g)
(none, g) then_do k = k g
