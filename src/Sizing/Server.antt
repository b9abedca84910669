-- ===== src/Sizing/Server.antt =====
-- What a frame of the session does on its way to the viewer: `serverFrame`,
-- bee/internal/herdr/sizing.go, 848-949. Closing `firstReady` is the transport's.
use herdr_hive.Base.{
  ℕ, ◌++◌, ◌==◌, true, false, ◌&&◌, ◌||◌, not, Option, none, some, [], ◌∷◌, ltb, if◌then◌else◌,
  Bytes, bytes_eq, codes, length, starts_with,
}
use herdr_hive.Base.Decimal.{decimal}
use herdr_hive.Base.Dict.{Dict, lookup, insert, delete}
use herdr_hive.Relay.{WireDecoder, read_number, read_text, take_bytes}
use herdr_hive.Sizing.Locks.{Sizing}
use herdr_hive.Sizing.Panes.{Snapshot, SizeError}
use herdr_hive.Sizing.Panes.SizeError.{native_protocol}
use herdr_hive.Sizing.View.{View, Navigation, settle_navigation}
use herdr_hive.Sizing.Acquire.{Native, reconcile}
use herdr_hive.Sizing.Client.{
  Codec, Response, Outcome, pass, swallow, failed, Handled, internal_prefix, two_texts,
  after_reconcile, surface_request,
}

-- A response: `boot`, `id`, the byte `final` and the text.
pub record Reply : Type 0 where
  pub boot : Bytes
  pub id : Bytes
  pub final : ℕ
  pub payload : Bytes

unfoldable pub reply_of : Bytes → Bytes → Bytes → Bytes → Option Reply
reply_of boot id [] payload = none
reply_of boot id (b ∷ _) payload =
    some (record { boot = boot; id = id; final = b; payload = payload })

unfoldable pub read_reply : WireDecoder → Option Reply
unfolding reply_of
read_reply d =
    let boot = read_text d in
    let id = read_text boot.1 in
    let final = take_bytes 1 id.1 in
    let payload = read_text final.1 in
    if payload.1.failed then none else reply_of boot.0 id.0 final.0 payload.0

abbrev pub nav_prefix : Bytes
nav_prefix = codes "bee-sizing:nav:"

unfoldable pub nav_id : ℕ → Bytes
nav_id seq = nav_prefix ++ decimal seq

-- The navigation that the barrier was sent for gets its floor.
unfoldable pub set_floor : Bytes → ℕ → Dict Navigation → Dict Navigation
set_floor id revision [] = []
set_floor id revision ((k, n) ∷ pending) =
    (k, if bytes_eq id (nav_id n.seq) then record n { floor = revision } else n)
    ∷ set_floor id revision pending

unfoldable pub barrier : Bytes → Response → View → View
barrier id r v =
    if starts_with nav_prefix id
    then settle_navigation (record v { pending = set_floor id r.revision v.pending })
    else v

unfoldable pub stop_at : SizeError → Sizing → View → Handled
stop_at e s v = record { sizing = s; view = v; sent = []; outcome = failed e }

unfoldable pub hand_on : Outcome → Handled → Handled
hand_on o h = record h { outcome = o }

-- A reply to a request that the viewer did not make never goes on.
unfoldable pub internal_reply : Native → Sizing → View → Reply → Option Response → Handled
unfolding stop_at hand_on barrier
internal_reply n s v r none = stop_at native_protocol s v
internal_reply n s v r (some answer) =
    if not (r.final == 1) || ltb 0 (length answer.error)
    then stop_at native_protocol s v
    else after_reconcile (hand_on swallow) (reconcile n s (barrier r.id answer v))

unfoldable pub acknowledge : View → Bytes → Navigation → View
acknowledge v id n = record v { pending = insert id (record n { ack = true }) v.pending }

-- The pending navigation of a reply; the frame to write, if there is one.
unfoldable pub navigated : Codec → View → Bytes → Bytes → Option Navigation → View × Option Bytes
unfolding acknowledge
navigated c v id error none = (v, none)
navigated c v id error (some n) =
    if ltb 0 (length error) then (record v { pending = delete id v.pending }, none) else (
      acknowledge v id n,
      if v.requested_active then some (surface_request c v (nav_id n.seq) true) else none,
    )

-- The pending hide of a reply.
unfoldable pub hidden : View → Bytes → Bytes → Option ℕ → View
hidden v id error none = v
hidden v id error (some generation) =
    let shown = record v { hide = delete id v.hide } in
    if not (ltb 0 (length error)) && generation == v.activity
    then record shown { active = false; pending = [] }
    else shown

unfoldable pub finish_reply : Native → Sizing → View → Bytes → Bytes → Bytes → Handled → Handled
unfolding hand_on hidden
finish_reply n s v p id error h =
    let settled = settle_navigation (hidden v id error (lookup id v.hide)) in
    let done = after_reconcile (hand_on (pass p)) (reconcile n s settled) in
    record done { sent = h.sent }

-- `up` is whether and how a write to the session fails.
unfoldable pub after_navigated :
    (Bytes → Option SizeError)
    → Native
    → Sizing
    → Bytes
    → Bytes
    → Bytes
    → View × Option Bytes
    → Handled
unfolding stop_at finish_reply
after_navigated up n s p id error (v, none) =
    finish_reply n s v p id error (record { sizing = s; view = v; sent = []; outcome = swallow })
after_navigated up n s p id error (v, some frame) = elim (up frame) [
  | some e ↦ stop_at e s v
  | none ↦
      finish_reply n s v p id error
        (record { sizing = s; view = v; sent = frame ∷ []; outcome = swallow })
]

unfoldable pub own_reply :
    Codec
    → (Bytes → Option SizeError)
    → Native
    → Sizing
    → View
    → Bytes
    → Bytes
    → Option Bytes
    → Handled
unfolding hand_on navigated after_navigated
own_reply c up n s v p id none = after_reconcile (hand_on (pass p)) (reconcile n s v)
own_reply c up n s v p id (some error) =
    after_navigated up n s p id error (navigated c v id error (lookup id v.pending))

unfoldable pub reply_frame :
    Codec → (Bytes → Option SizeError) → Native → Sizing → View → Bytes → Option Reply → Handled
unfolding stop_at hand_on internal_reply own_reply
reply_frame c up n s v p none = stop_at native_protocol s v
reply_frame c up n s v p (some r) =
    if not (bytes_eq r.boot v.snapshot.boot)
    then record { sizing = s; view = v; sent = []; outcome = pass p }
    else if starts_with internal_prefix r.id
    then internal_reply n s v r (c.response r.payload)
    else if r.final == 1
    then own_reply c up n s v p r.id (c.response_error r.payload)
    else after_reconcile (hand_on (pass p)) (reconcile n s v)

-- The first snapshot pins the tab; then the shell is activated.
unfoldable pub activate : Codec → (Bytes → Option SizeError) → Bytes → Handled → Handled
unfolding hand_on
activate c up p h =
    let frame = surface_request c h.view (codes "bee-sizing:activate") true in
    let ready = record h { view = record (h.view) { initial = false } } in
    if not h.view.initial
    then hand_on (pass p) h
    else if not h.view.active
    then hand_on (pass p) ready
    else elim (up frame) [
      | some e ↦ hand_on (failed e) ready
      | none ↦ record ready { sent = frame ∷ []; outcome = pass p }
    ]

unfoldable pub show_snapshot :
    Codec → (Bytes → Option SizeError) → Native → Sizing → View → Bytes → Option Snapshot → Handled
unfolding stop_at activate
show_snapshot c up n s v p none = stop_at native_protocol s v
show_snapshot c up n s v p (some snapshot) =
    if bytes_eq v.snapshot.boot snapshot.boot && ltb snapshot.revision v.snapshot.revision
    then record { sizing = s; view = v; sent = []; outcome = pass p }
    else after_reconcile (activate c up p)
        (reconcile n s (settle_navigation (record v { snapshot = snapshot; catalog_seen = false })))

unfoldable pub server_control :
    Codec
    → (Bytes → Option SizeError)
    → Native
    → Sizing
    → View
    → Bytes
    → Option (Bytes × Bytes)
    → Handled
unfolding stop_at show_snapshot
server_control c up n s v p none = stop_at native_protocol s v
server_control c up n s v p (some (kind, payload)) =
    if bytes_eq kind (codes "shell.snapshot.v1")
    then show_snapshot c up n s v p (c.snapshot payload)
    else record { sizing = s; view = v; sent = []; outcome = pass p }

-- `serverFrame`
unfoldable pub server_frame :
    Codec → (Bytes → Option SizeError) → Native → Sizing → View → Bytes → Handled
unfolding read_reply reply_frame server_control
server_frame c up n s v p =
    let r = read_number (record { payload = p; failed = false }) in
    if r.0 == 18
    then reply_frame c up n s v p (read_reply r.1)
    else if r.0 == 20
    then server_control c up n s v p (two_texts r.1)
    else record { sizing = s; view = v; sent = []; outcome = pass p }
