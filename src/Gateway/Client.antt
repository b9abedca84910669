-- ===== src/Gateway/Client.antt =====
-- A frame from the viewer: `client` of hive/internal/gateway/gateway.go, lines 765 to 942, and
-- `resolve`. The renaming closure of a request changes two variables; here the identifiers of the
-- request are listed in `Ids`, and the target and the renaming are computed from the list.
pub mod Targets
pub mod Handles
use herdr_hive.Base.{
  starts_with, ℕ, zero, suc, ◌+◌, ◌-◌, Bool, true, false, ◌||◌, ◌&&◌, not, Option, none, some, List,
  [], ◌∷◌, ◌++◌, ltb, leb, ◌==◌, if◌then◌else◌, Bytes, bytes_eq, codes, length, drop,
}
use herdr_hive.Base.Dict.{Dict, lookup, insert}
use herdr_hive.Base.Decimal.{decimal}
use herdr_hive.Json
use herdr_hive.Json.{
  Value, Items, Fields, StdLib, nil, cons, end, field, str, obj, bool, array, get, set, member,
  string_val, is_null, is_id, has_text, transform,
}
use herdr_hive.Wire.Encode.{number, control}
use herdr_hive.Wire.Encode
use herdr_hive.Wire.Decoder.{Decoder, decoder, M, ◌>>=◌, pure, num, text}
use herdr_hive.Wire.Codec.{is_empty}
use herdr_hive.Wire.Complete.{max_u64}
use herdr_hive.Gateway.{
  Error, wire, eof, Session, Outcome, max_requests, operation_timeout, is_handle, is_some,
  is_current, write_down, ◌then_do◌,
}
use herdr_hive.Gateway.Recovery.{response, fail_request}
use herdr_hive.Gateway.Surface.{blank_surface}
use herdr_hive.Gateway.Publish.{request_prefix, surface_set, send, resume_fence, replay_effects}
use herdr_hive.Gateway.Handshake.{resize_of, flag}
use herdr_hive.Gateway.Values.{allowed_method, ready_kind}

-- `resolve`: the backend that an identifier of the viewer names, and its name there.
unfoldable pub resolve_in : Dict ℕ → Session → Bytes → Option (ℕ × Bytes)
resolve_in [] g id = none
resolve_in ((key, _) ∷ rest) g id =
    let next = resolve_in rest g id in
    elim (lookup key g.sources) [
      | none ↦ next
      | some b ↦
          let prefix = (g.heap b).prefix in
          if not (is_empty prefix) && starts_with prefix id
          then some (b, drop (length prefix) id)
          else next
    ]

unfoldable pub resolve : Session → Bytes → Option (ℕ × Bytes)
resolve g id = resolve_in g.sources g id

-- The identifiers to which `transform` applies its function.
unfoldable pub order_ids : Items → List Bytes → List Bytes
order_ids nil ids = ids
order_ids (cons x xs) ids = string_val x ∷ order_ids xs ids

unfoldable mutual
  pub ids : Value → List Bytes
  ids (Json.arr xs) = ids_items xs
  ids (obj fs) = ids_fields fs
  ids _ = []

  pub ids_items : Items → List Bytes
  ids_items nil = []
  ids_items (cons x xs) = ids x ++ ids_items xs

  pub ids_fields : Fields → List Bytes
  ids_fields end = []
  ids_fields (field k v fs) =
      (if is_id k && not (is_null v)
        then string_val v ∷ []
        else if bytes_eq k (codes "agent_order")
        then order_ids (array v) []
        else ids v)
      ++ ids_fields fs

local_name : Option (ℕ × Bytes) → Bytes
local_name none = []
local_name (some (b, local)) = local

-- One identifier of a request: the target so far, or `none` where the request is invalid.
unfoldable pub aim : Option ℕ → Option (ℕ × Bytes) → Option (Option ℕ)
aim target none = none
aim none (some (b, local)) = some (some b)
aim (some t) (some (b, local)) = if t == b then some (some b) else none

-- The one backend that all of the identifiers name.
unfoldable pub target_of : Session → List Bytes → Option ℕ → Option (Option ℕ)
unfolding aim
target_of g [] target = some target
target_of g (id ∷ rest) target = elim (aim target (resolve g id)) [
  | none ↦ none
  | some found ↦ target_of g rest found
]

has_value : Bytes → Dict Bytes → Bool
has_value v [] = false
has_value v ((k, x) ∷ rest) = bytes_eq x v || has_value v rest

unfoldable pub ends_with : Bytes → Bytes → Bool
ends_with suffix s =
    leb (length suffix) (length s) && bytes_eq (drop (length s - length suffix) s) suffix

surface_reply : Bytes → Bool → ℕ → Value
surface_reply id active revision = obj (
    field (codes "id") (str id) (
      field (codes "result")
        (obj (
          field (codes "type") (str (codes "client_shell_surface_set")) (
            field (codes "active") (bool active)
              (field (codes "projection_revision") (Json.num revision) end))))
        end))

request_fields : M (Bytes × Bytes)
request_fields = do boot ← text; request ← text; pure (boot, request)

module _ (l : StdLib) (publish : Session → Outcome) where
  -- Presentation fences and health checks.
  unfoldable pub client_control : Bytes → Bytes → Session → Outcome
  client_control kind p g =
      let resumed =
        resume_fence l publish
          (record g { fence = p; fence_pending = true; fence_source = none }) in
      if bytes_eq kind (codes "endpoint.presentation.sync.v1")
      then (if ltb 4096 (length p)
          then (some wire, g)
          else if not (is_some g.active)
          then write_down (control ready_kind p) g
          else if g.fence_pending
          then (some wire, g)
          else resumed)
      else if bytes_eq kind (codes "endpoint.health.ping.v1")
      then write_down (control (codes "endpoint.health.pong.v1") p) g
      else (none, g)

  -- Input for what an identifier names, behind `head`, with the rest of its frame.
  send_input : Bytes → Option (ℕ × Bytes) → Bytes → Session → Outcome
  send_input head none rest g = (none, g)
  send_input head (some (b, local)) rest g =
      let sent = send l publish b (head ++ (Encode.str local ++ rest)) g in
      if is_handle g.active b && g.surface_active then sent else (none, g)

  unfoldable pub client_input : Bytes → Decoder → Session → Outcome
  unfolding send_input
  client_input head d g = let id = text d in send_input head (resolve g id.0) id.1.rest g

  set_surface : Bytes → Option Bool → Session → Outcome
  unfolding surface_reply
  set_surface id none g = fail_request l id (codes "active must be boolean") g
  set_surface id (some active) g =
      let g1 = record g { surface_active = active } in
      let replayed = replay_effects g1 in
      ((if active then replayed else (none, g1)) then_do publish) then_do λ g2.
      response l id (surface_reply id active g2.revision) g2

  -- A request for `target`, from the check of the sources on.
  forward_request : Bytes → Fields → ℕ → Session → Outcome
  forward_request id v target g =
      let n = g.request_sequence + 1 in
      let wire_id = request_prefix ++ decimal n in
      let g1 = record g {
        request_sequence = n;
        pending = insert wire_id target g.pending;
        request_ids = insert wire_id id g.request_ids;
        deadlines = insert wire_id (g.clock + operation_timeout) g.deadlines;
      } in
      let request = l.marshal (obj (set (codes "id") (str wire_id) v)) in
      let sent =
        send l publish target ((15 ∷ Encode.str (g.heap target).boot) ++ Encode.str request) g1 in
      if not (is_current target g)
      then fail_request l id (codes "sharing disconnected") g
      else if g.request_sequence == max_u64
      then fail_request l id (codes "request identity space exhausted") g
      else sent

  -- The checks of the target, and its activation where the request gives it the focus.
  aimed : Bytes → Bytes → Fields → Option ℕ → Session → Outcome
  unfolding forward_request
  aimed id method v none g = fail_request l id (codes "operation unavailable on this sharing") g
  aimed id method v (some target) g =
      let focused =
        (replay_effects (record g { active = some target }) then_do publish)
        then_do forward_request id v target in
      let direct = forward_request id v target g in
      if not (has_text method (g.heap target).methods)
      then fail_request l id (codes "operation unavailable on this sharing") g
      else if leb max_requests (length g.request_ids + length g.retired)
      then fail_request l id (codes "too many outstanding or expired operations") g
      else if ends_with (codes ".focus") method && not (is_handle g.active target)
      then focused
      else direct

  or_active : Option ℕ → Session → Option ℕ
  or_active none g = g.active
  or_active (some target) g = some target

  route : Bytes → Bytes → Fields → Option (Option ℕ) → Session → Outcome
  unfolding aimed or_active
  route id method v none g = fail_request l id (codes "unknown or mixed sharing targets") g
  route id method v (some target) g = aimed id method v (or_active target g) g

  local_fields : Session → Fields → Fields
  unfolding local_name
  local_fields g v = Json.transform_fields (λ id. local_name (resolve g id)) v

  -- A request of the viewer whose text is an object.
  unfoldable pub client_object : Bytes → Fields → Session → Outcome
  unfolding has_value set_surface route local_fields
  client_object boot v g =
      let id = string_val (get (codes "id") v) in
      let method = string_val (get (codes "method") v) in
      let set_it = set_surface id (flag (member (codes "active") (get (codes "params") v))) g in
      let routed = route id method (local_fields g v) (target_of g (ids (obj v)) none) g in
      if is_empty id || ltb 128 (length id)
      then (some wire, g)
      else if has_value id g.request_ids
      then (some wire, g)
      else if not (bytes_eq boot g.boot)
      then fail_request l id (codes "stale Hive endpoint") g
      else if bytes_eq method surface_set
      then set_it
      else if not (allowed_method method)
      then fail_request l id (codes "operation is not supported by the Hive gateway") g
      else routed

  client_request : Bytes → Option Value → Session → Outcome
  client_request boot (some (obj v)) g = client_object boot v g
  client_request boot _ g = (some wire, g)

  -- Tag 12.
  resized : Bytes → Option (ℕ × ℕ) → Session → Outcome
  resized p none g = (some wire, g)
  resized p (some (cols, rows)) g =
      let g1 = record g { cols = cols; rows = rows; resize = p } in
      elim g1.active [
        | none ↦ blank_surface g1
        | some b ↦ elim g1.surface_active [
          | true ↦ send l publish b p g1
          | false ↦ blank_surface g1
        ]
      ]

  -- Tags 17 and 19: to every source that has a stream.
  unfoldable pub broadcast : Bytes → Dict ℕ → Session → Outcome
  broadcast p [] g = if is_some g.active then (none, g) else blank_surface g
  broadcast p ((id, b) ∷ rest) g = elim (is_current b g && (g.heap b).has_stream) [
    | true ↦ send l publish b p g then_do broadcast p rest
    | false ↦ broadcast p rest g
  ]

  send_to : Option ℕ → Bytes → Session → Outcome
  send_to none p g = (none, g)
  send_to (some b) p g = send l publish b p g

  -- `client`
  unfoldable pub client : Bytes → Session → Outcome
  unfolding request_fields client_request resized send_to
  client p g =
      let t = num (decoder p) in
      let kind = text t.1 in
      let payload = text kind.1 in
      let controlled = client_control kind.0 payload.0 g in
      let input = client_input (number t.0) t.1 g in
      let target = num t.1 in
      let aimed_input = client_input (number t.0 ++ number target.0) target.1 g in
      let r = request_fields t.1 in
      let requested = client_request r.0.0 (l.unmarshal r.0.1) g in
      let resize = resized p (resize_of t.1) g in
      let all = broadcast p g.sources g in
      let forwarded = send_to g.active p g in
      if t.0 == 20
      then (if payload.1.failed then (some wire, g) else controlled)
      else if t.0 == 13 || t.0 == 14
      then input
      else if t.0 == 2
      then (if target.0 == 1 || target.0 == 2 then aimed_input else (none, g))
      else if t.0 == 15
      then (if r.1.failed || not (is_empty r.1.rest) then (some wire, g) else requested)
      else if t.0 == 12
      then resize
      else if t.0 == 17 || t.0 == 19
      then all
      else if t.0 == 18
      then forwarded
      else if t.0 == 4
      then (some eof, g)
      else (some wire, g)
