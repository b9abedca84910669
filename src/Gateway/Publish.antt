-- ===== src/Gateway/Publish.antt =====
-- Publishing, and what it sends to the publishers: hive/internal/gateway/interest.go, and gateway.go,
-- lines 405 to 479, 751 to 764 and 971 to 1004.
-- `publish` calls itself where a write to a publisher fails: on fuel, which each inner call takes
-- one of. An operation that may publish is given that call as the argument `publish`.
use herdr_hive.Base.{
  ℕ, zero, suc, ◌+◌, ◌-◌, ◌*◌, Bool, true, false, ◌||◌, ◌&&◌, not, Option, none, some, List, [],
  ◌∷◌, ◌++◌, ltb, leb, ◌==◌, if◌then◌else◌, Bytes, codes, length,
}
use herdr_hive.Base.Dict.{Dict, lookup, insert}
use herdr_hive.Base.Decimal.{decimal}
use herdr_hive.Json.{Value, StdLib, bool, str, obj, end, field, has_text}
use herdr_hive.Wire.Encode.{control}
use herdr_hive.Wire.Encode
use herdr_hive.Wire.Complete.{u64}
use herdr_hive.Gateway.{
  failure, native, unfinished, Session, Outcome, second, max_sources, max_internal_requests,
  operation_timeout, is_handle, is_some, put, is_current, write_down, write_up, ◌then_do◌,
}
use herdr_hive.Gateway.Recovery.{fail}
use herdr_hive.Gateway.Snapshot.{Publication, merged}
use herdr_hive.Gateway.Surface.{send_surface, snapshot_of}

abbrev pub interest_prefix : Bytes
interest_prefix = codes "hive:surface:"

abbrev pub request_prefix : Bytes
request_prefix = codes "hive:request:"

abbrev pub surface_set : Bytes
surface_set = codes "client_shell.surface.set"

lookup_tag : ℕ → List (ℕ × Bytes) → Option Bytes
lookup_tag t [] = none
lookup_tag t ((k, v) ∷ rest) = if k == t then some v else lookup_tag t rest

-- The effect to replay: that of the active backend, or the default.
unfoldable pub effect_of : Option ℕ → Session → ℕ → Bytes → Bytes
unfolding lookup_tag
effect_of none g tag default = default
effect_of (some b) g tag default = elim (lookup_tag tag (g.heap b).effects) [
  | none ↦ default
  | some p ↦ p
]

-- `replayEffects`
unfoldable pub replay_effects : Session → Outcome
unfolding effect_of
replay_effects g =
    if g.surface_active
    then (write_down (effect_of g.active g 6 (6 ∷ 0 ∷ [])) g then_do λ g1.
        (write_down (effect_of g.active g1 8 (8 ∷ 0 ∷ 0 ∷ [])) g1 then_do λ g2.
        write_down (effect_of g.active g2 17 (17 ∷ 0 ∷ [])) g2))
    else (none, g)

-- The text of a transition, and the frame that carries it.
interest_value : Bytes → Bool → Value
interest_value id active = obj (
    field (codes "id") (str id) (
      field (codes "method") (str surface_set)
        (field (codes "params") (obj (field (codes "active") (bool active) end)) end)))

unfoldable pub request_frame : StdLib → Bytes → Value → Bytes
request_frame l boot v = (15 ∷ Encode.str boot) ++ Encode.str (l.marshal v)

-- The pending transitions, which are the requests that no viewer made.
abbrev pub internal_requests : Session → ℕ
internal_requests g = length g.pending - length g.request_ids

module _ (l : StdLib) (publish : Session → Outcome) where
  -- `send` to a backend that is there.
  unfoldable pub send : ℕ → Bytes → Session → Outcome
  send b p g =
      let r = write_up b p g in
      let failed = publish (fail l b native g) in
      if not (g.heap b).has_stream
      then failed
      else elim r.0 [ none ↦ r | some e ↦ publish (fail l b e r.1) ]

  -- A transition that has its slot, up to its send.
  unfoldable pub begin_interest : ℕ → Bool → Session → Session
  begin_interest b active g =
      let n = u64 (g.interest_sequence + 1) in
      let id = interest_prefix ++ decimal n in
      record g {
        interest_sequence = n;
        pending = insert id b g.pending;
        deadlines = insert id (g.clock + operation_timeout) g.deadlines;
        heap = put g.heap b (record (g.heap b) {
          surface_active = active;
          render_ready = false;
          stable_since = none;
        });
      }

  unfoldable pub interest_frame : ℕ → Bool → Session → Bytes
  unfolding interest_value
  interest_frame b active g =
      request_frame l (g.heap b).boot
        (interest_value (interest_prefix ++ decimal (u64 (g.interest_sequence + 1))) active)

  unfoldable pub start_interest : ℕ → Bool → Session → Outcome
  start_interest b active g = send b (interest_frame b active g) (begin_interest b active g)

  -- The latest dimensions go before an activation.
  unfoldable pub sized : ℕ → Bool → Session → Outcome
  unfolding start_interest
  sized b active g =
      let rest = start_interest b active g in
      if active && ltb 0 (length g.resize)
      then (send b g.resize g then_do λ g1.
          (if is_current b g1 then start_interest b active g1 else (none, g1)))
      else rest

  -- `setInterest`
  unfoldable pub set_interest : ℕ → Bool → Session → Outcome
  unfolding sized
  set_interest b active g =
      let unsupported = publish (fail l b (failure false) g) in
      let started = sized b active g in
      if not (has_text surface_set (g.heap b).methods)
      then unsupported
      else if leb max_internal_requests (internal_requests g)
      then (none, g)
      else started

  -- A backend that holds the layout and should not.
  unfoldable pub must_yield : ℕ → Session → Bool
  must_yield b g =
      is_current b g
      && (g.heap b).surface_active
      && (not (is_handle g.active b) || not g.surface_active)

  -- After one deactivation: an error, a wait for a slot, or the next source.
  unfoldable pub after_yield : ℕ → (Session → Outcome) → Outcome → Outcome
  after_yield b next (some e, g) = (some e, g)
  after_yield b next (none, g) = if (g.heap b).surface_active then (none, g) else next g

  -- The sources in turn, and then `last`.
  unfoldable pub relinquish : Dict ℕ → (Session → Outcome) → Session → Outcome
  unfolding after_yield
  relinquish [] last g = last g
  relinquish ((id, b) ∷ rest) last g = elim (must_yield b g) [
    | true ↦ after_yield b (relinquish rest last) (set_interest b false g)
    | false ↦ relinquish rest last g
  ]

  unfoldable pub acquire_for : Option ℕ → Session → Outcome
  acquire_for none g = (none, g)
  acquire_for (some b) g =
      let s = g.heap b in
      let started = set_interest b true g in
      if g.surface_active && not s.surface_active && ltb 0 (length s.boot) && s.has_stream
      then started
      else (none, g)

  unfoldable pub acquire : Session → Outcome
  unfolding acquire_for
  acquire g = acquire_for g.active g

  -- `syncInterest`
  unfoldable pub sync_interest : Session → Outcome
  sync_interest g = relinquish g.sources acquire g

  ready_frame : Session → Bytes
  ready_frame g = control (codes "endpoint.presentation.ready.v1") g.fence

  unfoldable pub fence_for : Option ℕ → Session → Outcome
  unfolding ready_frame
  fence_for none g = write_down (ready_frame g) (record g { fence = []; fence_pending = false })
  fence_for (some b) g =
      let g1 = record g { fence_source = some b; fence_until = g.clock + 10 * second } in
      let sent = send b (control (codes "endpoint.presentation.sync.v1") g.fence) g1 in
      if g.surface_active && not (g.heap b).surface_active then (none, g) else sent

  -- `resumeFence`
  unfoldable pub resume_fence : Session → Outcome
  unfolding fence_for
  resume_fence g =
      let resumed = fence_for g.active g in
      if not g.fence_pending || is_some g.fence_source then (none, g) else resumed

-- `<` on strings, by bytes.
unfoldable pub bytes_lt : Bytes → Bytes → Bool
bytes_lt [] [] = false
bytes_lt [] (y ∷ ys) = true
bytes_lt (x ∷ xs) [] = false
bytes_lt (x ∷ xs) (y ∷ ys) = ltb x y || (x == y && bytes_lt xs ys)

unfoldable pub insert_sorted : Bytes → List Bytes → List Bytes
insert_sorted x [] = x ∷ []
insert_sorted x (y ∷ ys) = if bytes_lt y x then y ∷ insert_sorted x ys else x ∷ (y ∷ ys)

unfoldable pub has_snapshot : Session → Dict ℕ → List Bytes
unfolding insert_sorted
has_snapshot g [] = []
has_snapshot g ((id, b) ∷ rest) =
    let ids = has_snapshot g rest in
    if is_some (g.heap b).snapshot then insert_sorted id ids else ids

-- `snapshotIDs`
unfoldable pub snapshot_ids : Session → List Bytes
unfolding has_snapshot
snapshot_ids g = has_snapshot g g.sources

unfoldable pub publication : Session → ℕ → Publication
publication g b =
    let s = g.heap b in
    record {
      name = s.source.name;
      label = s.source.label;
      prefix = s.prefix;
      snapshot = snapshot_of s.snapshot;
      is_active = is_handle g.active b;
    }

publications : Session → List Bytes → List Publication
publications g [] = []
publications g (id ∷ ids) =
    let rest = publications g ids in
    elim (lookup id g.sources) [ none ↦ rest | some b ↦ publication g b ∷ rest ]

shown_fields : Session → Option ℕ → Option Publication
shown_fields g none = none
shown_fields g (some b) = some (publication g b)

-- The snapshot frame of a revision.
unfoldable pub snapshot_frame : StdLib → Session → Bytes
unfolding publications shown_fields
snapshot_frame l g = control (codes "shell.snapshot.v1") (
    l.marshal (
      obj (
        merged (shown_fields g g.active) (publications g (snapshot_ids g)) g.boot g.revision
          (ltb max_sources (length g.catalog)))))

-- The first source with a snapshot becomes active where none is.
unfoldable pub activate_first : Option ℕ → List Bytes → Session → Outcome
activate_first (some b) ids g = (none, g)
activate_first none [] g = (none, g)
activate_first none (id ∷ ids) g = replay_effects (record g { active = lookup id g.sources })

-- What `publish` does behind `syncInterest`.
unfoldable pub present : StdLib → (Session → Outcome) → Session → Outcome
present l publish g =
    let g1 = record g { revision = u64 (g.revision + 1) } in
    write_down (snapshot_frame l g1) g1 then_do λ g2.
    (send_surface l g2 then_do resume_fence l publish)

unfoldable pub publish_with : StdLib → (Session → Outcome) → Session → Outcome
unfolding activate_first
publish_with l publish g = activate_first g.active (snapshot_ids g) g then_do λ g1.
    (sync_interest l publish g1 then_do present l publish)

-- `publish`
unfoldable pub publish : StdLib → ℕ → Session → Outcome
publish l zero g = (some unfinished, g)
publish l (suc fuel) g = publish_with l (publish l fuel) g

-- `publish` with a unit of fuel more than there are sources.
unfoldable pub publish_all : StdLib → Session → Outcome
publish_all l g = publish l (length g.sources + 1) g
