-- ===== src/Gateway/Recovery.antt =====
-- Failures and their back-off: hive/internal/gateway/recovery.go, and `remove`, `response` and
-- `failure` of gateway.go, lines 222 to 250 and 729 to 742.
use herdr_hive.Base.{
  ℕ, ◌+◌, ◌-◌, ◌*◌, ◌^◌, Bool, true, false, ◌||◌, ◌&&◌, not, Option, none, some, [], ◌∷◌, ◌++◌, ltb,
  leb, ◌==◌, if◌then◌else◌, Bytes, bytes_eq, codes,
}
use herdr_hive.Base.Dict.{Dict, lookup, insert, delete}
use herdr_hive.Json.{Value, StdLib, end, field, str, obj}
use herdr_hive.Wire.Encode.{control}
use herdr_hive.Wire.Encode
use herdr_hive.Gateway.{
  RecoveryRecord, Error, wire, failure, Session, Outcome, second, recovery_stable_interval,
  is_handle, is_some, put, is_current, write_down,
}

-- `response`
unfoldable pub response : StdLib → Bytes → Value → Session → Outcome
response l id v g =
    write_down ((18 ∷ Encode.str g.boot) ++ (Encode.str id ++ (1 ∷ Encode.str (l.marshal v)))) g

-- The reply of `failure`.
unfoldable pub failure_value : Bytes → Bytes → Value
failure_value id message = obj (
    field (codes "id") (str id) (
      field (codes "error")
        (obj (
          field (codes "code") (str (codes "invalid_request"))
            (field (codes "message") (str message) end)))
        end))

-- `failure`
unfoldable pub fail_request : StdLib → Bytes → Bytes → Session → Outcome
fail_request l id message = response l id (failure_value id message)

-- `g.cancel()` where the reply could not be written.
unfoldable pub cancel_on_error : Outcome → Session
cancel_on_error (none, g) = g
cancel_on_error (some e, g) = record g { cancelled = true }

-- `if consumerID != "" && g.failure(...) != nil { g.cancel() }`
unfoldable pub tell_failure : StdLib → Option Bytes → Bytes → Session → Session
tell_failure l none message g = g
tell_failure l (some id) message g =
    if bytes_eq id [] then g else cancel_on_error (fail_request l id message g)

-- A request that is over.
unfoldable pub forget : Bytes → Session → Session
forget id g = record g {
  pending = delete id g.pending;
  deadlines = delete id g.deadlines;
  request_ids = delete id g.request_ids;
}

-- The loop of `remove` over the pending requests.
unfoldable pub drop_pending : StdLib → ℕ → Dict ℕ → Session → Session
drop_pending l b [] g = g
drop_pending l b ((id, target) ∷ rest) g = drop_pending l b rest (
    if target == b
    then tell_failure l (lookup id g.request_ids) (codes "sharing disconnected") (forget id g)
    else g)

-- The loop of `remove` over the retired requests.
unfoldable pub drop_retired : ℕ → Dict ℕ → Dict ℕ
drop_retired b [] = []
drop_retired b ((id, source) ∷ rest) =
    let kept = drop_retired b rest in if source == b then kept else (id, source) ∷ kept

-- `remove`; closing the stream twice does nothing more.
unfoldable pub remove : StdLib → ℕ → Session → Session
remove l b g =
    let g1 = record g {
      fence_source = if is_handle g.fence_source b then none else g.fence_source;
    } in
    let g2 = drop_pending l b g1.pending g1 in
    record g2 {
      retired = drop_retired b g2.retired;
      closed = b ∷ g2.closed;
      sources = delete (g2.heap b).source.id g2.sources;
      active = if is_handle g2.active b then none else g2.active;
    }

-- `errors.Is(err, errWire)`, or an `UpstreamFailure` that is not retryable.
unfoldable pub is_blocking : Error → Bool
is_blocking wire = true
is_blocking (failure retryable) = not retryable
is_blocking _ = false

unfoldable pub is_stable : Option ℕ → ℕ → Bool
is_stable none now = false
is_stable (some since) now = leb (since + recovery_stable_interval) now

-- `resetRecovery`
unfoldable pub reset_recovery : ℕ → Session → Session
reset_recovery b g =
    if is_stable (g.heap b).stable_since g.clock
    then record g { recovery = delete (g.heap b).source.id g.recovery }
    else g

-- The record that `fail` continues: that of this generation, or a new one.
unfoldable pub continued : Bytes → Option RecoveryRecord → RecoveryRecord
continued generation none = record {
  generation = generation;
  attempts = 0;
  retry_at = 0;
  blocked = false;
}
continued generation (some r) =
    if bytes_eq r.generation generation
    then r
    else record { generation = generation; attempts = 0; retry_at = 0; blocked = false }

-- The record after one more failure.
unfoldable pub penalized : Error → ℕ → RecoveryRecord → RecoveryRecord
penalized e now r =
    let attempts = if ltb r.attempts 5 then r.attempts + 1 else r.attempts in
    if is_blocking e then record r { blocked = true } else record r {
      blocked = false;
      attempts = attempts;
      retry_at = now + second * 2 ^ (attempts - 1);
    }

-- `fail`
unfoldable pub fail : StdLib → ℕ → Error → Session → Session
fail l b e g =
    let source = (g.heap b).source in
    let g1 = reset_recovery b g in
    let r = continued source.generation (lookup source.id g1.recovery) in
    if is_current b g
    then remove l b (record g1 { recovery = insert source.id (penalized e g.clock r) g1.recovery })
    else g

-- A pending transition, which is no ordinary request.
unfoldable pub in_transition : ℕ → Dict ℕ → Dict Bytes → Bool
in_transition b [] request_ids = false
in_transition b ((id, target) ∷ rest) request_ids =
    target == b && not (is_some (lookup id request_ids)) || in_transition b rest request_ids

-- `renderProgress`
unfoldable pub render_progress : ℕ → Session → Session
render_progress b g =
    let s = g.heap b in
    if not s.surface_active || not s.render_ready || not (is_some s.snapshot)
    then g
    else if in_transition b g.pending g.request_ids
    then g
    else if is_some s.stable_since
    then g
    else record g { heap = put g.heap b (record s { stable_since = some g.clock }) }
