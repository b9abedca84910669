-- ===== src/Gateway/Server.antt =====
-- A frame from a publisher: `server` of hive/internal/gateway/gateway.go, lines 550 to 728.
pub mod Handles
use herdr_hive.Base.{
  starts_with, ℕ, zero, suc, ◌+◌, ◌/◌, ◌%◌, Bool, true, false, ◌||◌, ◌&&◌, not, Option, none, some,
  List, [], ◌∷◌, ◌++◌, ltb, leb, ◌==◌, if◌then◌else◌, Bytes, bytes_eq, codes, length, take,
}
use herdr_hive.Base.Dict.{Dict, lookup, insert, delete}
use herdr_hive.Json.{
  Value, Items, Fields, StdLib, nil, cons, obj, str, array, get, set, string_val, is_null, has_text,
  transform,
}
use herdr_hive.Wire.Encode.{max_frame, control}
use herdr_hive.Wire.Decoder.{Decoder, decoder, M, ◌>>=◌, pure, num, text, raw}
use herdr_hive.Wire.Codec.{is_empty, sideband, surface, notification}
use herdr_hive.Wire.Complete.{CompleteSurface, keep}
use herdr_hive.Wire.Complete.Update.{update}
use herdr_hive.Gateway.{
  Source, Backend, Error, failure, native, Session, Outcome, max_requests, max_internal_requests,
  is_handle, is_some, put, write_down, ◌then_do◌,
}
use herdr_hive.Gateway.Recovery.{response, forget, render_progress}
use herdr_hive.Gateway.Surface.{projection_of, blank_surface, send_surface, send_patch}
use herdr_hive.Gateway.Publish.{sync_interest, resume_fence}
use herdr_hive.Gateway.Handshake.{valid_welcome}
use herdr_hive.Gateway.Values.{
  supported_methods, allowed_method, protocol_failure, ready_kind, change, hex_digit, hex,
  prefix_of, add_methods, keep_effect, is_missing, content, total_length, chunk_fields, is_final,
}

module _ (l : StdLib) (publish : Session → Outcome) (b : ℕ) where
  unfoldable pub receive_welcome : Fields → Session → Outcome
  receive_welcome v g =
      let s = g.heap b in
      if s.welcomed
      then (some protocol_failure, g)
      else if not (valid_welcome v)
      then (some protocol_failure, g)
      else (
        none,
        change b
            (λ s. record s {
              welcomed = true;
              methods = add_methods (array (get (codes "methods") v)) s.methods;
            })
            g,
      )

  unfoldable pub receive_snapshot : Fields → Session → Outcome
  receive_snapshot v g =
      let s = g.heap b in
      let boot = string_val (get (codes "boot_id") v) in
      let shown = publish (
        change b
          (λ s. record s {
            boot = boot;
            prefix = prefix_of l s.source boot;
            snapshot = some (obj v);
            initialize_by = none;
          })
          g) in
      if not s.welcomed
        || is_empty boot
        || ltb 128 (length boot)
        || (not (is_empty s.boot) && not (bytes_eq s.boot boot))
      then (some protocol_failure, g)
      else shown

  receive_object : Bytes → Option Value → Session → Outcome
  receive_object kind (some (obj v)) g =
      let shown = receive_snapshot v g in
      if bytes_eq kind (codes "endpoint.welcome.v1") then receive_welcome v g else shown
  receive_object kind _ g = (some protocol_failure, g)

  -- A control frame of the kind `kind`.
  unfoldable pub receive_control : Bytes → Bytes → Session → Outcome
  unfolding receive_object
  receive_control kind p g =
      let parsed = receive_object kind (l.unmarshal p) g in
      if bytes_eq kind ready_kind
      then (if is_handle g.fence_source b && bytes_eq p g.fence
          then write_down (control kind p)
              (record g { fence = []; fence_pending = false; fence_source = none })
          else (none, g))
      else if not (bytes_eq kind (codes "endpoint.welcome.v1"))
          && not (bytes_eq kind (codes "shell.snapshot.v1"))
      then (if starts_with (codes "endpoint.surface-") kind
            || starts_with (codes "shell.surface.") kind
            || starts_with (codes "shell.snapshot.") kind
          then (some protocol_failure, g)
          else (none, g))
      else if ltb 262144 (length p)
      then (some protocol_failure, g)
      else parsed

  -- The surface is ready to be rendered if it belongs to the snapshot.
  unfoldable pub note_render : ℕ → Session → Session
  note_render projection g =
      let s = g.heap b in
      if s.surface_active && projection == projection_of l s
      then render_progress b (change b (λ s. record s { render_ready = true }) g)
      else g

  -- A frame that was retained is shown: as a patch, in full, or as a blank screen.
  unfoldable pub show_frame : ℕ → Bytes → Session → Outcome
  show_frame tag p g =
      if tag == 19 && is_handle g.active b
      then send_patch l b p g
      else if is_handle g.active b
      then send_surface l g
      else if not (is_some g.active)
      then blank_surface g
      else (none, g)

  retain : ℕ → ℕ → Bytes → CompleteSurface × Bool → Session → Outcome
  retain tag projection p (frame, false) g =
      (some protocol_failure, change b (λ s. record s { frame = frame }) g)
  retain tag projection p (frame, true) g =
      show_frame tag p (note_render projection (change b (λ s. record s { frame = frame }) g))

  -- Tags 13 and 19, behind the tag.
  unfoldable pub receive_surface : ℕ → Bytes → Decoder → Session → Outcome
  unfolding retain
  receive_surface tag p d g =
      let s = g.heap b in
      let boot = text d in
      if not s.welcomed || not (is_some s.snapshot)
      then (some protocol_failure, g)
      else if not (bytes_eq boot.0 s.boot) || boot.1.failed
      then (some protocol_failure, g)
      else if not (is_some (surface p g.boot g.revision keep))
      then (some protocol_failure, g)
      else retain tag (num boot.1).0 p (update s.frame p) g

  -- The reply to a request of the viewer.
  answer : Bytes → Value → Session → Outcome
  answer consumer (obj v) g = response l consumer (obj (set (codes "id") (str consumer) v)) g
  answer consumer _ g = (some protocol_failure, g)

  is_rejection : Value → Bool
  is_rejection (obj v) = not (is_null (get (codes "error") v))
  is_rejection _ = true

  finish_request : Option Bytes → Option Value → Session → Outcome
  unfolding answer is_rejection
  finish_request consumer none g = (some protocol_failure, g)
  finish_request none (some v) g =
      let resumed = sync_interest l publish (render_progress b g) then_do resume_fence l publish in
      if is_rejection v then (some native, g) else resumed
  finish_request (some consumer) (some v) g =
      answer consumer (transform (λ id. (g.heap b).prefix ++ id) v) g

  -- A chunk of a request that is pending.
  unfoldable pub receive_chunk : Bytes → Bool → Bytes → Session → Outcome
  unfolding is_missing content total_length finish_request
  receive_chunk id final p g =
      let chunks = (g.heap b).chunks in
      let old = lookup id chunks in
      let whole = content old ++ p in
      let g1 = change b (λ s. record s { chunks = insert id whole chunks }) g in
      let g2 = forget id (change b (λ s. record s { chunks = delete id chunks }) g) in
      let finished = finish_request (lookup id g.request_ids) (l.unmarshal whole) g2 in
      if ltb max_frame (length p + total_length chunks)
        || (is_missing old && leb (max_requests + max_internal_requests) (length chunks))
      then (some protocol_failure, g)
      else if not final
      then (none, g1)
      else finished

  receive_for : Bytes → Bool → Bytes → Option ℕ → Session → Outcome
  receive_for id final p (some source) g =
      if not (source == b)
      then (some protocol_failure, g)
      else (none, if final then record g { retired = delete id g.retired } else g)
  receive_for id final p none g =
      let received = receive_chunk id final p g in
      if is_handle (lookup id g.pending) b then received else (some protocol_failure, g)

  receive_marked : Bytes → Option Bool → Bytes → Session → Outcome
  unfolding receive_for
  receive_marked id none p g = (some protocol_failure, g)
  receive_marked id (some final) p g = receive_for id final p (lookup id g.retired) g

  -- Tag 18, behind the tag.
  unfoldable pub receive_response : Decoder → Session → Outcome
  unfolding receive_marked is_final
  receive_response d g =
      let r = chunk_fields d in
      let received = receive_marked r.0.1 (is_final r.0.2) r.0.3 g in
      if r.1.failed || not (is_empty r.1.rest) || not (bytes_eq r.0.0 (g.heap b).boot)
      then (some protocol_failure, g)
      else received

  -- An effect is kept, and passed on if the viewer sees the publisher.
  unfoldable pub receive_effect : ℕ → Bytes → Session → Outcome
  receive_effect tag p g =
      let g1 =
        if tag == 6 || tag == 8 || tag == 17
        then change b (λ s. record s { effects = keep_effect tag p s.effects }) g
        else g in
      if is_handle g1.active b && g1.surface_active then write_down p g1 else (none, g1)

  is_whole : Decoder → Bool
  is_whole d = not d.failed && is_empty d.rest

  -- `server`
  unfoldable pub server : Bytes → Session → Outcome
  unfolding is_whole
  server p g =
      let t = num (decoder p) in
      let c = sideband (decoder p) in
      let controlled = receive_control c.0.1 c.0.2 g in
      let shown = receive_surface t.0 p t.1 g in
      let received = receive_response t.1 g in
      if t.0 == 20
      then (if is_whole c.1 then controlled else (some protocol_failure, g))
      else if t.0 == 13 || t.0 == 19
      then shown
      else if t.0 == 18
      then received
      else if t.0 == 3
      then (some native, g)
      else if t.0 == 4 || t.0 == 14
      then (if is_whole (notification t.0 t.1).1 then (none, g) else (some protocol_failure, g))
      else if t.0 == 5 || t.0 == 6 || t.0 == 8 || t.0 == 9 || t.0 == 15 || t.0 == 17
      then receive_effect t.0 p g
      else (some protocol_failure, g)
