-- ===== src/Gateway/Server/Handles.antt =====
-- What a frame from a publisher leaves of a sound session.
use herdr_hive.Base.{
  ℕ, ◌≤◌, ◌≢◌, refl, Bool, true, false, ◌||◌, ◌&&◌, not, Option, none, some, [], ltb, ◌==◌, Bytes,
  bytes_eq, codes, length, arith, if_elim,
}
use herdr_hive.Json
use herdr_hive.Json.{Value, Fields, StdLib, nil, cons, obj}
use herdr_hive.Wire.Encode.{control}
use herdr_hive.Wire.Decoder.{Decoder, decoder, num, text}
use herdr_hive.Wire.Codec.{surface, sideband, notification}
use herdr_hive.Wire.Complete.Update.{update}
use herdr_hive.Wire.Complete.{CompleteSurface, keep}
use herdr_hive.Gateway.{Error, native, failure, unfinished, Session, is_handle, is_some}
use herdr_hive.Gateway.Recovery.{response, forget}
use herdr_hive.Gateway.Surface.{send_patch, patch_header, is_baseline, stamp_and_send}
use herdr_hive.Gateway.Publish.{publish_all}
use herdr_hive.Gateway.Sound.{IsSound, Fine, then_do-Fine}
use herdr_hive.Gateway.Alike.{
  Alike, Alike-IsSound, still, refused, Keeps, write_down-Fine, blank_surface-Fine,
  send_surface-Fine,
}
use herdr_hive.Gateway.Ends.{sync_interest-Fine, resume_fence-Fine}
use herdr_hive.Gateway.Server.{
  receive_welcome, receive_snapshot, receive_object, receive_control, note_render, show_frame,
  retain, receive_surface, answer, finish_request, receive_chunk, receive_for, receive_marked,
  receive_response, receive_effect, is_whole, server,
}
use herdr_hive.Gateway.Values.{ready_kind}
use herdr_hive.Gateway.Changes.{
  Alike-refl, Alike-trans, change-Alike, render_progress-Alike, behind, publish_all-Publishes,
  publish_all-Fine,
}

module _ (l : StdLib) (n b : ℕ) where
  quiet : {g h : Session} → Alike g h → IsSound g → length g.sources ≤ n → Fine n (none, h)
  quiet a i h = still _ n (Alike-IsSound a i) (rw a.sources h)

  stopped :
      (e : Error) {g h : Session}
      → e ≢ unfinished
      → Alike g h
      → IsSound g
      → length g.sources ≤ n
      → Fine n (some e, h)
  stopped e d a i h = refused e _ n d (Alike-IsSound a i) (rw a.sources h)

  failed : Keeps n (λ g. (some (failure false), g))
  failed g i h = refused (failure false) g n (λ e. cc) i h

  rejected : Keeps n (λ g. (some native, g))
  rejected g i h = refused native g n (λ e. cc) i h

  receive_welcome-Fine : (v : Fields) → Keeps n (receive_welcome l (publish_all l) b v)
  unfolding receive_welcome
  receive_welcome-Fine v g i h =
      if_elim (Fine n) _ _ _ (failed g i h)
        (if_elim (Fine n) _ _ _ (failed g i h) (quiet (change-Alike b _ g refl) i h))

  receive_snapshot-Fine : (v : Fields) → Keeps n (receive_snapshot l (publish_all l) b v)
  unfolding receive_snapshot
  receive_snapshot-Fine v g i h =
      if_elim (Fine n) _ _ _ (failed g i h)
        (behind n (publish_all-Fine l n) (change-Alike b _ g refl) i h)

  receive_object-Fine :
      (kind : Bytes) (o : Option Value) → Keeps n (receive_object l (publish_all l) b kind o)
  unfolding receive_object
  receive_object-Fine kind none g i h = failed g i h
  receive_object-Fine kind (some Json.null) g i h = failed g i h
  receive_object-Fine kind (some (Json.bool x)) g i h = failed g i h
  receive_object-Fine kind (some (Json.num x)) g i h = failed g i h
  receive_object-Fine kind (some (Json.real x)) g i h = failed g i h
  receive_object-Fine kind (some (Json.str x)) g i h = failed g i h
  receive_object-Fine kind (some (Json.arr x)) g i h = failed g i h
  receive_object-Fine kind (some (obj v)) g i h =
      if_elim (Fine n) _ _ _ (receive_welcome-Fine v g i h) (receive_snapshot-Fine v g i h)

  receive_control-Fine : (kind p : Bytes) → Keeps n (receive_control l (publish_all l) b kind p)
  unfolding receive_control
  receive_control-Fine kind p g i h =
      let g1 : Session = record g { fence = []; fence_pending = false; fence_source = none } in
      let a : Alike g g1 = record {
        source = λ a. refl;
        sources = refl;
        active = refl;
        next = refl;
      } in
      if_elim (Fine n) (bytes_eq kind ready_kind) _ _
        (if_elim (Fine n) (is_handle g.fence_source b && bytes_eq p g.fence) _ _
          (write_down-Fine n (control kind p) g1 (Alike-IsSound a i) h) (still g n i h))
        (if_elim (Fine n)
          (not (bytes_eq kind (codes "endpoint.welcome.v1"))
            && not (bytes_eq kind (codes "shell.snapshot.v1")))
          _ _ (if_elim (Fine n) _ _ _ (failed g i h) (still g n i h))
          (if_elim (Fine n) (ltb 262144 (length p)) _ _ (failed g i h)
            (receive_object-Fine kind (l.unmarshal p) g i h)))

  note_render-Alike :
      (projection : ℕ) (g : Session) → Alike g (note_render l (publish_all l) b projection g)
  unfolding note_render
  note_render-Alike projection g =
      if_elim (Alike g) _ _ _ (Alike-trans (change-Alike b _ g refl) (render_progress-Alike b _))
        (Alike-refl g)

  stamp_and_send-Fine : (revision : ℕ) (p : Option Bytes) → Keeps n (stamp_and_send l revision p)
  unfolding stamp_and_send
  stamp_and_send-Fine revision none g i h = refused _ g n (λ e. cc) i h
  stamp_and_send-Fine revision (some p) g i h =
      then_do-Fine n _ _
        (behind n (write_down-Fine n _)
          (record { source = λ a. refl; sources = refl; active = refl; next = refl }) i h)
        (λ g2 i2 h2.
          quiet (record { source = λ a. refl; sources = refl; active = refl; next = refl }) i2 h2)

  send_patch-Fine : (raw : Bytes) → Keeps n (send_patch l b raw)
  unfolding send_patch
  send_patch-Fine raw g i h =
      let header = (patch_header l (decoder raw)).0 in
      if_elim (Fine n) (not g.surface_active) _ _ (still g n i h) (
        if_elim (Fine n) (is_baseline b header g) _ _ (stamp_and_send-Fine header.2 _ g i h)
          (send_surface-Fine n l g i h))

  show_frame-Fine : (tag : ℕ) (p : Bytes) → Keeps n (show_frame l (publish_all l) b tag p)
  unfolding show_frame
  show_frame-Fine tag p g i h = if_elim (Fine n) _ _ _ (send_patch-Fine p g i h) (
      if_elim (Fine n) _ _ _ (send_surface-Fine n l g i h)
        (if_elim (Fine n) _ _ _ (blank_surface-Fine n g i h) (still g n i h)))

  retain-Fine :
      (tag projection : ℕ) (p : Bytes) (r : CompleteSurface × Bool)
      → Keeps n (retain l (publish_all l) b tag projection p r)
  unfolding retain
  retain-Fine tag projection p (frame, false) g i h =
      stopped _ (λ e. cc) (change-Alike b _ g refl) i h
  retain-Fine tag projection p (frame, true) g i h =
      behind n (show_frame-Fine tag p)
        (Alike-trans (change-Alike b _ g refl) (note_render-Alike projection _)) i h

  receive_surface-Fine :
      (tag : ℕ) (p : Bytes) (d : Decoder) → Keeps n (receive_surface l (publish_all l) b tag p d)
  unfolding receive_surface
  receive_surface-Fine tag p d g i h =
      let s = g.heap b in
      if_elim (Fine n) (not s.welcomed || not (is_some s.snapshot)) _ _ (failed g i h) (
        if_elim (Fine n) (not (bytes_eq (text d).0 s.boot) || (text d).1.failed) _ _ (failed g i h)
          (if_elim (Fine n) (not (is_some (surface p g.boot g.revision keep))) _ _ (failed g i h)
            (retain-Fine tag (num (text d).1).0 p (update s.frame p) g i h)))

  pub response-Fine : (id : Bytes) (v : Value) → Keeps n (response l id v)
  unfolding response
  response-Fine id v g i h = write_down-Fine n _ g i h

  answer-Fine : (consumer : Bytes) (v : Value) → Keeps n (answer l (publish_all l) b consumer v)
  unfolding answer
  answer-Fine consumer (obj v) g i h = response-Fine consumer _ g i h
  answer-Fine consumer Json.null g i h = failed g i h
  answer-Fine consumer (Json.bool x) g i h = failed g i h
  answer-Fine consumer (Json.num x) g i h = failed g i h
  answer-Fine consumer (Json.real x) g i h = failed g i h
  answer-Fine consumer (Json.str x) g i h = failed g i h
  answer-Fine consumer (Json.arr x) g i h = failed g i h

  finish_request-Fine :
      (consumer : Option Bytes) (v : Option Value)
      → Keeps n (finish_request l (publish_all l) b consumer v)
  unfolding finish_request
  finish_request-Fine none none g i h = failed g i h
  finish_request-Fine (some consumer) none g i h = failed g i h
  finish_request-Fine none (some v) g i h =
      let q = publish_all-Publishes l n in
      if_elim (Fine n) _ _ _ (rejected g i h) (
        then_do-Fine n _ _
          (behind n (sync_interest-Fine l n (publish_all l) q n (omega arith))
            (render_progress-Alike b g) i h)
          (resume_fence-Fine l n (publish_all l) q n (omega arith)))
  finish_request-Fine (some consumer) (some v) g i h = answer-Fine consumer _ g i h

  pub forget-Alike : (id : Bytes) (g : Session) → Alike g (forget id g)
  unfolding forget
  forget-Alike id g = record { source = λ a. refl; sources = refl; active = refl; next = refl }

  receive_chunk-Fine :
      (id : Bytes) (final : Bool) (p : Bytes)
      → Keeps n (receive_chunk l (publish_all l) b id final p)
  unfolding receive_chunk
  receive_chunk-Fine id final p g i h = if_elim (Fine n) _ _ _ (failed g i h) (
      if_elim (Fine n) _ _ _ (quiet (change-Alike b _ g refl) i h) (
        behind n (finish_request-Fine _ _)
          (Alike-trans (change-Alike b _ g refl) (forget-Alike id _)) i h))

  receive_for-Fine :
      (id : Bytes) (final : Bool) (p : Bytes) (o : Option ℕ)
      → Keeps n (receive_for l (publish_all l) b id final p o)
  unfolding receive_for
  receive_for-Fine id final p (some source) g i h = if_elim (Fine n) _ _ _ (failed g i h) (
      quiet
        (if_elim (Alike g) final _ g
          (record { source = λ a. refl; sources = refl; active = refl; next = refl })
          (Alike-refl g))
        i h)
  receive_for-Fine id final p none g i h =
      if_elim (Fine n) _ _ _ (receive_chunk-Fine id final p g i h) (failed g i h)

  receive_marked-Fine :
      (id : Bytes) (o : Option Bool) (p : Bytes)
      → Keeps n (receive_marked l (publish_all l) b id o p)
  unfolding receive_marked
  receive_marked-Fine id none p g i h = failed g i h
  receive_marked-Fine id (some final) p g i h = receive_for-Fine id final p _ g i h

  receive_response-Fine : (d : Decoder) → Keeps n (receive_response l (publish_all l) b d)
  unfolding receive_response
  receive_response-Fine d g i h =
      if_elim (Fine n) _ _ _ (failed g i h) (receive_marked-Fine _ _ _ g i h)

  receive_effect-Fine : (tag : ℕ) (p : Bytes) → Keeps n (receive_effect l (publish_all l) b tag p)
  unfolding receive_effect
  receive_effect-Fine tag p g i h =
      let a =
        if_elim (Alike g) (tag == 6 || tag == 8 || tag == 17) _ g (change-Alike b _ g refl)
          (Alike-refl g) in
      if_elim (Fine n) _ _ _ (behind n (write_down-Fine n p) a i h) (quiet a i h)

  -- A frame from a publisher, whatever it holds, is handled to its end and leaves a sound session of
  -- no more sources, if the session was sound.
  pub server-Fine : (p : Bytes) → Keeps n (server l (publish_all l) b p)
  unfolding server
  server-Fine p g i h =
      let t = num (decoder p) in
      let c = sideband (decoder p) in
      let whole = is_whole l (publish_all l) b in
      if_elim (Fine n) (t.0 == 20) _ _
        (if_elim (Fine n) (whole c.1) _ _ (receive_control-Fine c.0.1 c.0.2 g i h) (failed g i h))
        (if_elim (Fine n) (t.0 == 13 || t.0 == 19) _ _ (receive_surface-Fine t.0 p t.1 g i h) (
          if_elim (Fine n) (t.0 == 18) _ _ (receive_response-Fine t.1 g i h) (
            if_elim (Fine n) (t.0 == 3) _ _ (rejected g i h) (
              if_elim (Fine n) (t.0 == 4 || t.0 == 14) _ _
                (if_elim (Fine n) (whole (notification t.0 t.1).1) _ _ (still g n i h)
                  (failed g i h))
                (if_elim (Fine n)
                  (t.0 == 5 || t.0 == 6 || t.0 == 8 || t.0 == 9 || t.0 == 15 || t.0 == 17) _ _
                  (receive_effect-Fine t.0 p g i h) (failed g i h))))))
