-- ===== src/Gateway/Client/Handles.antt =====
-- What a frame from the viewer leaves of a sound session.
use herdr_hive.Base.{
  ℕ, ◌+◌, ◌≤◌, ◌≡◌, refl, Bool, true, false, ◌||◌, ◌&&◌, not, Option, none, some, [], ◌∷◌, ◌++◌,
  ltb, leb, ◌==◌, Bytes, bytes_eq, codes, length, arith, if_elim,
}
use herdr_hive.Base.Dict.{Dict}
use herdr_hive.Json
use herdr_hive.Json.{Value, Fields, StdLib, obj, has_text}
use herdr_hive.Wire.Encode.{control, number}
use herdr_hive.Wire.Decoder.{Decoder, decoder, num, text}
use herdr_hive.Wire.Codec.{is_empty}
use herdr_hive.Wire.Complete.{max_u64}
use herdr_hive.Gateway.{wire, eof, Session, Outcome, max_requests, is_handle, is_some, is_current}
use herdr_hive.Gateway.Recovery.{fail_request}
use herdr_hive.Gateway.Surface.{blank_surface}
use herdr_hive.Gateway.Publish.{surface_set, publish_all, send, replay_effects, resume_fence}
use herdr_hive.Gateway.Sound.{IsSound, Fine, then_do-Fine}
use herdr_hive.Gateway.Alike.{
  Alike, Alike-IsSound, Alike-is_current, still, refused, Keeps, write_down-Fine,
  blank_surface-Fine, replay_effects-Fine,
}
use herdr_hive.Gateway.Ends.{send-Fine, resume_fence-Fine}
use herdr_hive.Gateway.Handshake.{resize_of, flag}
use herdr_hive.Gateway.Values.{allowed_method, ready_kind}
use herdr_hive.Gateway.Server.Handles.{response-Fine}
use herdr_hive.Gateway.Changes.{publish_all-Publishes, publish_all-Fine}
use herdr_hive.Gateway.Client.{
  ids, target_of, has_value, ends_with, request_fields, client_control, send_input, client_input,
  set_surface, forward_request, aimed, or_active, route, local_fields, client_object,
  client_request, resized, broadcast, send_to, client,
}
use herdr_hive.Gateway.Client.Targets.{
  if_case, Good, handle_some, active-Good, Names, resolve-Names, Aims, target_of-Aims,
}

module _ (l : StdLib) (n : ℕ) where
  to_current :
      (b : ℕ) (x : Bytes) (g : Session)
      → IsSound g
      → is_current b g ≡ true
      → length g.sources ≤ n
      → Fine n (send l (publish_all l) b x g)
  to_current b x g i c h =
      send-Fine l n (publish_all l) (publish_all-Publishes l n) n (omega arith) b x g i c h

  resumed-Fine : Keeps n (resume_fence l (publish_all l))
  resumed-Fine g i h =
      resume_fence-Fine l n (publish_all l) (publish_all-Publishes l n) n (omega arith) g i h

  invalid : Keeps n (λ g. (some wire, g))
  invalid g i h = refused wire g n (λ e. cc) i h

  fail_request-Fine : (id message : Bytes) → Keeps n (fail_request l id message)
  unfolding fail_request
  fail_request-Fine id message g i h = response-Fine l n 0 id _ g i h

  client_control-Fine : (kind p : Bytes) → Keeps n (client_control l (publish_all l) kind p)
  unfolding client_control
  client_control-Fine kind p g i h =
      let g1 : Session = record g { fence = p; fence_pending = true; fence_source = none } in
      let a : Alike g g1 = record {
        source = λ a. refl;
        sources = refl;
        active = refl;
        next = refl;
      } in
      if_elim (Fine n) (bytes_eq kind (codes "endpoint.presentation.sync.v1")) _ _
        (if_elim (Fine n) (ltb 4096 (length p)) _ _ (invalid g i h) (
          if_elim (Fine n) (not (is_some g.active)) _ _
            (write_down-Fine n (control ready_kind p) g i h)
            (if_elim (Fine n) g.fence_pending _ _ (invalid g i h)
              (resumed-Fine g1 (Alike-IsSound a i) h))))
        (if_elim (Fine n) (bytes_eq kind (codes "endpoint.health.ping.v1")) _ _
          (write_down-Fine n (control (codes "endpoint.health.pong.v1") p) g i h) (still g n i h))

  send_input-Fine :
      (head : Bytes) (o : Option (ℕ × Bytes)) (rest : Bytes) (g : Session)
      → Names g o
      → IsSound g
      → length g.sources ≤ n
      → Fine n (send_input l (publish_all l) head o rest g)
  unfolding send_input Names
  send_input-Fine head none rest g c i h = still g n i h
  send_input-Fine head (some (b, local)) rest g c i h =
      if_elim (Fine n) (is_handle g.active b && g.surface_active) _ _ (to_current b _ g i c h)
        (still g n i h)

  client_input-Fine : (head : Bytes) (d : Decoder) → Keeps n (client_input l (publish_all l) head d)
  unfolding client_input
  client_input-Fine head d g i h = send_input-Fine head _ _ g (resolve-Names g (text d).0 i) i h

  set_surface-Fine : (id : Bytes) (o : Option Bool) → Keeps n (set_surface l (publish_all l) id o)
  unfolding set_surface
  set_surface-Fine id none g i h = fail_request-Fine id _ g i h
  set_surface-Fine id (some active) g i h =
      let g1 : Session = record g { surface_active = active } in
      let i1 =
        Alike-IsSound {g = g} {h = g1}
          (record { source = λ a. refl; sources = refl; active = refl; next = refl }) i in
      then_do-Fine n _ _
        (then_do-Fine n _ _
          (if_elim (Fine n) active (replay_effects g1) (none, g1) (replay_effects-Fine n g1 i1 h)
            (still g1 n i1 h))
          (publish_all-Fine l n))
        (λ g2 i2 h2. response-Fine l n 0 id _ g2 i2 h2)

  forward_request-Fine :
      (id : Bytes) (v : Fields) (target : ℕ)
      → Keeps n (forward_request l (publish_all l) id v target)
  unfolding forward_request
  forward_request-Fine id v target g i h =
      if_case (Fine n) (not (is_current target g)) _ _ (λ e. fail_request-Fine id _ g i h)
        (λ e. if_elim (Fine n) (g.request_sequence == max_u64) _ _ (fail_request-Fine id _ g i h) (
          to_current target _ _
            (Alike-IsSound {g = g}
              (record { source = λ a. refl; sources = refl; active = refl; next = refl }) i)
            (Alike-is_current {g = g} target
              (record { source = λ a. refl; sources = refl; active = refl; next = refl })
              (ground arith))
            h))

  focus-IsSound :
      (target : ℕ) (g : Session)
      → IsSound g
      → is_current target g ≡ true
      → IsSound (record g { active = some target })
  unfolding is_current
  focus-IsSound target g i c = record {
    keyed = i.keyed;
    active_in = λ b e. handle_some _ b (ground arith);
    fresh = i.fresh;
  }

  aimed-Fine :
      (id method : Bytes) (v : Fields) (o : Option ℕ) (g : Session)
      → Good g o
      → IsSound g
      → length g.sources ≤ n
      → Fine n (aimed l (publish_all l) id method v o g)
  unfolding aimed
  aimed-Fine id method v none g c i h = fail_request-Fine id _ g i h
  aimed-Fine id method v (some target) g c i h =
      if_elim (Fine n) (not (has_text method (g.heap target).methods)) _ _
        (fail_request-Fine id _ g i h)
        (if_elim (Fine n) (leb max_requests (length g.request_ids + length g.retired)) _ _
          (fail_request-Fine id _ g i h)
          (if_elim (Fine n) (ends_with (codes ".focus") method && not (is_handle g.active target)) _
            _
            (then_do-Fine n _ _
              (then_do-Fine n _ _
                (replay_effects-Fine n _ (focus-IsSound target g i (c target refl)) h)
                (publish_all-Fine l n))
              (forward_request-Fine id v target))
            (forward_request-Fine id v target g i h)))

  route-Fine :
      (id method : Bytes) (v : Fields) (o : Option (Option ℕ)) (g : Session)
      → Aims g o
      → IsSound g
      → length g.sources ≤ n
      → Fine n (route l (publish_all l) id method v o g)
  unfolding route or_active Aims
  route-Fine id method v none g c i h = fail_request-Fine id _ g i h
  route-Fine id method v (some none) g c i h =
      aimed-Fine id method v g.active g (active-Good g i) i h
  route-Fine id method v (some (some target)) g c i h = aimed-Fine id method v (some target) g c i h

  client_object-Fine :
      (boot : Bytes) (v : Fields) → Keeps n (client_object l (publish_all l) boot v)
  unfolding client_object
  client_object-Fine boot v g i h =
      let id = Json.string_val (Json.get (codes "id") v) in
      let method = Json.string_val (Json.get (codes "method") v) in
      if_elim (Fine n) (is_empty id || ltb 128 (length id)) _ _ (invalid g i h) (
        if_elim (Fine n) (has_value id g.request_ids) _ _ (invalid g i h) (
          if_elim (Fine n) (not (bytes_eq boot g.boot)) _ _ (fail_request-Fine id _ g i h) (
            if_elim (Fine n) (bytes_eq method surface_set) _ _
              (set_surface-Fine id
                (flag (Json.member (codes "active") (Json.get (codes "params") v))) g i h)
              (if_elim (Fine n) (not (allowed_method method)) _ _ (fail_request-Fine id _ g i h) (
                route-Fine id method (local_fields l (publish_all l) g v)
                  (target_of g (ids (obj v)) none) g
                  (target_of-Aims g (ids (obj v)) none i (λ b e. absurd (cc e))) i h)))))

  client_request-Fine :
      (boot : Bytes) (o : Option Value) → Keeps n (client_request l (publish_all l) boot o)
  unfolding client_request
  client_request-Fine boot none g i h = invalid g i h
  client_request-Fine boot (some Json.null) g i h = invalid g i h
  client_request-Fine boot (some (Json.bool x)) g i h = invalid g i h
  client_request-Fine boot (some (Json.num x)) g i h = invalid g i h
  client_request-Fine boot (some (Json.real x)) g i h = invalid g i h
  client_request-Fine boot (some (Json.str x)) g i h = invalid g i h
  client_request-Fine boot (some (Json.arr x)) g i h = invalid g i h
  client_request-Fine boot (some (obj v)) g i h = client_object-Fine boot v g i h

  send_to-Fine :
      (o : Option ℕ) (p : Bytes) (g : Session)
      → Good g o
      → IsSound g
      → length g.sources ≤ n
      → Fine n (send_to l (publish_all l) o p g)
  unfolding send_to
  send_to-Fine none p g c i h = still g n i h
  send_to-Fine (some b) p g c i h = to_current b p g i (c b refl) h

  shown-Fine :
      (p : Bytes) (o : Option ℕ) (seen : Bool) (g : Session)
      → Good g o
      → IsSound g
      → length g.sources ≤ n
      → Fine n (elim o [
        | none ↦ blank_surface g
        | some b ↦ elim seen [ true ↦ send l (publish_all l) b p g | false ↦ blank_surface g ]
      ])
  shown-Fine p none seen g c i h = blank_surface-Fine n g i h
  shown-Fine p (some b) true g c i h = to_current b p g i (c b refl) h
  shown-Fine p (some b) false g c i h = blank_surface-Fine n g i h

  resized-Fine : (p : Bytes) (o : Option (ℕ × ℕ)) → Keeps n (resized l (publish_all l) p o)
  unfolding resized
  resized-Fine p none g i h = invalid g i h
  resized-Fine p (some (cols, rows)) g i h =
      let g1 : Session = record g { cols = cols; rows = rows; resize = p } in
      let i1 =
        Alike-IsSound {g = g} {h = g1}
          (record { source = λ a. refl; sources = refl; active = refl; next = refl }) i in
      shown-Fine p g1.active g1.surface_active g1 (active-Good g1 i1) i1 h

  either-Fine :
      (t : Bool) (x y : Outcome)
      → (t ≡ true → Fine n x)
      → (t ≡ false → Fine n y)
      → Fine n (elim t [ true ↦ x | false ↦ y ])
  either-Fine true x y f q = f refl
  either-Fine false x y f q = q refl

  broadcast-Fine : (p : Bytes) (sources : Dict ℕ) → Keeps n (broadcast l (publish_all l) p sources)
  unfolding broadcast
  broadcast-Fine p [] g i h =
      if_elim (Fine n) (is_some g.active) _ _ (still g n i h) (blank_surface-Fine n g i h)
  broadcast-Fine p ((id, b) ∷ rest) g i h =
      either-Fine (is_current b g && (g.heap b).has_stream) _ _
        (λ e. then_do-Fine n _ _ (to_current b p g i (ground arith) h) (broadcast-Fine p rest))
        (λ e. broadcast-Fine p rest g i h)

  closing : Keeps n (λ g. (some eof, g))
  closing g i h = refused eof g n (λ e. cc) i h

  -- A frame from the viewer, whatever it holds, is handled to its end and leaves a sound session of
  -- no more sources, if the session was sound.
  pub client-Fine : (p : Bytes) → Keeps n (client l (publish_all l) p)
  unfolding client
  client-Fine p g i h =
      let t = num (decoder p) in
      let kind = text t.1 in
      let payload = text kind.1 in
      let target = num t.1 in
      let r = request_fields t.1 in
      if_elim (Fine n) (t.0 == 20) _ _
        (if_elim (Fine n) payload.1.failed _ _ (invalid g i h)
          (client_control-Fine kind.0 payload.0 g i h))
        (if_elim (Fine n) (t.0 == 13 || t.0 == 14) _ _ (client_input-Fine (number t.0) t.1 g i h) (
          if_elim (Fine n) (t.0 == 2) _ _
            (if_elim (Fine n) (target.0 == 1 || target.0 == 2) _ _
              (client_input-Fine (number t.0 ++ number target.0) target.1 g i h) (still g n i h))
            (if_elim (Fine n) (t.0 == 15) _ _
              (if_elim (Fine n) (r.1.failed || not (is_empty r.1.rest)) _ _ (invalid g i h)
                (client_request-Fine r.0.0 (l.unmarshal r.0.1) g i h))
              (if_elim (Fine n) (t.0 == 12) _ _ (resized-Fine p (resize_of t.1) g i h) (
                if_elim (Fine n) (t.0 == 17 || t.0 == 19) _ _ (broadcast-Fine p g.sources g i h) (
                  if_elim (Fine n) (t.0 == 18) _ _ (send_to-Fine g.active p g (active-Good g i) i h)
                    (if_elim (Fine n) (t.0 == 4) _ _ (closing g i h) (invalid g i h))))))))
