-- ===== src/Sizing/Frames/Bounds/Replies.antt =====
-- The frames of the session keep what a viewer waits for bounded.
use herdr_hive.Base.{
  ℕ, ◌≡◌, refl, true, false, ◌&&◌, ◌||◌, not, Option, none, some, List, [], ◌∷◌, ltb, Bytes,
  bytes_eq, length, arith, if_elim, error_case, starts_with, ◌==◌, codes,
}
use herdr_hive.Base.Dict.{lookup, length-delete-le, length-insert-some}
use herdr_hive.Relay.{WireDecoder, read_number}
use herdr_hive.Sizing.Locks.{Sizing}
use herdr_hive.Sizing.Panes.{Snapshot, SizeError}
use herdr_hive.Sizing.View.{View, Navigation, settle_navigation}
use herdr_hive.Sizing.Acquire.{Native, reconcile}
use herdr_hive.Sizing.Client.{
  Codec, Response, Outcome, pass, swallow, Handled, two_texts, after_reconcile, client_frame,
  internal_prefix,
}
use herdr_hive.Sizing.Server.{
  Reply, nav_prefix, set_floor, barrier, stop_at, hand_on, internal_reply, acknowledge, navigated,
  hidden, finish_reply, after_navigated, own_reply, reply_frame, activate, show_snapshot,
  server_control, server_frame, read_reply,
}
use herdr_hive.Sizing.Frames.Bounds.Waits.{
  IsBounded, IsLess, IsLess-IsBounded, length-settle, length-set_floor, Bounded,
  after_reconcile-Bounded,
}
use herdr_hive.Sizing.Frames.Bounds.Requests.{hand_on-Bounded, client_frame-IsBounded}

settle-IsLess : (v : View) → IsLess v (settle_navigation v)
unfolding settle_navigation
settle-IsLess v = record { pending = length-settle v.snapshot v.pending; hide = omega arith }

barrier-IsLess : (id : Bytes) (r : Response) (v : View) → IsLess v (barrier id r v)
unfolding barrier settle_navigation
barrier-IsLess id r v =
    if_elim (IsLess v) (starts_with nav_prefix id) _ _
      (record {
        pending = omega (
          arith,
          length-settle v.snapshot (set_floor id r.revision v.pending),
          length-set_floor id r.revision v.pending,
        );
        hide = omega arith;
      })
      (record { pending = omega arith; hide = omega arith })

hidden-IsLess : (v : View) (id error : Bytes) (g : Option ℕ) → IsLess v (hidden v id error g)
unfolding hidden
hidden-IsLess v id error none = record { pending = omega arith; hide = omega arith }
hidden-IsLess v id error (some g) =
    if_elim (IsLess v) (not (ltb 0 (length error)) && g == v.activity) _ _
      (record { pending = omega arith; hide = length-delete-le id v.hide })
      (record { pending = omega arith; hide = length-delete-le id v.hide })

-- The reply to a navigation.
NavigatedLess : View → View × Option Bytes → Type 0
NavigatedLess v r = IsLess v r.0

navigated-IsLess :
    (c : Codec) (v : View) (id error : Bytes) (found : Option Navigation)
    → lookup id v.pending ≡ found
    → NavigatedLess v (navigated c v id error found)
unfolding navigated acknowledge NavigatedLess
navigated-IsLess c v id error none e = record { pending = omega arith; hide = omega arith }
navigated-IsLess c v id error (some n) e =
    if_elim (NavigatedLess v) (ltb 0 (length error)) _ _
      (record { pending = length-delete-le id v.pending; hide = omega arith })
      (record {
        pending = omega (arith, length-insert-some id (record n { ack = true }) n v.pending e);
        hide = omega arith;
      })

after_reconcile_hand-Bounded :
    (o : Outcome) (n : Native) (s : Sizing) (v : View)
    → IsBounded v
    → Bounded (after_reconcile (hand_on o) (reconcile n s v))
after_reconcile_hand-Bounded o n s v b =
    after_reconcile-Bounded (hand_on o) (hand_on-Bounded o) n s v b

finish_reply-Bounded :
    (n : Native) (s : Sizing) (v : View) (p id error : Bytes) (h : Handled)
    → IsBounded v
    → Bounded (finish_reply n s v p id error h)
unfolding finish_reply Bounded
finish_reply-Bounded n s v p id error h b = after_reconcile_hand-Bounded (pass p) n s _ (
    IsLess-IsBounded w _ (settle-IsLess w)
      (IsLess-IsBounded v w (hidden-IsLess v id error (lookup id v.hide)) b))
  where
    w : View
    w = hidden v id error (lookup id v.hide)

activate-Bounded :
    (c : Codec) (up : Bytes → Option SizeError) (p : Bytes) (h : Handled)
    → Bounded h
    → Bounded (activate c up p h)
unfolding activate Bounded hand_on
activate-Bounded c up p h b = if_elim Bounded (not h.view.initial) _ _ b (
    if_elim Bounded (not h.view.active) _ _ ready
      (error_case Bounded _ (λ e. _) _ (λ e x. ready) (λ x. ready)))
  where
    ready : IsBounded (record (h.view) { initial = false })
    ready = record { pending = b.pending; hide = b.hide }

pub server_frame-IsBounded :
    (c : Codec) (up : Bytes → Option SizeError) (n : Native) (s : Sizing) (v : View) (p : Bytes)
    → IsBounded v
    → IsBounded (server_frame c up n s v p).view
unfolding server_frame Bounded reply_frame internal_reply own_reply after_navigated stop_at
    server_control show_snapshot NavigatedLess
server_frame-IsBounded c up n s v p b =
    if_elim Bounded (r.0 == 18) _ _ (replies (read_reply r.1))
      (if_elim Bounded (r.0 == 20) _ _ (controls (two_texts r.1)) b)
  where
    r : ℕ × WireDecoder
    r = read_number (record { payload = p; failed = false })

    internal : (q : Reply) (a : Option Response) → Bounded (internal_reply n s v q a)
    internal q none = b
    internal q (some a) = if_elim Bounded (not (q.final == 1) || ltb 0 (length a.error)) _ _ b (
        after_reconcile_hand-Bounded swallow n s (barrier q.id a v)
          (IsLess-IsBounded v (barrier q.id a v) (barrier-IsLess q.id a v) b))

    writes : View → List Bytes → Handled
    writes w sent = record { sizing = s; view = w; sent = sent; outcome = swallow }

    after :
        (id error : Bytes) (t : View × Option Bytes)
        → NavigatedLess v t
        → Bounded (after_navigated up n s p id error t)
    after id error (w, none) l =
        finish_reply-Bounded n s w p id error (writes w []) (IsLess-IsBounded v w l b)
    after id error (w, some frame) l =
        error_case Bounded (up frame) (λ e. stop_at e s w) _ (λ e x. IsLess-IsBounded v w l b)
          (λ x.
            finish_reply-Bounded n s w p id error (writes w (frame ∷ []))
              (IsLess-IsBounded v w l b))

    own : (id : Bytes) (error : Option Bytes) → Bounded (own_reply c up n s v p id error)
    own id none = after_reconcile_hand-Bounded (pass p) n s v b
    own id (some error) =
        after id error (navigated c v id error (lookup id v.pending))
          (navigated-IsLess c v id error (lookup id v.pending) refl)

    replies : (q : Option Reply) → Bounded (reply_frame c up n s v p q)
    replies none = b
    replies (some q) = if_elim Bounded (not (bytes_eq q.boot v.snapshot.boot)) _ _ b (
        if_elim Bounded (starts_with internal_prefix q.id) _ _ (internal q (c.response q.payload)) (
          if_elim Bounded (q.final == 1) _ _ (own q.id (c.response_error q.payload))
            (after_reconcile_hand-Bounded (pass p) n s v b)))

    shows : (t : Option Snapshot) → Bounded (show_snapshot c up n s v p t)
    shows none = b
    shows (some t) =
        if_elim Bounded (bytes_eq v.snapshot.boot t.boot && ltb t.revision v.snapshot.revision) _ _
          b
          (after_reconcile-Bounded (activate c up p) (activate-Bounded c up p) n s
            (settle_navigation w)
            (IsLess-IsBounded w (settle_navigation w) (settle-IsLess w)
              (record { pending = b.pending; hide = b.hide })))
      where
        w : View
        w = record v { snapshot = t; catalog_seen = false }

    controls : (t : Option (Bytes × Bytes)) → Bounded (server_control c up n s v p t)
    controls none = b
    controls (some (kind, payload)) =
        if_elim Bounded (bytes_eq kind (codes "shell.snapshot.v1")) _ _ (shows (c.snapshot payload))
          b

-- A frame of the viewer and a frame of the session keep at most 64 navigations and at most 64 hides
-- pending, whatever the frame and the answers are.
pub frames-IsBounded :
    (c : Codec) (up : Bytes → Option SizeError) (n : Native) (s : Sizing) (v : View) (p : Bytes)
    → IsBounded v
    → IsBounded (client_frame c up n s v p).view × IsBounded (server_frame c up n s v p).view
frames-IsBounded c up n s v p b =
    (client_frame-IsBounded c up n s v p b, server_frame-IsBounded c up n s v p b)
