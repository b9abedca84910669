-- ===== src/Sizing/Sessions/Frames/Replies.antt =====
-- The frames of a session to a viewer are steps of it.
use herdr_hive.Base.{
  ℕ, ◌≡◌, refl, false, ◌&&◌, ◌||◌, not, Option, none, some, [], ◌∷◌, List, ltb, Bytes, bytes_eq,
  length, if_elim, error_case, starts_with, ◌==◌, codes, get_elem?,
}
use herdr_hive.Base.Dict.{lookup}
use herdr_hive.Relay.{WireDecoder, read_number}
use herdr_hive.Sizing.Locks.{Sizing}
use herdr_hive.Sizing.Panes.{Snapshot, SizeError}
use herdr_hive.Sizing.View.{View, Navigation, settle_navigation}
use herdr_hive.Sizing.Acquire.{Native, reconcile}
use herdr_hive.Sizing.Client.{
  Codec, Response, Outcome, pass, swallow, Handled, two_texts, after_reconcile, client_frame,
  internal_prefix,
}
use herdr_hive.Sizing.Server.{
  Reply, nav_prefix, barrier, stop_at, hand_on, internal_reply, acknowledge, navigated, hidden,
  finish_reply, after_navigated, own_reply, reply_frame, activate, show_snapshot, server_control,
  server_frame, read_reply,
}
use herdr_hive.Sizing.Sessions.{Session, with_view, Reachable}
use herdr_hive.Sizing.Sessions.Frames.{
  IsAlike, same, IsAt, Follows, start-IsAt, moved-IsAt, after_reconcile-Follows, hand_on-Follows,
}
use herdr_hive.Sizing.Sessions.Frames.Requests.{client_frame-Follows}

barrier-IsAlike : (id : Bytes) (r : Response) (v : View) → IsAlike v (barrier id r v)
unfolding barrier settle_navigation
barrier-IsAlike id r v =
    if_elim (IsAlike v) (starts_with nav_prefix id) _ _ (record { held = refl; held_locks = refl })
      (same v)

shown-IsAlike :
    (v : View) (id error : Bytes) (g : Option ℕ)
    → IsAlike v (settle_navigation (hidden v id error g))
unfolding hidden settle_navigation
shown-IsAlike v id error none = record { held = refl; held_locks = refl }
shown-IsAlike v id error (some g) =
    if_elim Settles (not (ltb 0 (length error)) && g == v.activity) _ _
      (record { held = refl; held_locks = refl }) (record { held = refl; held_locks = refl })
  where
    Settles : View → Type 0
    Settles w = IsAlike v (settle_navigation w)

-- The reply to a navigation.
NavigatedAlike : View → View × Option Bytes → Type 0
NavigatedAlike v r = IsAlike v r.0

navigated-IsAlike :
    (c : Codec) (v : View) (id error : Bytes) (found : Option Navigation)
    → NavigatedAlike v (navigated c v id error found)
unfolding navigated acknowledge NavigatedAlike
navigated-IsAlike c v id error none = same v
navigated-IsAlike c v id error (some n) =
    if_elim (NavigatedAlike v) (ltb 0 (length error)) _ _
      (record { held = refl; held_locks = refl }) (record { held = refl; held_locks = refl })

module _ (t : Session) (i : ℕ) (u : View) (e : get_elem? t.views i ≡ some u) where
  hands-Follows :
      (o : Outcome) (n : Native) (s : Sizing) (v : View)
      → IsAt t i s v
      → Follows t i (after_reconcile (hand_on o) (reconcile n s v))
  hands-Follows o = after_reconcile-Follows t i u e (hand_on o) (hand_on-Follows t i o)

  finish_reply-Follows :
      (n : Native) (s : Sizing) (v : View) (p id error : Bytes) (h : Handled)
      → IsAt t i s v
      → Follows t i (finish_reply n s v p id error h)
  unfolding finish_reply Follows
  finish_reply-Follows n s v p id error h k =
      hands-Follows (pass p) n s (settle_navigation (hidden v id error (lookup id v.hide)))
        (moved-IsAt t i u e s v _ (shown-IsAlike v id error (lookup id v.hide)) k)

  activate-Follows :
      (c : Codec) (up : Bytes → Option SizeError) (p : Bytes) (h : Handled)
      → Follows t i h
      → Follows t i (activate c up p h)
  unfolding activate Follows hand_on
  activate-Follows c up p h k = if_elim (Follows t i) (not h.view.initial) _ _ k (
      if_elim (Follows t i) (not h.view.active) _ _ ready
        (error_case (Follows t i) _ (λ x. _) _ (λ x y. ready) (λ y. ready)))
    where
      ready : IsAt t i h.sizing (record (h.view) { initial = false })
      ready = moved-IsAt t i u e h.sizing h.view _ (record { held = refl; held_locks = refl }) k

  server_frame-Follows :
      (c : Codec) (up : Bytes → Option SizeError) (n : Native) (s : Sizing) (v : View) (p : Bytes)
      → IsAt t i s v
      → Follows t i (server_frame c up n s v p)
  unfolding server_frame Follows reply_frame internal_reply own_reply after_navigated stop_at
      server_control show_snapshot NavigatedAlike settle_navigation
  server_frame-Follows c up n s v p k =
      if_elim (Follows t i) (r.0 == 18) _ _ (replies (read_reply r.1))
        (if_elim (Follows t i) (r.0 == 20) _ _ (controls (two_texts r.1)) k)
    where
      r : ℕ × WireDecoder
      r = read_number (record { payload = p; failed = false })

      internal : (q : Reply) (a : Option Response) → Follows t i (internal_reply n s v q a)
      internal q none = k
      internal q (some a) =
          if_elim (Follows t i) (not (q.final == 1) || ltb 0 (length a.error)) _ _ k (
            hands-Follows swallow n s (barrier q.id a v)
              (moved-IsAt t i u e s v _ (barrier-IsAlike q.id a v) k))

      writes : View → List Bytes → Handled
      writes w sent = record { sizing = s; view = w; sent = sent; outcome = swallow }

      after :
          (id error : Bytes) (a : View × Option Bytes)
          → NavigatedAlike v a
          → Follows t i (after_navigated up n s p id error a)
      after id error (w, none) l =
          finish_reply-Follows n s w p id error (writes w []) (moved-IsAt t i u e s v w l k)
      after id error (w, some frame) l =
          error_case (Follows t i) (up frame) (λ x. stop_at x s w) _
            (λ x y. moved-IsAt t i u e s v w l k)
            (λ y.
              finish_reply-Follows n s w p id error (writes w (frame ∷ []))
                (moved-IsAt t i u e s v w l k))

      own : (id : Bytes) (error : Option Bytes) → Follows t i (own_reply c up n s v p id error)
      own id none = hands-Follows (pass p) n s v k
      own id (some error) =
          after id error (navigated c v id error (lookup id v.pending))
            (navigated-IsAlike c v id error (lookup id v.pending))

      replies : (q : Option Reply) → Follows t i (reply_frame c up n s v p q)
      replies none = k
      replies (some q) = if_elim (Follows t i) (not (bytes_eq q.boot v.snapshot.boot)) _ _ k (
          if_elim (Follows t i) (starts_with internal_prefix q.id) _ _
            (internal q (c.response q.payload))
            (if_elim (Follows t i) (q.final == 1) _ _ (own q.id (c.response_error q.payload))
              (hands-Follows (pass p) n s v k)))

      shows : (a : Option Snapshot) → Follows t i (show_snapshot c up n s v p a)
      shows none = k
      shows (some a) =
          if_elim (Follows t i)
            (bytes_eq v.snapshot.boot a.boot && ltb a.revision v.snapshot.revision) _ _ k
            (after_reconcile-Follows t i u e (activate c up p) (activate-Follows c up p) n s _
              (moved-IsAt t i u e s v _ (record { held = refl; held_locks = refl }) k))

      controls : (a : Option (Bytes × Bytes)) → Follows t i (server_control c up n s v p a)
      controls none = k
      controls (some (kind, payload)) =
          if_elim (Follows t i) (bytes_eq kind (codes "shell.snapshot.v1")) _ _
            (shows (c.snapshot payload)) k

-- The session after a handler, with the handler's locks and viewer in their places.
unfoldable pub handled : Session → ℕ → Handled → Session
unfolding with_view
handled t i h = with_view t i (h.sizing, h.view)

-- Whatever a viewer of a reachable session sends, and whatever Herdr sends it, the session that the
-- handler leaves, on its error paths as well, is one that the steps reach, so that all that holds of
-- these holds of it.
pub frames-Reachable :
    (t : Session) (i : ℕ) (v : View) (c : Codec) (up : Bytes → Option SizeError) (n : Native)
    (p : Bytes)
    → Reachable t
    → get_elem? t.views i ≡ some v
    → Reachable (handled t i (client_frame c up n t.sizing v p))
      × Reachable (handled t i (server_frame c up n t.sizing v p))
unfolding handled Follows IsAt
frames-Reachable t i v c up n p r e = (
  client_frame-Follows t i v e c up n t.sizing v p (start-IsAt t i v e r),
  server_frame-Follows t i v e c up n t.sizing v p (start-IsAt t i v e r),
)
