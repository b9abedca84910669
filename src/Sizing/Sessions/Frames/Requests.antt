-- ===== src/Sizing/Sessions/Frames/Requests.antt =====
-- The frames of a viewer are steps of its session.
use herdr_hive.Base.{
  ℕ, ◌≡◌, refl, [], Bool, false, ◌&&◌, ◌||◌, not, Option, none, some, leb, Bytes, bytes_eq, length,
  if_elim, starts_with, ◌==◌, codes, get_elem?,
}
use herdr_hive.Base.Dict.{lookup}
use herdr_hive.Json.{Fields, get}
use herdr_hive.Relay.{WireDecoder, read_number}
use herdr_hive.Sizing.Locks.{Sizing}
use herdr_hive.Sizing.Panes.{SizeError}
use herdr_hive.Sizing.View.{View}
use herdr_hive.Sizing.Acquire.{Native}
use herdr_hive.Sizing.Client.{
  Codec, Request, Inspect, refuses, passes, goes, max_pending, greet, control, set_surface,
  navigate, set_or_navigate, asked, ask, two_texts, control_frame, request_frame, inspect_client,
  sent_on, after_inspect, client_frame, internal_prefix, hello_kind, is_one, target, is_pending,
}
use herdr_hive.Sizing.Sessions.{Session}
use herdr_hive.Sizing.Sessions.Frames.{
  IsAlike, same, IsAt, Follows, moved-IsAt, after_reconcile-Follows, sent_on-Follows,
}

-- An inspection leaves the viewer's panes as they are.
unfoldable Passes : View → Inspect → Type 0
Passes v (refuses e) = Unit {0}
Passes v passes = Unit {0}
Passes v (goes w q) = IsAlike v w

inspect_client-Passes :
    (c : Codec) (now : ℕ) (v : View) (p : Bytes) → Passes v (inspect_client c now v p)
unfolding inspect_client Passes control_frame request_frame greet control ask asked set_or_navigate
    set_surface navigate
inspect_client-Passes c now v p =
    if_elim (Passes v) (r.0 == 20) _ _ (controls (two_texts r.1))
      (if_elim (Passes v) (r.0 == 15) _ _ (requests (two_texts r.1)) (same v))
  where
    r : ℕ × WireDecoder
    r = read_number (record { payload = p; failed = false })

    greets : (fs : Option Fields) → Passes v (greet c v fs)
    greets none = tt
    greets (some fs) =
        if_elim (Passes v) (is_one (get (codes "generation") fs)) _ _
          (record { held = refl; held_locks = refl }) tt

    controls : (t : Option (Bytes × Bytes)) → Passes v (control_frame c v p t)
    controls none = tt
    controls (some (kind, payload)) =
        if_elim (Passes v) (bytes_eq kind hello_kind) _ _
          (if_elim (Passes v) v.initialized _ _ tt (greets (c.hello payload))) (same v)

    sets : (q : Request) (active : Option Bool) → Passes v (set_or_navigate now v p q active)
    sets q none = same v
    sets q (some active) = if_elim (Passes v) (leb max_pending (length v.hide)) _ _ tt (
        if_elim (Passes v) active _ _ (record { held = refl; held_locks = refl })
          (record { held = refl; held_locks = refl }))

    navigates : (id tab : Bytes) → Passes v (navigate now v p id tab)
    navigates id tab =
        if_elim (Passes v) (leb max_pending (length v.pending) || is_pending (lookup id v.pending))
          _ _ tt (record { held = refl; held_locks = refl })

    asks : (q : Option Request) → Passes v (ask now v p q)
    asks none = tt
    asks (some q) = if_elim (Passes v) (starts_with internal_prefix q.id) _ _ tt (
        if_elim (Passes v) (bytes_eq q.method (codes "client_shell.surface.set")) _ _
          (sets q q.active)
          (if_elim (Passes v) (bytes_eq (target v q) []) _ _ (same v)
            (navigates q.id (target v q))))

    requests : (t : Option (Bytes × Bytes)) → Passes v (request_frame c now v p t)
    requests none = tt
    requests (some (boot, payload)) =
        if_elim (Passes v)
          (not (bytes_eq v.snapshot.boot []) && not (bytes_eq boot v.snapshot.boot)) _ _ tt
          (asks (c.request payload))

pub client_frame-Follows :
    (t : Session) (i : ℕ) (u : View)
    → get_elem? t.views i ≡ some u
    → (c : Codec) (up : Bytes → Option SizeError) (n : Native) (s : Sizing) (v : View) (p : Bytes)
    → IsAt t i s v
    → Follows t i (client_frame c up n s v p)
unfolding client_frame after_inspect Passes Follows
client_frame-Follows t i u e c up n s v p k =
    ends (inspect_client c n.now v p) (inspect_client-Passes c n.now v p)
  where
    ends : (a : Inspect) → Passes v a → Follows t i (after_inspect up n s v p a)
    ends (refuses x) l = k
    ends passes l = k
    ends (goes w q) l =
        after_reconcile-Follows t i u e (sent_on up q) (sent_on-Follows t i up q) n s w
          (moved-IsAt t i u e s v w l k)
