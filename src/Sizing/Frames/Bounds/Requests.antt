-- ===== src/Sizing/Frames/Bounds/Requests.antt =====
-- The frames of a viewer keep what it waits for bounded.
use herdr_hive.Base.{
  ℕ, ◌+◌, ◌%◌, ◌^◌, ◌≡◌, Bool, false, ◌&&◌, ◌||◌, not, Option, none, some, [], leb, leb→lt, Bytes,
  bytes_eq, length, arith, if_elim, if_case, error_case, starts_with, ◌==◌, codes,
}
use herdr_hive.Base.Dict.{lookup, length-insert}
use herdr_hive.Json.{Fields, get}
use herdr_hive.Relay.{WireDecoder, read_number}
use herdr_hive.Sizing.Locks.{Sizing}
use herdr_hive.Sizing.Panes.{SizeError}
use herdr_hive.Sizing.View.{View}
use herdr_hive.Sizing.Acquire.{Native}
use herdr_hive.Sizing.Client.{
  Codec, Request, Outcome, failed, Handled, Inspect, refuses, passes, goes, max_pending, greet,
  control, set_surface, navigate, set_or_navigate, asked, ask, two_texts, control_frame,
  request_frame, inspect_client, sent_on, after_inspect, client_frame, internal_prefix, hello_kind,
  is_one, target, is_pending,
}
use herdr_hive.Sizing.Server.{hand_on}
use herdr_hive.Sizing.Frames.Bounds.Waits.{IsBounded, Bounded, after_reconcile-Bounded}

pub hand_on-Bounded : (o : Outcome) (h : Handled) → Bounded h → Bounded (hand_on o h)
unfolding hand_on Bounded
hand_on-Bounded o h b = b

pub sent_on-Bounded :
    (up : Bytes → Option SizeError) (p : Bytes) (h : Handled) → Bounded h → Bounded (sent_on up p h)
unfolding sent_on Bounded
sent_on-Bounded up p h b =
    error_case Bounded (up p) (λ e. record h { outcome = failed e }) _ (λ e x. b) (λ x. b)

unfoldable pub Allows : Inspect → Type 0
Allows (refuses e) = Unit {0}
Allows passes = Unit {0}
Allows (goes w q) = IsBounded w

pub set_surface-Allows :
    (v : View) (p id : Bytes) (active : Bool) → IsBounded v → Allows (set_surface v p id active)
unfolding set_surface Allows
set_surface-Allows v p id active b =
    if_case Allows (leb max_pending (length v.hide)) _ _ (λ x. tt)
      (λ x.
        if_elim Allows active _ _ (record { pending = b.pending; hide = b.hide })
          (record {
            pending = b.pending;
            hide = omega (
              arith,
              length-insert id ((v.activity + 1) % 2 ^ 64) v.hide,
              leb→lt max_pending (length v.hide) x,
            );
          }))

pub navigate-Allows :
    (now : ℕ) (v : View) (p id tab : Bytes) → IsBounded v → Allows (navigate now v p id tab)
unfolding navigate Allows
navigate-Allows now v p id tab b =
    if_case Allows (leb max_pending (length v.pending) || is_pending (lookup id v.pending)) _ _
      (λ x. tt)
      (λ x. record {
        pending = omega (
          arith,
          length-insert id
              (record {
                tab = tab;
                seq = (v.sequence + 1) % 2 ^ 64;
                ack = false;
                floor = 0;
                since = now;
              })
              v.pending,
          leb→lt max_pending (length v.pending) (or_false _ _ x),
        );
        hide = b.hide;
      })
  where
    or_false : (a c : Bool) → (a || c) ≡ false → a ≡ false
    or_false a c e = ground arith

pub inspect_client-Allows :
    (c : Codec) (now : ℕ) (v : View) (p : Bytes) → IsBounded v → Allows (inspect_client c now v p)
unfolding inspect_client Allows control_frame request_frame greet control ask asked set_or_navigate
inspect_client-Allows c now v p b =
    if_elim Allows (r.0 == 20) _ _ (controls (two_texts r.1))
      (if_elim Allows (r.0 == 15) _ _ (requests (two_texts r.1)) b)
  where
    r : ℕ × WireDecoder
    r = read_number (record { payload = p; failed = false })

    greets : (fs : Option Fields) → Allows (greet c v fs)
    greets none = tt
    greets (some fs) =
        if_elim Allows (is_one (get (codes "generation") fs)) _ _
          (record { pending = b.pending; hide = b.hide }) tt

    controls : (t : Option (Bytes × Bytes)) → Allows (control_frame c v p t)
    controls none = tt
    controls (some (kind, payload)) =
        if_elim Allows (bytes_eq kind hello_kind) _ _
          (if_elim Allows v.initialized _ _ tt (greets (c.hello payload))) b

    sets : (q : Request) (active : Option Bool) → Allows (set_or_navigate now v p q active)
    sets q none = b
    sets q (some active) = set_surface-Allows v p q.id active b

    asks : (q : Option Request) → Allows (ask now v p q)
    asks none = tt
    asks (some q) = if_elim Allows (starts_with internal_prefix q.id) _ _ tt (
        if_elim Allows (bytes_eq q.method (codes "client_shell.surface.set")) _ _ (sets q q.active)
          (if_elim Allows (bytes_eq (target v q) []) _ _ b
            (navigate-Allows now v p q.id (target v q) b)))

    requests : (t : Option (Bytes × Bytes)) → Allows (request_frame c now v p t)
    requests none = tt
    requests (some (boot, payload)) =
        if_elim Allows (not (bytes_eq v.snapshot.boot []) && not (bytes_eq boot v.snapshot.boot)) _
          _ tt (asks (c.request payload))

pub client_frame-IsBounded :
    (c : Codec) (up : Bytes → Option SizeError) (n : Native) (s : Sizing) (v : View) (p : Bytes)
    → IsBounded v
    → IsBounded (client_frame c up n s v p).view
unfolding client_frame after_inspect Bounded Allows
client_frame-IsBounded c up n s v p b =
    inspected (inspect_client c n.now v p) (inspect_client-Allows c n.now v p b)
  where
    inspected : (i : Inspect) → Allows i → Bounded (after_inspect up n s v p i)
    inspected (refuses e) a = b
    inspected passes a = b
    inspected (goes w q) a = after_reconcile-Bounded (sent_on up q) (sent_on-Bounded up q) n s w a
