-- ===== src/Sizing/Frames/Reserved.antt =====
-- What never crosses between a viewer and the session: the replies to requests that the sizing makes
-- itself, and a hello with an active surface.
use herdr_hive.Base.{
  ◌≡◌, refl, ◌⊎◌, inl, inr, Bool, true, false, ◌||◌, not, Option, none, some, List, [], ◌∷◌, ltb,
  Bytes, bytes_eq_refl, length, arith, if_elim, error_case, starts_with, ◌==◌, codes,
}
use herdr_hive.Json.{Value, Fields, get, set, bool, obj, end, field}
use herdr_hive.Relay.{read_number, wire_control}
use herdr_hive.Sizing.Locks.{Sizing}
use herdr_hive.Sizing.Panes.{SizeError}
use herdr_hive.Sizing.View.{View}
use herdr_hive.Sizing.Acquire.{Native, reconcile}
use herdr_hive.Sizing.Client.{
  Codec, Response, Outcome, pass, swallow, failed, Handled, Inspect, internal_prefix, hello_kind,
  surface_active, is_one, quiet_hello, greet, control, control_frame, two_texts, inspect_client,
  sent_on, after_reconcile, after_inspect, client_frame,
}
use herdr_hive.Sizing.Server.{
  Reply, barrier, read_reply, internal_reply, reply_frame, server_frame, hand_on, stop_at,
}

unfoldable pub is_pass : Outcome → Bool
is_pass (pass p) = true
is_pass swallow = false
is_pass (failed e) = false

internal_reply-kept :
    (n : Native) (s : Sizing) (v : View) (r : Reply) (a : Option Response)
    → is_pass (internal_reply n s v r a).outcome ≡ false
unfolding internal_reply is_pass hand_on stop_at after_reconcile
internal_reply-kept n s v r none = refl
internal_reply-kept n s v r (some a) =
    if_elim Kept (not (r.final == 1) || ltb 0 (length a.error)) _ _ refl
      (after (reconcile n s (barrier r.id a v)))
  where
    Kept : Handled → Type 0
    Kept h = is_pass h.outcome ≡ false

    after : (q : Sizing × View × Option SizeError) → Kept (after_reconcile (hand_on swallow) q)
    after (t, w, some e) = refl
    after (t, w, none) = refl

-- A reply of the viewer's session whose identifier is reserved for the sizing is not passed on to
-- the viewer, whether it is accepted or not.
pub server_frame-reserved :
    (c : Codec) (up : Bytes → Option SizeError) (n : Native) (s : Sizing) (v : View) (p : Bytes)
    (r : Reply)
    → (read_number (record { payload = p; failed = false })).0 ≡ 18
    → read_reply (read_number (record { payload = p; failed = false })).1 ≡ some r
    → r.boot ≡ v.snapshot.boot
    → starts_with internal_prefix r.id ≡ true
    → is_pass (server_frame c up n s v p).outcome ≡ false
unfolding server_frame reply_frame
server_frame-reserved c up n s v p r t e b i =
    rw (t, e, b, bytes_eq_refl v.snapshot.boot, i)
      (internal_reply-kept n s v r (c.response r.payload))

get-set : (k : Bytes) (v : Value) (fs : Fields) → get k (set k v fs) ≡ v
unfolding get set
get-set k v end = rw (bytes_eq_refl k) refl
get-set k v (field j w fs) = ground (arith, bytes_eq_refl k, get-set k v fs)

-- Nothing was written to the session, or a hello whose surface is not active.
pub IsQuiet : Codec → List Bytes → Type 0
IsQuiet c sent =
    (sent ≡ [])
    ⊎ ((fs : Fields) × (sent ≡ wire_control hello_kind (c.json.marshal (obj fs)) ∷ [])
        × (get surface_active fs ≡ bool false))

module _ (c : Codec) (up : Bytes → Option SizeError) (n : Native) (s : Sizing) (v : View)
    (p : Bytes) where
  Quiet : Handled → Type 0
  Quiet h = IsQuiet c h.sent × (is_pass h.outcome ≡ false)

  greet-IsQuiet : (fs : Option Fields) → Quiet (after_inspect up n s v p (greet c v fs))
  unfolding greet after_inspect after_reconcile sent_on Quiet IsQuiet quiet_hello is_pass
  greet-IsQuiet none = (inl refl, refl)
  greet-IsQuiet (some fs) =
      if_elim Inspected (is_one (get (codes "generation") fs)) _ _ (after (reconcile n s _))
        (inl refl, refl)
    where
      Inspected : Inspect → Type 0
      Inspected i = Quiet (after_inspect up n s v p i)

      after :
          (q : Sizing × View × Option SizeError)
          → Quiet (after_reconcile (sent_on up (quiet_hello c fs)) q)
      after (t, w, some e) = (inl refl, refl)
      after (t, w, none) =
          error_case Quiet (up (quiet_hello c fs)) (λ e. _) _ (λ e x. (inl refl, refl))
            (λ x. (
              inr (
                set surface_active (bool false) fs,
                refl,
                get-set surface_active (bool false) fs,
              ),
              refl,
            ))

  -- A hello of the viewer is never handed on as it is: the handler writes to the session one hello
  -- whose surface is not active, or nothing.
  pub client_frame-hello :
      (payload : Bytes)
      → (read_number (record { payload = p; failed = false })).0 ≡ 20
      → two_texts (read_number (record { payload = p; failed = false })).1
        ≡ some (hello_kind, payload)
      → IsQuiet c (client_frame c up n s v p).sent
        × (is_pass (client_frame c up n s v p).outcome ≡ false)
  unfolding client_frame inspect_client control_frame control Quiet after_inspect IsQuiet is_pass
  client_frame-hello payload t e =
      rw (t, e)
        (if_elim Inspected v.initialized _ _ (inl refl, refl) (greet-IsQuiet (c.hello payload)))
    where
      Inspected : Inspect → Type 0
      Inspected i = Quiet (after_inspect up n s v p i)
