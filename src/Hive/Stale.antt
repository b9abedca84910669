-- ===== src/Hive/Stale.antt =====
-- A binding that has been withdrawn is never used again, even when its session is published anew
-- under the same identifier: gateway.go, 83-144, and server.go, 236-297.
use herdr_hive.Base.{
  some-injective, ℕ, ◌+◌, ◌≡◌, ◌<◌, refl, sym, subst, ◌∙◌, false, Option, none, some, List, [], ◌∷◌,
  Bytes, bytes_eq, bytes_eq→eq, arith, Bool-cases, inl, inr,
}
use herdr_hive.Base.Dict.{lookup, insert, lookup-insert}
use herdr_hive.Hive.Shares.{
  Share, Conn, Binding, Server, same_conn, new_binding, bind, drop_shares, unpublish,
}
use herdr_hive.Hive.Streams.{is_current, changed, begin_open, attach}
use herdr_hive.Hive.Rules.{publish_keeps}
use herdr_hive.Hive.Catalog.{
  IsMap, keep, lookup-drop_shares, unpublish-IsMap, insert-IsMap, Op, publishes, withdraws, run,
}

-- What every server has: bindings of the past, under their own identifiers.
pub record IsNumbered (s : Server) : Type 0 where
  pub map : IsMap s.shares
  pub named_by : (id : Bytes) (b : Binding) → lookup id s.shares ≡ some b → id ≡ b.share.id
  pub serials : (id : Bytes) (b : Binding) → lookup id s.shares ≡ some b → b.serial < s.next

-- The identifier has no binding, or one that is newer than the number.
record IsNewer (id : Bytes) (k : ℕ) (s : Server) : Type 0 where
  map : IsMap s.shares
  next : k < s.next
  newer : (b : Binding) → lookup id s.shares ≡ some b → k < b.serial

bind-IsNewer :
    (id : Bytes) (k : ℕ) (v : Share) (c : Conn) (s : Server)
    → IsNewer id k s
    → IsNewer id k (bind v c s)
unfolding bind new_binding
bind-IsNewer id k v c s n = record {
  map = insert-IsMap v.id _ s.shares n.map;
  next = omega (arith, n.next);
  newer = λ b e. bound_newer b e;
}
  where
    bound_newer :
        (b : Binding)
        → lookup id (insert v.id (new_binding s.next v c) s.shares) ≡ some b
        → k < b.serial
    bound_newer b e = elim (Bool-cases (bytes_eq v.id id)) [
      | inl here ↦
          subst (λ (d : Binding). k < d.serial)
            (some-injective _ _
              (rw (lookup-insert v.id id (new_binding s.next v c) s.shares, here) at e))
            n.next
      | inr there ↦
          n.newer b (rw (lookup-insert v.id id (new_binding s.next v c) s.shares, there) at e)
    ]

keep-some : (c : Conn) (o : Option Binding) (b : Binding) → keep c o ≡ some b → o ≡ some b
unfolding keep
keep-some c none b e = cc
keep-some c (some d) b e = ground arith

keep_own : (b d : Binding) → keep b.conn (some b) ≡ some d → ⊥
unfolding keep same_conn
keep_own b d e = ground arith

unpublish-IsNewer :
    (id : Bytes) (k : ℕ) (c : Conn) (s : Server) → IsNewer id k s → IsNewer id k (unpublish c s).0
unfolding unpublish
unpublish-IsNewer id k c s n = record {
  map = unpublish-IsMap c s n.map;
  next = n.next;
  newer = λ b e.
      n.newer b
        (keep-some c (lookup id s.shares) b (sym (lookup-drop_shares c id s.shares n.map) ∙ e));
}

withdrawn-IsNewer :
    (s : Server) (id : Bytes) (b : Binding)
    → IsNumbered s
    → lookup id s.shares ≡ some b
    → IsNewer id b.serial (unpublish b.conn s).0
unfolding unpublish
withdrawn-IsNewer s id b n e = record {
  map = unpublish-IsMap b.conn s n.map;
  next = n.serials id b e;
  newer = λ d f. absurd (gone d (sym (lookup-drop_shares b.conn id s.shares n.map) ∙ f));
}
  where
    gone : (d : Binding) → keep b.conn (lookup id s.shares) ≡ some d → ⊥
    gone d f = keep_own b d (subst (λ o. keep b.conn o ≡ some d) e f)

run-IsNewer :
    (id : Bytes) (k : ℕ) (ops : List Op) (s : Server) → IsNewer id k s → IsNewer id k (run ops s).0
unfolding run
run-IsNewer id k [] s n = n
run-IsNewer id k (publishes e c p ∷ ops) s n = run-IsNewer id k ops _ (
    publish_keeps (IsNewer id k) c (λ t r m. record { map = m.map; next = m.next; newer = m.newer })
      (λ t v m. bind-IsNewer id k v c t m)
      (λ t m. record { map = m.map; next = m.next; newer = m.newer }) e p s n)
run-IsNewer id k (withdraws c ∷ ops) s n = run-IsNewer id k ops _ (unpublish-IsNewer id k c s n)

not_current :
    (s : Server) (b : Binding) (id : Bytes)
    → id ≡ b.share.id
    → IsNewer id b.serial s
    → is_current (lookup b.share.id s.shares) b ≡ false
unfolding is_current
not_current s b id same n =
    subst (λ k. is_current (lookup k s.shares) b ≡ false) same (older (lookup id s.shares) n.newer)
  where
    older :
        (o : Option Binding)
        → ((d : Binding) → o ≡ some d → b.serial < d.serial)
        → is_current o b ≡ false
    older none h = refl
    older (some d) h = ground (arith, h d refl)

-- A binding whose connection has withdrawn is refused for a new stream, at the start of its opening
-- and when the channel has opened, whatever was published and withdrawn since: the channels and the
-- count of the streams stay as they were.
pub attach-withdrawn :
    (s : Server) (id : Bytes) (b : Binding) (ops : List Op) (ch : ℕ)
    → IsNumbered s
    → lookup id s.shares ≡ some b
    → (begin_open b (run ops (unpublish b.conn s).0).0
        ≡ ((run ops (unpublish b.conn s).0).0, changed))
      × (attach b ch (run ops (unpublish b.conn s).0).0
          ≡ ((run ops (unpublish b.conn s).0).0, false))
unfolding begin_open attach
attach-withdrawn s id b ops ch n e =
    let later = run-IsNewer id b.serial ops (unpublish b.conn s).0 (withdrawn-IsNewer s id b n e) in
    let old = not_current (run ops (unpublish b.conn s).0).0 b id (n.named_by id b e) later in
    (rw old refl, rw old refl)

-- A server without publications is numbered, and publishing and withdrawing keep it so.
bind-IsNumbered : (c : Conn) (s : Server) (v : Share) → IsNumbered s → IsNumbered (bind v c s)
unfolding bind new_binding
bind-IsNumbered c s v n = record {
  map = insert-IsMap v.id _ s.shares n.map;
  named_by = λ id b e. (bound id b e).0;
  serials = λ id b e. (bound id b e).1;
}
  where
    bound :
        (id : Bytes) (b : Binding)
        → lookup id (insert v.id (new_binding s.next v c) s.shares) ≡ some b
        → (id ≡ b.share.id) × (b.serial < s.next + 1)
    bound id b e = elim (Bool-cases (bytes_eq v.id id)) [
      | inl here ↦
          subst (λ (d : Binding). (id ≡ d.share.id) × (d.serial < s.next + 1))
            (some-injective _ _
              (rw (lookup-insert v.id id (new_binding s.next v c) s.shares, here) at e))
            (sym (bytes_eq→eq v.id id here), omega arith)
      | inr there ↦
          let f = rw (lookup-insert v.id id (new_binding s.next v c) s.shares, there) at e in
          (n.named_by id b f, omega (arith, n.serials id b f))
    ]

unpublish-IsNumbered : (c : Conn) (s : Server) → IsNumbered s → IsNumbered (unpublish c s).0
unfolding unpublish
unpublish-IsNumbered c s n = record {
  map = unpublish-IsMap c s n.map;
  named_by = λ id b e. n.named_by id b (kept id b e);
  serials = λ id b e. n.serials id b (kept id b e);
}
  where
    kept :
        (id : Bytes) (b : Binding)
        → lookup id (drop_shares c s.shares) ≡ some b
        → lookup id s.shares ≡ some b
    kept id b e =
        keep-some c (lookup id s.shares) b (sym (lookup-drop_shares c id s.shares n.map) ∙ e)

pub run-IsNumbered : (ops : List Op) (s : Server) → IsNumbered s → IsNumbered (run ops s).0
unfolding run
run-IsNumbered [] s n = n
run-IsNumbered (publishes e c p ∷ ops) s n = run-IsNumbered ops _ (
    publish_keeps IsNumbered c
      (λ t r m. record { map = m.map; named_by = m.named_by; serials = m.serials })
      (λ t v m. bind-IsNumbered c t v m)
      (λ t m. record { map = m.map; named_by = m.named_by; serials = m.serials }) e p s n)
run-IsNumbered (withdraws c ∷ ops) s n = run-IsNumbered ops _ (unpublish-IsNumbered c s n)
