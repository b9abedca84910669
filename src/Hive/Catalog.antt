-- ===== src/Hive/Catalog.antt =====
-- The catalog as its consumers see it: which connection publishes an identifier. Publishing and
-- withdrawing refine operations on that map alone.
use mathlib.Core.Path.{fun_ext}
use herdr_hive.Base.{
  ◌≡◌, refl, subst, ap, ◌∙◌, not, Option, none, some, List, [], ◌∷◌, if◌then◌else◌, Bytes, bytes_eq,
  bytes_eq_iff, bytes_eq→eq, arith, if_elim, if_case,
}
use herdr_hive.Base.Dict.{Dict, lookup, insert, lookup-insert}
use herdr_hive.Registry.{Named, name_device}
use herdr_hive.Registry.Named.{named, full, unsaved, stuck}
use herdr_hive.Hive.Shares.{
  Share, Conn, Binding, Server, same_conn, Publish, Surroundings, valid_publication, has_conn,
  published_share, new_binding, bind, bind_all, own, with_nonce, with_name, publish, drop_shares,
  unpublish,
}

-- No key is bound twice, as in every Go map.
unfoldable pub IsMap {ℓ} : {V : Type ℓ} → Dict V → Type ℓ
IsMap [] = Unit
IsMap ((k, v) ∷ m) = (lookup k m ≡ none) × IsMap m

pub insert-IsMap {ℓ} :
    {V : Type ℓ} (k : Bytes) (v : V) (m : Dict V) → IsMap m → IsMap (insert k v m)
unfolding IsMap insert lookup
insert-IsMap k v [] h = (refl, tt)
insert-IsMap k v ((j, w) ∷ m) h =
    if_case IsMap (bytes_eq j k) _ _
      (λ e. (subst (λ i. lookup i m ≡ none) (bytes_eq→eq j k e) h.0, h.1))
      (λ e. (
        ground (arith, lookup-insert k j v m, bytes_eq_iff k j, bytes_eq_iff j k, h.0),
        insert-IsMap k v m h.1,
      ))

drop-lookup-none :
    (c : Conn) (k : Bytes) (m : Dict Binding)
    → lookup k m ≡ none
    → lookup k (drop_shares c m) ≡ none
unfolding drop_shares lookup
drop-lookup-none c k [] h = refl
drop-lookup-none c k ((j, b) ∷ m) h = ground (arith, drop-lookup-none c k m)

drop_shares-IsMap : (c : Conn) (m : Dict Binding) → IsMap m → IsMap (drop_shares c m)
unfolding drop_shares IsMap
drop_shares-IsMap c [] h = tt
drop_shares-IsMap c ((k, b) ∷ m) h =
    if_elim IsMap (same_conn b.conn c) _ _ (drop_shares-IsMap c m h.1)
      (drop-lookup-none c k m h.0, drop_shares-IsMap c m h.1)

-- What `unpublish` leaves of a binding.
unfoldable pub keep : Conn → Option Binding → Option Binding
keep c none = none
keep c (some b) = if same_conn b.conn c then none else some b

pub lookup-drop_shares :
    (c : Conn) (k : Bytes) (m : Dict Binding)
    → IsMap m
    → lookup k (drop_shares c m) ≡ keep c (lookup k m)
unfolding drop_shares lookup keep IsMap
lookup-drop_shares c k [] h = refl
lookup-drop_shares c k ((j, b) ∷ m) h =
    ground (arith, lookup-drop_shares c k m h.1, drop-lookup-none c k m, bytes_eq_iff j k)

-- The abstract view.
abbrev pub Catalog : Type 0
Catalog = Bytes → Option Conn

unfoldable pub conn_of : Option Binding → Option Conn
conn_of none = none
conn_of (some b) = some b.conn

unfoldable pub catalog : Server → Catalog
catalog s id = conn_of (lookup id s.shares)

-- `c` publishes the shares, or withdraws all that it published.
unfoldable pub overlay : Conn → List Share → Catalog → Catalog
overlay c [] f = f
overlay c (v ∷ vs) f = overlay c vs (λ id. if bytes_eq v.id id then some c else f id)

unfoldable pub keep_conn : Conn → Option Conn → Option Conn
keep_conn c none = none
keep_conn c (some d) = if same_conn d c then none else some d

unfoldable pub withdraw : Conn → Catalog → Catalog
withdraw c f id = keep_conn c (f id)

-- A refused publication changes nothing.
unfoldable pub overlay_if : Conn → Option (List Share) → Catalog → Catalog
unfolding overlay
overlay_if c none f = f
overlay_if c (some out) f = overlay c out f

conn_of-keep : (c : Conn) (b : Option Binding) → conn_of (keep c b) ≡ keep_conn c (conn_of b)
unfolding conn_of keep keep_conn
conn_of-keep c none = refl
conn_of-keep c (some b) = ground arith

catalog-unpublish :
    (c : Conn) (s : Server) → IsMap s.shares → catalog (unpublish c s).0 ≡ withdraw c (catalog s)
unfolding catalog unpublish withdraw conn_of keep_conn
catalog-unpublish c s h =
    fun_ext
      λ id. ap conn_of (lookup-drop_shares c id s.shares h) ∙ conn_of-keep c (lookup id s.shares)

catalog-bind :
    (v : Share) (c : Conn) (s : Server)
    → catalog (bind v c s) ≡ (λ id. if bytes_eq v.id id then some c else catalog s id)
unfolding catalog bind conn_of new_binding
catalog-bind v c s =
    fun_ext λ id. ground (arith, lookup-insert v.id id (new_binding s.next v c) s.shares)

catalog-bind_all :
    (made : Share → Share) (c : Conn) (vs : List Share) (s : Server)
    → catalog (bind_all made c vs s).0 ≡ overlay c (bind_all made c vs s).1 (catalog s)
unfolding bind_all overlay
catalog-bind_all made c [] s = refl
catalog-bind_all made c (v ∷ vs) s =
    catalog-bind_all made c vs (bind (made v) c s)
    ∙ ap (overlay c (bind_all made c vs (bind (made v) c s)).1) (catalog-bind (made v) c s)

bind_all-IsMap :
    (made : Share → Share) (c : Conn) (vs : List Share) (s : Server)
    → IsMap s.shares
    → IsMap (bind_all made c vs s).0.shares
unfolding bind_all bind
bind_all-IsMap made c [] s h = h
bind_all-IsMap made c (v ∷ vs) s h =
    bind_all-IsMap made c vs (bind (made v) c s) (insert-IsMap (made v).id _ s.shares h)

pub unpublish-IsMap : (c : Conn) (s : Server) → IsMap s.shares → IsMap (unpublish c s).0.shares
unfolding unpublish
unpublish-IsMap c s h = drop_shares-IsMap c s.shares h

Refines : Conn → Server → Server × Option (List Share) → Type 0
Refines c s r = (catalog r.0 ≡ overlay_if c r.1 (catalog s)) × IsMap r.0.shares

publish-Refines :
    (e : Surroundings) (c : Conn) (p : Publish) (s : Server)
    → IsMap s.shares
    → Refines c s (publish e c p s)
unfolding publish with_name with_nonce own Refines overlay_if catalog
publish-Refines e c p s h =
    if_elim (Refines c s) (not (valid_publication p)) _ _ (refl, h)
      (if_elim (Refines c s) (has_conn (lookup c.owner s.owners)) _ _ (refl, h)
        (name_result (record s { registry = (name_device s.registry c.owner p.name e.saved).0 })
          refl h (name_device s.registry c.owner p.name e.saved).1))
  where
    bound :
        (t : Server)
        → catalog t ≡ catalog s
        → IsMap t.shares
        → (name nonce : Bytes)
        → Refines c s (own c (bind_all (published_share e.sha256 c name nonce) c p.shares t))
    bound t k h name nonce =
        let made = published_share e.sha256 c name nonce in
        (
          catalog-bind_all made c p.shares t ∙ ap (overlay c (bind_all made c p.shares t).1) k,
          bind_all-IsMap made c p.shares t h,
        )

    nonce_result :
        (t : Server)
        → catalog t ≡ catalog s
        → IsMap t.shares
        → (name : Bytes) (nonce : Option Bytes) → Refines c s (with_nonce e c p name nonce t)
    nonce_result t k h name none = (k, h)
    nonce_result t k h name (some nonce) = bound t k h name nonce

    name_result :
        (t : Server)
        → catalog t ≡ catalog s
        → IsMap t.shares
        → (r : Named) → Refines c s (with_name e c p t r)
    name_result t k h (named name) = nonce_result t k h name e.nonce
    name_result t k h full = (k, h)
    name_result t k h (unsaved name) = (k, h)
    name_result t k h stuck = (k, h)

-- What connections ask of the server, and what came of it.
pub data Op : Type 0 where
  publishes : Surroundings → Conn → Publish → Op
  withdraws : Conn → Op

pub data Event : Type 0 where
  published : Conn → Option (List Share) → Event
  withdrawn : Conn → Event

unfoldable pub run : List Op → Server → Server × List Event
run [] s = (s, [])
run (publishes e c p ∷ ops) s =
    let r = publish e c p s in let rest = run ops r.0 in (rest.0, published c r.1 ∷ rest.1)
run (withdraws c ∷ ops) s = let rest = run ops (unpublish c s).0 in (rest.0, withdrawn c ∷ rest.1)

-- The same events on the abstract catalog.
unfoldable pub replay : List Event → Catalog → Catalog
unfolding overlay_if
replay [] f = f
replay (published c out ∷ events) f = replay events (overlay_if c out f)
replay (withdrawn c ∷ events) f = replay events (withdraw c f)

-- Over any run of publications and withdrawals, the server's map shows the catalog that the events
-- alone give: who publishes an identifier depends on nothing else of the state.
pub run-replay :
    (ops : List Op) (s : Server)
    → IsMap s.shares
    → catalog (run ops s).0 ≡ replay (run ops s).1 (catalog s)
unfolding run replay Refines
run-replay [] s h = refl
run-replay (publishes e c p ∷ ops) s h =
    let r = publish-Refines e c p s h in
    run-replay ops (publish e c p s).0 r.1 ∙ ap (replay (run ops (publish e c p s).0).1) r.0
run-replay (withdraws c ∷ ops) s h =
    run-replay ops (unpublish c s).0 (unpublish-IsMap c s h)
    ∙ ap (replay (run ops (unpublish c s).0).1) (catalog-unpublish c s h)
