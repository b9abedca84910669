-- ===== src/Hive/Rules.antt =====
-- A property of the server that `publish` keeps, when each of the changes that it is made of does.
use herdr_hive.Base.{Option, none, some, List, [], ◌∷◌, not, Bytes, if_elim}
use herdr_hive.Base.Dict.{lookup, insert}
use herdr_hive.Registry.{Registry, Named, name_device}
use herdr_hive.Registry.Named.{named, full, unsaved, stuck}
use herdr_hive.Hive.Shares.{
  Share, Conn, Server, Publish, Surroundings, valid_publication, has_conn, published_share, bind,
  bind_all, own, with_nonce, with_name, publish,
}

module _ {ℓ} (P : Server → Type ℓ) (c : Conn)
    (named_anew : (s : Server) (r : Registry) → P s → P (record s { registry = r }))
    (bound : (s : Server) (v : Share) → P s → P (bind v c s))
    (owned : (s : Server) → P s → P (record s { owners = insert c.owner c s.owners })) where
  bind_all_keeps :
      (made : Share → Share) (vs : List Share) (s : Server) → P s → P (bind_all made c vs s).0
  unfolding bind_all
  bind_all_keeps made [] s h = h
  bind_all_keeps made (v ∷ vs) s h = bind_all_keeps made vs (bind (made v) c s) (bound s (made v) h)

  Kept : Server × Option (List Share) → Type ℓ
  Kept r = P r.0

  with_nonce_keeps :
      (e : Surroundings) (p : Publish) (name : Bytes) (nonce : Option Bytes) (s : Server)
      → P s
      → Kept (with_nonce e c p name nonce s)
  unfolding with_nonce own Kept
  with_nonce_keeps e p name none s h = h
  with_nonce_keeps e p name (some nonce) s h =
      owned _ (bind_all_keeps (published_share e.sha256 c name nonce) p.shares s h)

  with_name_keeps :
      (e : Surroundings) (p : Publish) (s : Server) (r : Named) → P s → Kept (with_name e c p s r)
  unfolding with_name Kept
  with_name_keeps e p s (named name) h = with_nonce_keeps e p name e.nonce s h
  with_name_keeps e p s full h = h
  with_name_keeps e p s (unsaved name) h = h
  with_name_keeps e p s stuck h = h

  kept : (s : Server) (out : Option (List Share)) → P s → Kept (s, out)
  unfolding Kept
  kept s out h = h

  of_kept : (r : Server × Option (List Share)) → Kept r → P r.0
  unfolding Kept
  of_kept r h = h

  publish-Kept : (e : Surroundings) (p : Publish) (s : Server) → P s → Kept (publish e c p s)
  unfolding publish
  publish-Kept e p s h =
      let r = name_device s.registry c.owner p.name e.saved in
      if_elim Kept (not (valid_publication p)) _ _ (kept s none h) (
        if_elim Kept (has_conn (lookup c.owner s.owners)) _ _ (kept s none h)
          (with_name_keeps e p (record s { registry = r.0 }) r.1 (named_anew s r.0 h)))

  pub publish_keeps : (e : Surroundings) (p : Publish) (s : Server) → P s → P (publish e c p s).0
  publish_keeps e p s h = of_kept (publish e c p s) (publish-Kept e p s h)
