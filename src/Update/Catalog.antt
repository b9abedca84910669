-- ===== src/Update/Catalog.antt =====
-- Finding the latest release: `get` and `latest`, internal/update/update.go, 89-111 and 128-157.
use herdr_hive.Base.{
  ℕ, zero, suc, ◌+◌, ◌==◌, Bool, true, false, ◌&&◌, not, Option, none, some, List, [], ◌∷◌, ◌++◌,
  ltb, if◌then◌else◌, Bytes, bytes_eq, length, codes, starts_with, drop,
}
use herdr_hive.Base.Decimal.{decimal}
use herdr_hive.Update.Version.{is_stable, newer}

pub record Release : Type 0 where
  pub tag : Bytes
  pub draft : Bool
  pub prerelease : Bool

-- Each error by its text in the source, or by the call that fails.
pub data UpdateError : Type 0 where
  http_failed : UpdateError
  http_status : ℕ → UpdateError
  too_large : UpdateError
  bad_json : UpdateError
  no_release : UpdateError
  catalog_exceeds : UpdateError
  -- An index out of range in `newer`.
  panicked : UpdateError
  version_check : UpdateError
  duplicate_checksum : UpdateError
  bad_checksum : UpdateError
  checksum_mismatch : UpdateError
  bad_archive : UpdateError
  too_many_entries : UpdateError
  invalid_entry : UpdateError
  unexpected_manifest : UpdateError
  unexpected_path : UpdateError
  duplicate_entry : UpdateError
  missing_binary : UpdateError
  missing_manifest : UpdateError
  staging : UpdateError
  wrong_version : UpdateError
  different_plugin : UpdateError
  wrong_plugin_version : UpdateError
  unreadable_manifest : UpdateError
  renaming : UpdateError

pub data Answer {ℓ} (A : Type ℓ) : Type ℓ where
  ok : A → Answer A
  err : UpdateError → Answer A

infixl 5 ◌>>=◌
unfoldable pub ◌>>=◌ {ℓ κ} : {A : Type ℓ} {B : Type κ} → Answer A → (A → Answer B) → Answer B
ok a >>= f = f a
err e >>= f = err e

-- What the network answers to a request: nothing, or a status and the body.
pub data Http : Type 0 where
  broken : Http
  reply : ℕ → Bytes → Http

-- The reader stops one byte after the limit, so that a longer body is seen.
unfoldable pub received : ℕ → Http → Answer Bytes
received limit broken = err http_failed
received limit (reply status body) =
    if not (status == 200)
    then err (http_status status)
    else if ltb limit (length body)
    then err too_large
    else ok body

-- `get`, by the address
unfoldable pub get : (Bytes → Http) → Bytes → ℕ → Answer Bytes
unfolding received
get net address limit = received limit (net address)

-- The releases that count, as versions.
unfoldable pub candidate : Bytes → Release → Option Bytes
candidate component r =
    let prefix = component ++ codes "/v" in
    let v = drop (length prefix) r.tag in
    if starts_with prefix r.tag && not r.draft && not r.prerelease && is_stable v
    then some v
    else none

unfoldable pub better : Bytes → Option Bool → Bytes → Answer Bytes
better v none best = err panicked
better v (some true) best = ok v
better v (some false) best = ok best

unfoldable pub consider : Option Bytes → Bytes → Answer Bytes
unfolding better
consider none best = ok best
consider (some v) best = better v (newer v best) best

-- One page.
unfoldable pub best_of : Bytes → List Release → Bytes → Answer Bytes
unfolding consider
best_of component [] best = ok best
best_of component (r ∷ rs) best = do
  next ← consider (candidate component r) best
  best_of component rs next

unfoldable pub page_address : Bytes → ℕ → Bytes
page_address api page = api ++ codes "?per_page=100&page=" ++ decimal page

unfoldable pub decoded : Option (List Release) → Answer (List Release)
decoded none = err bad_json
decoded (some rs) = ok rs

unfoldable pub page_of :
    (Bytes → Http) → (Bytes → Option (List Release)) → Bytes → ℕ → Answer (List Release)
unfolding decoded
page_of net json api page = do body ← get net (page_address api page) 4_194_304; decoded (json body)

unfoldable pub chosen : Bytes → Answer Bytes
chosen best = if bytes_eq best [] then err no_release else ok best

-- A page of fewer than 100 is the last one.
unfoldable pub go_on : List Release → Bytes → Answer Bytes → Answer Bytes
unfolding chosen
go_on rs best more = if ltb (length rs) 100 then chosen best else more

-- The loop over the pages from `page` on, as many as `left`.
unfoldable pub latest_from : (ℕ → Answer (List Release)) → Bytes → ℕ → ℕ → Bytes → Answer Bytes
unfolding go_on
latest_from pages component zero page best = err catalog_exceeds
latest_from pages component (suc left) page best = do
  rs ← pages page
  next ← best_of component rs best
  go_on rs next (latest_from pages component left (page + 1) next)

-- `latest`
unfoldable pub latest :
    (Bytes → Http) → (Bytes → Option (List Release)) → Bytes → Bytes → Answer Bytes
latest net json api component = latest_from (page_of net json api) component 10 1 []
