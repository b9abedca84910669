-- ===== src/Sizing/View.antt =====
-- One viewer's side: `sizeView`, the wanted panes of `reconcile`, and `settleNavigation`. sizing.go,
-- 95-121, 547-566 and 711-717.
use herdr_hive.Base.{
  ℕ, ◌-◌, Bool, true, ◌&&◌, ◌||◌, not, Option, none, some, List, [], ◌∷◌, ltb, leb, if◌then◌else◌,
  Bytes, bytes_eq, length,
}
use herdr_hive.Base.Dict.{Dict}
use herdr_hive.Sizing.Panes.{Pane, Snapshot, Answer, contains, add}
use herdr_hive.Sizing.Panes.SizeError.{navigation_timeout, sizing_limit}
use herdr_hive.Sizing.Panes.Answer.{ok, err}
use herdr_hive.Sizing.Reclaim.{size_slots}

pub record Navigation : Type 0 where
  pub tab : Bytes
  pub seq : ℕ
  pub ack : Bool
  pub floor : ℕ
  -- In nanoseconds, on a clock that does not go back.
  pub since : ℕ

-- The fields of `sizeView` without the contexts and the channels, which belong to the transport.
-- `held` is the set of the map's keys, all of whose values are true.
pub record View : Type 0 where
  pub active : Bool
  pub snapshot : Snapshot
  pub catalog_seen : Bool
  pub held : List Bytes
  pub held_locks : Dict ℕ
  pub pending : Dict Navigation
  pub sequence : ℕ
  pub initial : Bool
  pub initialized : Bool
  pub activity : ℕ
  pub hide : Dict ℕ
  pub requested_active : Bool

abbrev pub navigation_limit : ℕ
navigation_limit = 10_000_000_000

-- The tabs whose panes are wanted; `none` when a navigation has waited for over 10 seconds.
unfoldable pub wanted_tabs : ℕ → Dict Navigation → List Bytes → Option (List Bytes)
wanted_tabs now [] tabs = some tabs
wanted_tabs now ((id, n) ∷ pending) tabs =
    if ltb navigation_limit (now - n.since) then none else wanted_tabs now pending (add n.tab tabs)

unfoldable pub may_want : Option (List Bytes) → Bytes → Bool
may_want none pane = true
may_want (some panes) pane = contains pane panes

-- The panes to hold in the order of the snapshot, each once.
unfoldable pub wanted_panes : List Bytes → Option (List Bytes) → List Pane → List Bytes → List Bytes
wanted_panes tabs panes [] seen = []
wanted_panes tabs panes (p ∷ ps) seen =
    let rest = wanted_panes tabs panes ps in
    if contains p.tab tabs && not (contains p.id seen) && may_want panes p.id
    then p.id ∷ rest (p.id ∷ seen)
    else rest seen

unfoldable pub bounded : List Bytes → Answer (List Bytes)
bounded order = if ltb size_slots (length order) then err sizing_limit else ok order

unfoldable pub wanted_in :
    Option (List Bytes) → List Pane → Option (List Bytes) → Answer (List Bytes)
wanted_in panes listed none = err navigation_timeout
wanted_in panes listed (some tabs) = bounded (wanted_panes tabs panes listed [])

-- `wanted` and `order` of `reconcile`.
unfoldable pub wanted_order : ℕ → Option (List Bytes) → View → Answer (List Bytes)
wanted_order now panes v =
    if v.active
    then wanted_in panes v.snapshot.panes (wanted_tabs now v.pending (v.snapshot.tab ∷ []))
    else ok []

-- A navigation is over: it is acknowledged, and its floor or its tab is in the snapshot.
unfoldable pub is_settled : Snapshot → Navigation → Bool
is_settled snapshot n =
    n.ack && ((ltb 0 n.floor && leb n.floor snapshot.revision) || bytes_eq snapshot.tab n.tab)

unfoldable pub settle : Snapshot → Dict Navigation → Dict Navigation
settle snapshot [] = []
settle snapshot ((id, n) ∷ pending) =
    if is_settled snapshot n then settle snapshot pending else (id, n) ∷ settle snapshot pending

-- `settleNavigation`
unfoldable pub settle_navigation : View → View
settle_navigation v = record v { pending = settle v.snapshot v.pending }
