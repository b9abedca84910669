-- ===== src/Tests/SizingTests.antt =====
-- A shared session with one viewer.
use herdr_hive.Base.{
  get_elem?, ℕ, ◌≡◌, ◌<◌, refl, true, false, none, some, [], ◌∷◌, Bytes, codes, arith,
}
use herdr_hive.Base.Dict.{lookup, insert}
use herdr_hive.Sizing.Locks.{increment, Lock, Sizing, has, write, close_sizing}
use herdr_hive.Sizing.Locks.ℤ.{pos}
use herdr_hive.Sizing.Reclaim.{reserve, reserve_size_slot}
use herdr_hive.Sizing.Panes.{
  contains, add, set_of, pane_ids, covers, is_same, is_initial, snapshot_locked,
}
use herdr_hive.Sizing.Panes.SizeError.{binding_closed}
use herdr_hive.Sizing.Panes.Answer.{ok}
use herdr_hive.Sizing.View.{
  View, wanted_tabs, may_want, wanted_panes, bounded, wanted_in, wanted_order,
}
use herdr_hive.Sizing.Acquire.{
  Native, measured, drop_retired, check_lock, preflight, take_ref, add_lock, started, reserved,
  hold_size, acquire_lock, acquire, visit, each, release_each, release_unwanted, start_pass,
  run_pass, finish, with_order, with_catalog, catalog, reconcile,
}
use herdr_hive.Sizing.Sessions.{
  Session, new_view, with_view, reconciled, joins, reconciles, moves, Reachable, start, step,
}
use herdr_hive.Sizing.Sessions.Holders.{holders}
use herdr_hive.Sizing.Sessions.Counts.{refs-holders, reserve-held}
use herdr_hive.Sizing.Owned.{holds, holds_here}
use herdr_hive.Sizing.Wanted.Kept.{HoldsWanted, reconcile-holds}
use herdr_hive.Sizing.Ends.{close_sizing-final}

abbrev no_lock : Lock
no_lock = record { refs = pos 0; epoch = 0; retire = false; retired = false; done = true }

abbrev pub empty : Sizing
empty = record {
  heap = λ h. no_lock;
  next = 0;
  idle = [];
  slots = 0;
  closed = false;
  locks = [];
  panes = none;
}

abbrev pub pane : Bytes
pane = codes "p1"

abbrev pub shown : View
shown = record new_view {
  active = true;
  snapshot = record {
    revision = 1;
    boot = codes "b";
    tab = codes "t1";
    workspaces = [];
    panes =
        record { id = pane; tab = codes "t1" } ∷ record { id = codes "p2"; tab = codes "t2" } ∷ [];
  };
}

abbrev pub native : Native
native = record {
  now = 0;
  listed = ok (pane ∷ codes "p2" ∷ []);
  is_over = λ p. false;
  exists = λ p. ok true;
  geometry = λ p. ok (record { terminal = p; columns = 80; rows = 24 });
  geometry_again = λ p. ok (record { terminal = p; columns = 80; rows = 24 });
  starts = λ p g. none;
}

abbrev published : Session
published = record { sizing = empty; views = [] }

abbrev joined : Session
joined = record published { views = new_view ∷ [] }

abbrev pub moved : Session
moved = with_view joined 0 (joined.sizing, shown)

abbrev held : Session
held = reconciled native moved 0 shown

has_none : (h : ℕ) → has h [] ≡ true → h < 0
unfolding has
has_none h e = cc

pub moved_view : get_elem? moved.views 0 ≡ some shown
unfolding with_view
moved_view = refl

pub moved-Reachable : Reachable moved
unfolding with_view
moved-Reachable =
    step joined moved
      (step published joined
        (start published (record { no_locks = refl; no_views = refl; idle_old = has_none })) joins)
      (moves 0 new_view shown refl refl refl)

held-Reachable : Reachable held
held-Reachable = step moved held moved-Reachable (reconciles native 0 shown moved_view)

-- The viewer acquires the pane of its tab with a new helper.
held_lock : lookup pane held.sizing.locks ≡ some 0
unfolding with_view reconciled reconcile catalog snapshot_locked is_same is_initial covers set_of
    add contains pane_ids with_catalog wanted_order wanted_tabs wanted_in wanted_panes may_want
    bounded with_order run_pass start_pass each visit preflight drop_retired check_lock measured
    acquire acquire_lock hold_size reserve_size_slot reserve reserved started add_lock take_ref
    increment write release_unwanted release_each finish lookup insert
held_lock = refl

refs-holders_example : (held.sizing.heap 0).refs ≡ pos (holders held.views pane 0)
refs-holders_example = refs-holders held pane 0 held-Reachable held_lock

reserve-held_example : (reserve_size_slot held.sizing).0.heap 0 ≡ held.sizing.heap 0
unfolding with_view reconciled reconcile catalog snapshot_locked is_same is_initial covers set_of
    add contains pane_ids with_catalog wanted_order wanted_tabs wanted_in wanted_panes may_want
    bounded with_order run_pass start_pass each visit preflight drop_retired check_lock measured
    acquire acquire_lock hold_size reserve_size_slot reserve reserved started add_lock take_ref
    increment write release_unwanted release_each finish lookup insert holders holds holds_here
reserve-held_example = reserve-held held pane 0 held-Reachable held_lock (omega arith)

reconcile-holds_example : HoldsWanted native (pane ∷ []) (reconcile native empty shown).1.held
unfolding reconcile catalog snapshot_locked is_same is_initial covers set_of add contains pane_ids
    with_catalog wanted_order wanted_tabs wanted_in wanted_panes may_want bounded with_order
    run_pass start_pass each visit preflight drop_retired check_lock measured acquire acquire_lock
    hold_size reserve_size_slot reserve reserved started add_lock take_ref increment write
    release_unwanted release_each finish lookup insert
reconcile-holds_example = reconcile-holds native empty shown (pane ∷ []) refl refl

close_sizing-final_example :
    ((p : Bytes) (h : ℕ)
      → lookup p held.sizing.locks ≡ some h
      → ((close_sizing held.sizing).heap h).done ≡ true)
    × ((p : Bytes) → lookup p (close_sizing held.sizing).locks ≡ none)
    × ((n : Native) (v : View)
        → reconcile n (close_sizing held.sizing) v
          ≡ (close_sizing held.sizing, v, some binding_closed))
close_sizing-final_example = close_sizing-final held.sizing
