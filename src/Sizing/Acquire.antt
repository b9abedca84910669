-- ===== src/Sizing/Acquire.antt =====
-- `reconcile` and the viewer's `close`: sizing.go, 230-241, 334, 517-526 and 530-706.
use herdr_hive.Base.{
  ℕ, ◌+◌, ◌-◌, Bool, true, false, ◌&&◌, ◌||◌, not, Option, none, some, List, [], ◌∷◌, if◌then◌else◌,
  Bytes, bytes_eq,
}
use herdr_hive.Base.Dict.{Dict, lookup, insert, delete}
use herdr_hive.Sizing.Locks.{
  increment, is_zero, Lock, Sizing, write, stop_locked, release_locked, reuse_locked, is_other,
}
use herdr_hive.Sizing.Locks.ℤ.{pos}
use herdr_hive.Sizing.Reclaim.{reserve_size_slot}
use herdr_hive.Sizing.Panes.{SizeError, Answer, contains, add, snapshot_locked}
use herdr_hive.Sizing.Panes.SizeError.{binding_closed, sizing_limit, sizing_unavailable, cancelled}
use herdr_hive.Sizing.Panes.Answer.{ok, err}
use herdr_hive.Sizing.View.{View, wanted_order}

-- The size of a pane's terminal.
pub record Geometry : Type 0 where
  pub terminal : Bytes
  pub columns : ℕ
  pub rows : ℕ

-- What one `reconcile` is answered: the clock in nanoseconds, `pane.list`, and for a pane whether the
-- contexts are over, `paneExists`, `terminalGeometry` in the first and in the second loop, and the
-- start of a size helper.
pub record Native : Type 0 where
  pub now : ℕ
  pub listed : Answer (List Bytes)
  pub is_over : Bytes → Bool
  pub exists : Bytes → Answer Bool
  pub geometry : Bytes → Answer Geometry
  pub geometry_again : Bytes → Answer Geometry
  pub starts : Bytes → Option Geometry → Option SizeError

unfoldable pub without : Bytes → List Bytes → List Bytes
without k [] = []
without k (j ∷ js) = if bytes_eq j k then without k js else j ∷ without k js

-- `acquisitionErrorLocked`: a pane that is gone is no error.
unfoldable pub gone_or : Answer Bool → SizeError → Option SizeError
gone_or (ok false) e = none
gone_or (ok true) e = some e
gone_or (err q) e = some e

unfoldable pub acquisition_error : Native → Bytes → SizeError → Option SizeError
unfolding gone_or
acquisition_error n pane e = if n.is_over pane then some cancelled else gone_or (n.exists pane) e

-- What a pass of a loop leaves: the session, the panes still wanted, the viewer's maps and the
-- measured sizes, and the error that ended it.
pub record Pass : Type 0 where
  pub sizing : Sizing
  pub wanted : List Bytes
  pub held : List Bytes
  pub held_locks : Dict ℕ
  pub geometry : Dict Geometry
  pub error : Option SizeError

-- The pane is dropped, or the error ends the pass.
unfoldable pub give_up : Bytes → Option SizeError → Pass → Pass
give_up pane none p = record p { wanted = without pane p.wanted }
give_up pane (some e) p = record p { error = some e }

unfoldable pub measured : Native → Bytes → Answer Geometry → Pass → Pass
unfolding give_up acquisition_error
measured n pane (err e) p = give_up pane (acquisition_error n pane e) p
measured n pane (ok g) p = record p { geometry = insert pane g p.geometry }

-- An idle lock that the process has reclaimed is stopped first.
unfoldable pub drop_retired : Bytes → Option ℕ → Sizing → Sizing × Option ℕ
drop_retired pane none s = (s, none)
drop_retired pane (some h) s =
    if is_zero (s.heap h).refs && (s.heap h).retired
    then (stop_locked pane h s, none)
    else (s, some h)

-- The first loop, for one pane.
unfoldable pub check_lock : Native → Bytes → Sizing × Option ℕ → Pass → Pass
unfolding give_up acquisition_error measured
check_lock n pane (s, none) p = measured n pane (n.geometry pane) (record p { sizing = s })
check_lock n pane (s, some h) p =
    if (s.heap h).done
    then give_up pane (acquisition_error n pane sizing_unavailable)
        (record p { sizing = stop_locked pane h s })
    else record p { sizing = s }

unfoldable pub preflight : Native → Bytes → Pass → Pass
preflight n pane p = check_lock n pane (drop_retired pane (lookup pane p.sizing.locks) p.sizing) p

-- `l.refs++`, and the viewer's maps.
unfoldable pub take_ref : Bytes → ℕ → Pass → Pass
take_ref pane h p =
    let s = p.sizing in
    record p {
      sizing = record s {
        heap = write s.heap h (record (s.heap h) { refs = increment (s.heap h).refs });
      };
      held = add pane p.held;
      held_locks = insert pane h p.held_locks;
    }

-- A new lock, which the helper's handshake has confirmed.
abbrev pub new_lock : Lock
new_lock = record { refs = pos 0; epoch = 0; retire = false; retired = false; done = false }

unfoldable pub add_lock : Bytes → Sizing → Sizing
add_lock pane s = record s {
  heap = write s.heap s.next new_lock;
  next = s.next + 1;
  locks = insert pane s.next s.locks;
}

unfoldable pub return_slot : Sizing → Sizing
return_slot s = record s { slots = s.slots - 1 }

-- The slot is returned when the helper does not start.
unfoldable pub started : Native → Bytes → Option SizeError → Sizing → Pass → Pass
unfolding give_up acquisition_error take_ref add_lock return_slot
started n pane (some e) s p =
    give_up pane (acquisition_error n pane e) (record p { sizing = return_slot s })
started n pane none s p = take_ref pane s.next (record p { sizing = add_lock pane s })

unfoldable pub reserved : Native → Bytes → Pass → Sizing × Bool → Pass
unfolding give_up acquisition_error started
reserved n pane p (s, false) =
    give_up pane (acquisition_error n pane sizing_limit) (record p { sizing = s })
reserved n pane p (s, true) = started n pane (n.starts pane (lookup pane p.geometry)) s p

-- `holdSize` and what follows it.
unfoldable pub hold_size : Native → Bytes → Pass → Pass
unfolding give_up acquisition_error reserved
hold_size n pane p =
    if n.is_over pane
    then give_up pane (acquisition_error n pane cancelled) p
    else reserved n pane p (reserve_size_slot p.sizing)

unfoldable pub remeasured : Native → Bytes → Answer Geometry → Pass → Pass
unfolding give_up acquisition_error hold_size
remeasured n pane (err e) p = give_up pane (acquisition_error n pane e) p
remeasured n pane (ok g) p = hold_size n pane (record p { geometry = insert pane g p.geometry })

unfoldable pub reused : Native → Bytes → ℕ → Pass → Sizing × Bool → Pass
unfolding take_ref remeasured
reused n pane h p (s, true) = take_ref pane h (record p { sizing = s })
reused n pane h p (s, false) = remeasured n pane (n.geometry_again pane) (record p { sizing = s })

-- The viewer holds the lock that the session has.
unfoldable pub holds_already : Bytes → ℕ → Pass → Bool
holds_already pane h p = contains pane p.held && not (is_other (lookup pane p.held_locks) h)

unfoldable pub acquire_lock : Native → Bytes → Option ℕ → Pass → Pass
unfolding hold_size reused take_ref holds_already
acquire_lock n pane none p = hold_size n pane p
acquire_lock n pane (some h) p =
    if holds_already pane h p
    then p
    else if is_zero (p.sizing.heap h).refs
    then reused n pane h p (reuse_locked pane h p.sizing)
    else take_ref pane h p

-- The second loop, for one pane.
unfoldable pub acquire : Native → Bytes → Pass → Pass
unfolding acquire_lock
acquire n pane p = acquire_lock n pane (lookup pane p.sizing.locks) p

unfoldable pub visit : (Bytes → Pass → Pass) → Bytes → Pass → Pass
visit step pane p = if contains pane p.wanted then step pane p else p

-- A loop over the panes in order, which an error ends.
unfoldable pub each : (Bytes → Pass → Pass) → List Bytes → Pass → Pass
unfolding visit
each step [] p = p
each step (pane ∷ panes) p = elim p.error [
  | some e ↦ p
  | none ↦ each step panes (visit step pane p)
]

unfoldable pub release_one : Bytes → Pass → Pass
release_one pane p = record p {
  sizing = release_locked pane (lookup pane p.held_locks) p.sizing;
  held = without pane p.held;
  held_locks = delete pane p.held_locks;
}

-- The loop over what the viewer held, with the panes that it keeps. An entry that is deleted before
-- it is reached is not visited.
unfoldable pub release_each : List Bytes → List Bytes → Pass → Pass
unfolding release_one
release_each keeps [] p = p
release_each keeps (pane ∷ held) p =
    release_each keeps held
      (if contains pane keeps || not (contains pane p.held) then p else release_one pane p)

unfoldable pub release_unwanted : Pass → Pass
release_unwanted p = elim p.error [ some e ↦ p | none ↦ release_each p.wanted p.held p ]

unfoldable pub start_pass : List Bytes → View → Sizing → Pass
start_pass order v s = record {
  sizing = s;
  wanted = order;
  held = v.held;
  held_locks = v.held_locks;
  geometry = [];
  error = none;
}

-- Every PTY is measured before the first lock is taken, and releases come last.
unfoldable pub run_pass : Native → List Bytes → View → Sizing → Pass
unfolding preflight acquire each release_unwanted start_pass
run_pass n order v s =
    release_unwanted (each (acquire n) order (each (preflight n) order (start_pass order v s)))

unfoldable pub finish : View → Pass → Sizing × View × Option SizeError
finish v p = (p.sizing, record v { held = p.held; held_locks = p.held_locks }, p.error)

unfoldable pub with_order :
    Native → View → Sizing → Answer (List Bytes) → Sizing × View × Option SizeError
unfolding run_pass finish
with_order n v s (err e) = (s, v, some e)
with_order n v s (ok order) = finish v (run_pass n order v s)

unfoldable pub with_catalog :
    Native → View → Sizing × Option SizeError → Sizing × View × Option SizeError
unfolding with_order
with_catalog n v (s, some e) = (s, v, some e)
with_catalog n v (s, none) =
    let seen = record v { catalog_seen = true } in
    with_order n seen s (wanted_order n.now s.panes seen)

unfoldable pub catalog : Native → View → Sizing → Sizing × Option SizeError
catalog n v s = if v.catalog_seen then (s, none) else snapshot_locked n.listed v.snapshot s

-- `reconcile`
unfoldable pub reconcile : Native → Sizing → View → Sizing × View × Option SizeError
unfolding catalog with_catalog
reconcile n s v = if s.closed then (s, v, some binding_closed) else with_catalog n v (catalog n v s)

-- `close` of the viewer
unfoldable pub close_view : Sizing → View → Sizing × View
unfolding release_each
close_view s v =
    let p = release_each [] v.held (start_pass [] v s) in
    (p.sizing, record v { active = false; held = p.held; held_locks = p.held_locks })
