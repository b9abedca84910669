-- ===== src/Sizing/Client.antt =====
-- What a viewer's frame does on its way to the session: `clientFrame` and `surfaceRequest`,
-- bee/internal/herdr/sizing.go, 718-847. A frame with a request waits for the first snapshot before
-- it comes here; that wait is the transport's.
pub mod Asks
unfoldable pub use Asks.*
use herdr_hive.Base.{
  ℕ, ◌+◌, ◌++◌, ◌==◌, ◌%◌, ◌^◌, Bool, true, false, ◌&&◌, ◌||◌, not, Option, none, some, List, [],
  ◌∷◌, leb, if◌then◌else◌, Bytes, bytes_eq, codes, length, starts_with,
}
use herdr_hive.Base.Dict.{lookup, insert}
use herdr_hive.Json.{Value, Fields, StdLib, get, set, null, bool, num, str, obj, end, field}
use herdr_hive.Relay.{WireDecoder, read_number, read_text, wire_text, wire_control}
use herdr_hive.Sizing.Locks.{Sizing}
use herdr_hive.Sizing.Panes.{Pane, Workspace, Snapshot, SizeError}
use herdr_hive.Sizing.Panes.SizeError.{native_protocol}
use herdr_hive.Sizing.View.{View, Navigation}
use herdr_hive.Sizing.Acquire.{Native, reconcile}

-- After the locks are reconciled the frame is written, under the viewer's mutex; `up` is whether and
-- how the write fails. The relay sets `sendUp` before the first frame, so that it is never nil here.
unfoldable pub sent_on : (Bytes → Option SizeError) → Bytes → Handled → Handled
sent_on up p h = elim (up p) [
  | some e ↦ record h { outcome = failed e }
  | none ↦ record h { sent = p ∷ []; outcome = swallow }
]

-- The error of `reconcile` ends the relay, or the handler goes on.
unfoldable pub after_reconcile : (Handled → Handled) → Sizing × View × Option SizeError → Handled
after_reconcile f (s, v, some e) = record { sizing = s; view = v; sent = []; outcome = failed e }
after_reconcile f (s, v, none) = f (record { sizing = s; view = v; sent = []; outcome = swallow })

unfoldable pub after_inspect :
    (Bytes → Option SizeError) → Native → Sizing → View → Bytes → Inspect → Handled
unfolding sent_on after_reconcile
after_inspect up n s v p (refuses e) = record {
  sizing = s;
  view = v;
  sent = [];
  outcome = failed e;
}
after_inspect up n s v p passes = record { sizing = s; view = v; sent = []; outcome = pass p }
after_inspect up n s v p (goes w q) = after_reconcile (sent_on up q) (reconcile n s w)

-- `clientFrame`
unfoldable pub client_frame :
    Codec → (Bytes → Option SizeError) → Native → Sizing → View → Bytes → Handled
unfolding inspect_client after_inspect
client_frame c up n s v p = after_inspect up n s v p (inspect_client c n.now v p)

-- `surfaceRequest`
unfoldable pub surface_request : Codec → View → Bytes → Bool → Bytes
surface_request c v id active =
    15
    ∷ (wire_text v.snapshot.boot
        ++ wire_text (
            c.json.marshal (
              obj (
                field (codes "id") (str id) (
                  field (codes "method") (str (codes "client_shell.surface.set")) (
                    field (codes "params") (obj (field (codes "active") (bool active) end))
                      end))))))
