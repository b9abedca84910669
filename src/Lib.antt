-- ===== src/Lib.antt =====
-- Herdr Hive: a gateway that shows the terminal sessions shared by several machines as one endpoint.
-- A viewer speaks to the gateway in frames; each publisher, a Bee, speaks the same protocol to it
-- through a relay. Per viewer the gateway keeps one session: the backends of the publishers, which of
-- them is active, the requests on their way, and the surface that the viewer is shown.
--
-- The parts and their files:
-- - Base and its children: Boolean tests, lists over the native numbers, little-endian numbers,
--   association lists for Go maps, decimals.
-- - Wire/Encode: `Read`, `Write`, `number`, `str` and `control` of hive/internal/gateway/wire.go.
-- - Wire/Decoder: the `decoder` of that file, as a state passed through actions. A read past the end
--   sets the error flag, as in the source, and the actions that follow still run.
-- - Wire/Codec: the frozen codecs of surfaces and `surface`, which rewrites a publisher's frame for
--   the viewer; the rewriting of identifiers is an argument.
-- - Wire/Complete: `completeSurface` with `update`, `retainGraphics` and `bytes`. Each operation
--   returns the surface as it leaves it, and whether it returned no error. Numbers are uint64 and wrap.
--   The check of the size leaves out three numbers that `bytes` writes; Wire/Complete/Fits counts them.
-- - Json: values of `encoding/json`. Marshalling, parsing, SHA-256 and the conversion of a number that
--   is no natural one are fields of a record that the definitions take.
-- - Gateway: the session of hive/internal/gateway/gateway.go, recovery.go and interest.go. A backend is
--   a pointer: a number that the field `heap` resolves. Writes that fail are told by the field
--   `faults`; what is written is kept in order. Gateway/Recovery has `fail`, `remove` and the records
--   of failures, Gateway/Snapshot the merged snapshot, Gateway/Surface the frames for the viewer,
--   Gateway/Publish `publish` and what it sends, Gateway/Handshake the hello of the viewer and the
--   welcome of a publisher (handshake.go), Gateway/Server and Gateway/Client the handlers of frames from
--   a publisher and from the viewer, Gateway/Values what these read and write besides the session,
--   Gateway/Refresh the tick and the event loop of `Serve`: a round of
--   the loop is `step` on an event, and `run` takes a list of events in turn. Gateway/Sound says what a
--   sound session is; Gateway/Alike, Gateway/Ends, Gateway/Changes and the files under Gateway/Server,
--   Gateway/Client and Gateway/Refresh follow soundness through the operations.
-- - Registry: `Name` of hive/internal/registry/registry.go. The file is the map last written to it.
-- - Enrollment: `LoadUses`, `ReserveUse` and `ReleaseUse` of hive/internal/enrollment/enrollment.go, on
--   the map that the file holds.
-- - Relay: the decoder, the writers and `relaySizingFrame` of bee/internal/herdr/sizing_wire.go.
-- - Sizing: bee/internal/herdr/sizing.go, the terminal sizes that the viewers of one publication share.
--   Sizing/Locks has the locks of a publication with `stopLocked`, `releaseLocked`, `expire`,
--   `reuseLocked`, `watch` and `close`; a lock is a pointer, a number that the field `heap` resolves, and
--   what is process-wide, the idle locks and the count of helpers, is in the same record.
--   Sizing/Reclaim has `reserveSizeSlot`, Sizing/Panes the snapshots and `snapshotLocked`, Sizing/View
--   a viewer and the panes that it wants, Sizing/Acquire `reconcile` with its three loops, `holdSize`
--   and the viewer's `close`. Sizing/Client has `clientFrame`, with what it reads of a frame in
--   Sizing/Client/Asks, and Sizing/Server has `serverFrame`. What Herdr and the helper processes answer
--   is a record of functions, and the clock is one of its fields.
--   Sizing/Sessions lets a publication and its viewers take steps in any order, and the files under it
--   count the holders of a lock and take the handlers of frames apart into steps; the files under
--   Sizing/Owned count who holds which lock, those under Sizing/Wanted say what a viewer holds after a
--   pass, those under Sizing/Frames what happens to frames, and Sizing/Ends what is left after `close`.
-- - Update: internal/update/update.go. Update/Version has `stable` and `newer`, Update/Catalog `get` and
--   `latest`, Update/Archive the list of checksums and `unpack`, Update/Install `Install` on the two
--   files that it may replace. Update/Order compares versions as triples of numbers, Update/Newest
--   looks at the pages of the catalog, Update/Checked at where an archive comes from, Update/Safe at what an installation leaves behind.
-- - Hive: the sharings of the server in hive/internal/server. Hive/Shares has `publish`, `unpublish`,
--   `list` and the admission of a viewer (server.go), Hive/Streams the opening and closing of streams to
--   a publisher (gateway.go) and the admission of API consumers (api.go). A pointer to a binding is
--   the number that the binding was made with, connections and channels are numbers too. Hive/Catalog
--   replays the events of a server on a map from sharings to connections, Hive/Stale follows a binding
--   that has been withdrawn.
-- - Tests: runs of the definitions on concrete input.
--
-- Fuel: the search for a free name has one unit more than there are names. `publish` calls itself after
-- a write to a publisher has failed, which takes that publisher out of the sources; it has the fuel
-- that its caller gives, and each call of itself one unit less. The handlers give it one unit more than
-- there are sources. Where `refresh` drops the error of `publish`, the model hands on that the fuel ran
-- out, which is no error of the source. The other loops are structural: `reserveSizeSlot` takes one idle lock in each
-- round, and `latest` reads ten pages at most.
--
-- Not modelled: the goroutines that read streams and the locks, the SSH transport, HTTP, files and
-- processes, and the parts of the repository that draw the terminal interface. Each handler of sizing
-- runs under the lock of its viewer and its publication, so that a step of the model is a whole
-- handler; a timer or the end of a helper is a step of its own.
pub mod Base
pub mod Wire
pub mod Relay
pub mod Registry
pub mod Json
pub mod Gateway
pub mod Enrollment
pub mod Sizing
pub mod Update
pub mod Hive
pub mod Tests
