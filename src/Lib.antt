-- ===== src/Lib.antt =====
-- meshelf: a shelf of offers (texts, files and folders) that devices announce to each other and fetch
-- on demand. This library models the program's core, its store, its wire protocol, and of its
-- networking the announcements, the trust in peers and the checks and effects of a receiver.
--
--   Core      crates/meshelf-core/src: offer.rs in Core.Offer (OfferDescriptor::text, preview,
--             validate, OfferSource::validate_for), destination.rs in Core.Destination,
--             activation.rs in Core.Activation, store.rs in Core.Records, model.rs in Core.Model.
--   Store     crates/meshelf-store/src/v2.rs: the four tables of RedbV2Store. Store.Sources has the
--             offers that this device announced, Store.Cards the offers that it was shown,
--             Store.Journal the activations whose staging must be cleaned up, Store.Cache the
--             clipboard cache. Store.Purge is the purge that both shelves share, Store.Rows their
--             common invariant, Store.Database what redb and serde_json are asked, Store.Runs the
--             sequences of operations.
--   Protocol  crates/meshelf-protocol/src: the messages of lib.rs and v2.rs in Protocol.Messages,
--             validate_v2_message in Protocol.Validate, paths and manifests in Protocol.Paths and
--             Protocol.Manifest, frames in Protocol.Frame, chunk_manifest in Protocol.Chunks.
--   Net       crates/meshelf-net/src. Of lib.rs: Net.Trust has the gates and the checks of the two
--             hello messages, Net.Announcements the handler of announcements over a store of cards,
--             Net.Connection a connection of the server, Net.Announce the client that announces. Of
--             fetch_receiver.rs: Net.Ledger has the reservations of disk space, Net.Plan and
--             Net.Manifest the checks of a header and a manifest, Net.Reader the reading of a manifest,
--             Net.SideEffect the clipboard's side effect, Net.Detail the shortened texts of errors.
--             Net.Errors has the errors of both; Net.Destination has the published names of
--             destination.rs.
--   Platform  crates/meshelf-platform/src/filesystem.rs: the walk that makes the directories of a path,
--             in Platform.Filesystem.
--   Control   crates/meshelf-control/src/coordinator.rs: the notifying store of cards, in
--             Control.Notifying.
--   Base      what they share: results with early return, texts, ordered maps, the stable sort.
--
-- How the parts meet: an insertion into the store validates the descriptor and the source by
-- Core.Offer; a message of the protocol carries a descriptor and validates it the same way; the
-- destination accepts a path by Core.Destination, and the wire by its own check, Protocol.Paths. A
-- connection asks Net.Trust before it hands an announcement to the handler, which works on any store
-- that has the operations and the laws of Net.Announcements.Interface; Store.Cards fills them, and
-- Control.Notifying wraps a store that does. prepare_staging of the store makes the
-- directories above a staging root by Platform.Filesystem before it writes the journal. The receiver takes the chunks of Protocol.Chunks apart, checks their paths by Core.Destination, and
-- writes the journal of the store ahead of the clipboard.
--
-- Functions keep the source's names. An operation of the store takes the table's contents and gives
-- back its result and the contents that it leaves; a method with several steps in one transaction has
-- a function on the rows (insert_source_rows) under the method itself (insert_offer_source). Errors
-- are values of the model's own types, which hold what the source's message is made from; `?` and an
-- early return are the bind of Base.Errors and `reject`. The operations of Net are actions, from a state
-- to a result and the state that is left, chained by the bind of Base.Actions.
--
-- What stands for code that is not in the repository: redb and serde_json inside the store report
-- errors through a function `Faults` from the kind of call to an optional message, one for each
-- transaction, and an error ends the transaction with the rows as they were; `no_faults` reports
-- none. Stored rows are kept decoded. For the wire, serde_json is a `Codec`, and the round trips ask
-- that it decodes what it encoded. The file system's answers are the records `Directories` and
-- `Trees`, free in every theorem; those of the clipboard are `Surroundings`. What a socket gives is the
-- record `Events` or `Peer`, or a list of arrivals, which ends where nothing more comes. The texts of
-- errors are a `Display`, the computations of sha2 and of the standard library's Unicode tables
-- `Libraries`, those of signatures and of `str::trim` a `Host`. Whether a thread left a lock poisoned
-- is a parameter, or a field of the state.
--
-- Representations: numbers are natural numbers, and a sum of a fixed width is checked or wraps as in
-- the source; usize has 64 bits. An identifier is the 128-bit value of its UUID, whose order is that
-- of the hexadecimal text the store uses as a key. A text is the list of its code points, measured in
-- bytes of UTF-8; a path of the host is its spelling and whether it is absolute. A HashSet of devices
-- is a list, distinct where a theorem says so. A table is a list of rows in key order. The loops of
-- the source are structural recursion over the list or the text that they walk, or over the turns left
-- of a counted loop; only the decimal digits of an index use fuel, 20, which is enough for a usize.
--
-- Not modelled: of networking the fetch as a whole, its sender, the accept loop and the timeouts'
-- clocks (crates/meshelf-net), the local control socket and the coordinator (crates/meshelf-control),
-- peers (crates/meshelf-tailscale), keys and signatures (crates/meshelf-identity), the rest
-- of the platform's calls (crates/meshelf-platform), the applications (apps), the opening of the database file and the
-- migration of version-1 state.
pub mod Base
pub mod Control
pub mod Core
pub mod Net
pub mod Platform
pub mod Protocol
pub mod Store
