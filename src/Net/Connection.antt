-- ===== src/Net/Connection.antt =====
-- `handle_v2_connection` of crates/meshelf-net/src/lib.rs: one inbound connection, from the hello of
-- the client to its one operation. What the socket gives, the signing of the server's hello and the
-- service that sends a fetch are parameters.
pub mod Gatekeeping
mod Tests
use meshelf.Base.{
  ℕ, Bool, true, false, not, Option, none, some, List, [], ◌∷◌, Result, ok, err, map_err, ◌==◌,
  if◌then◌else◌,
}
use meshelf.Base.Actions.{Action, ◌>>=◌, ◌>>◌, lift, pure}
use meshelf.Base.Text.{Text, lit}
use meshelf.Core.Model.{DeviceId}
use meshelf.Protocol.Messages.{
  v2_protocol_version, ClientHello, ServerHello, OfferAnnouncement, FetchRequest, V2Message,
  offer_announcement, offer_ack, fetch_request,
}
use meshelf.Protocol.Validate.{validate_v2_message}
use meshelf.Net.Announcements.{Database, redb_cards, handle_sync}
use meshelf.Net.Errors.{NetError, protocol, unexpected_message, Display}
use meshelf.Net.Trust.{IpAddr, TrustDecision, allow, deny, Gate, has_offer_pull, Host}

-- the server's identity and services; `signed` is `ServerHello::signed` of this identity, and
-- `v1_client_refusal_reason` a text made from the client's name, identifier and version
pub record Server : Type 0 where
  pub device_id : DeviceId
  pub signed : Bool → Option Text → ServerHello
  pub v1_client_refusal_reason : ClientHello → Text
  pub gate : Gate
  pub host : Host

pub data Reply : Type 0 where
  hello : ServerHello → Reply
  operation : V2Message → Reply

-- what the connection has done: the database, the replies and the fetches, the last ones first
pub record Connection : Type 0 where
  pub database : Database
  pub sent : List Reply
  pub fetches : List (DeviceId × FetchRequest)

-- what the socket, the lock of the announcements and the fetch service report
pub record Events : Type 0 where
  pub client_hello : Result NetError ClientHello
  pub write_hello : Option NetError
  pub shutdown : Option NetError
  pub operation : Result NetError V2Message
  pub write_ack : Option NetError
  pub fetched : Option NetError
  pub poisoned : Bool

abbrev pub Serve : Type 0 → Type 0
Serve = Action Connection NetError

abbrev pub reported : Option NetError → Result NetError (Unit {0})
reported none = ok tt
reported (some e) = err e

unfoldable pub write : Reply → Option NetError → Serve (Unit {0})
write reply none state = (ok tt, record state { sent = reply ∷ state.sent })
write reply (some e) state = (err e, state)

abbrev pub on_database : {A : Type 0} → Action Database NetError A → Serve A
on_database act state =
    let (result, after) = act state.database in (result, record state { database = after })

unfoldable pub trust_of : Server → IpAddr → ClientHello → TrustDecision
trust_of server remote client =
    if not ((server.host).client_has_valid_signature client)
    then deny (lit "client hello signature is invalid")
    else if not (has_offer_pull client.capabilities)
    then deny (lit "client hello does not advertise offer-pull-v2")
    else server.gate remote client

module _ (display : Display) (server : Server) (events : Events) where
  unfoldable pub handle_announcement : ClientHello → OfferAnnouncement → Serve (Unit {0})
  handle_announcement client announcement = do
    ack ← on_database (
        handle_sync display redb_cards events.poisoned client.device_id server.device_id
          announcement)
    write (operation (offer_ack ack)) events.write_ack

  unfoldable pub handle_fetch : ClientHello → FetchRequest → Serve (Unit {0})
  handle_fetch client request state = (
    reported events.fetched,
    record state { fetches = (client.device_id, request) ∷ state.fetches },
  )

  unfoldable pub handle_operation : ClientHello → V2Message → Serve (Unit {0})
  handle_operation client (offer_announcement announcement) =
      handle_announcement client announcement
  handle_operation client (fetch_request request) = do
    lift (map_err protocol (validate_v2_message (fetch_request request)))
    handle_fetch client request
  handle_operation client _ = lift (
      err (
        unexpected_message
          (lit "unsupported v2 operation; announcement and fetch request are enabled")))

  -- the refusal of a client, by its version or by the gate
  unfoldable pub turn_away : Text → Serve (Unit {0})
  turn_away reason = do
    write (hello (server.signed false (some reason))) events.write_hello
    lift (reported events.shutdown)

  unfoldable pub greet : ClientHello → TrustDecision → Serve (Unit {0})
  greet client (deny reason) = turn_away reason
  greet client allow = do
    write (hello (server.signed true none)) events.write_hello
    message ← lift events.operation
    handle_operation client message

  unfoldable pub handle_client : IpAddr → ClientHello → Serve (Unit {0})
  handle_client remote client =
      if not (client.protocol_version == v2_protocol_version)
      then turn_away (server.v1_client_refusal_reason client)
      else greet client (trust_of server remote client)

  unfoldable pub handle_v2_connection : IpAddr → Serve (Unit {0})
  handle_v2_connection remote = do client ← lift events.client_hello; handle_client remote client
