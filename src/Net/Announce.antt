-- ===== src/Net/Announce.antt =====
-- `announce_offer_v2` of crates/meshelf-net/src/lib.rs: how this device announces an offer to a
-- peer. What the socket gives is a parameter.
pub mod Vouched
mod Tests
use meshelf.Base.{
  ℕ, Bool, true, false, not, Option, none, some, List, [], ◌∷◌, Result, ok, err, reject, map_err,
  ◌==◌, if◌then◌else◌,
}
use meshelf.Base.Actions.{Action, ◌>>=◌, ◌>>◌, lift, pure}
use meshelf.Base.Text.{Text, lit}
use meshelf.Core.Model.{DeviceId}
use meshelf.Protocol.Messages.{
  ClientHello, ServerHello, WireMessage, client_hello, server_hello, OfferAnnouncement, OfferAck,
  V2Message, offer_announcement, offer_ack,
}
use meshelf.Protocol.Validate.{validate_announcement, validate_v2_message}
use meshelf.Net.Errors.{NetError, protocol, unexpected_message, identity_mismatch}
use meshelf.Net.Trust.{Host, require_v2_client_hello, check_server_hello, require_v2_server_hello}

pub data Sent : Type 0 where
  wire : WireMessage → Sent
  operation : V2Message → Sent

-- how connecting, the reads and the writes end
pub record Peer : Type 0 where
  pub connect : Result NetError (Unit {0})
  pub write_hello : Result NetError (Unit {0})
  pub server : Result NetError WireMessage
  pub write_announcement : Result NetError (Unit {0})
  pub response : Result NetError V2Message

-- what was written, the last message first
abbrev pub Talk : Type 0 → Type 0
Talk = Action (List Sent) NetError

unfoldable pub write : Sent → Result NetError (Unit {0}) → Talk (Unit {0})
write message (ok _) sent = (ok tt, message ∷ sent)
write message (err e) sent = (err e, sent)

abbrev pub server_in : WireMessage → Result NetError ServerHello
server_in (server_hello server) = ok server
server_in (client_hello _) = err (unexpected_message (lit "expected server_hello"))

abbrev pub ack_in : V2Message → Result NetError OfferAck
ack_in (offer_ack ack) = ok ack
ack_in _ = err (unexpected_message (lit "expected offer_ack"))

module _ (host : Host) (peer : Peer) where
  unfoldable pub read_server_hello : List ℕ → DeviceId → Text → Talk ServerHello
  read_server_hello expected_key expected_device purpose = do
    response ← lift peer.server
    server ← lift (server_in response)
    lift (check_server_hello host expected_key expected_device purpose server)

  -- the check of the response
  unfoldable pub acknowledged : OfferAnnouncement → V2Message → Talk OfferAck
  acknowledged announcement response = do
    lift (map_err protocol (validate_v2_message response))
    ack ← lift (ack_in response)
    lift (
        reject (not (ack.offer_id == announcement.offer_id))
          (identity_mismatch (lit "offer acknowledgement ID does not match announcement")))
    pure ack

  -- from the moment that the peer is known
  unfoldable pub tell : OfferAnnouncement → Talk OfferAck
  tell announcement = do
    write (operation (offer_announcement announcement)) peer.write_announcement
    response ← lift peer.response
    acknowledged announcement response

  -- from the connection on
  unfoldable pub converse : ClientHello → OfferAnnouncement → List ℕ → Talk OfferAck
  converse hello announcement expected_key = do
    write (wire (client_hello hello)) peer.write_hello
    server ← read_server_hello expected_key announcement.target_device (lit "announcement")
    lift (require_v2_server_hello host server true (lit "announcement"))
    tell announcement

  unfoldable pub announce_offer_v2 : ClientHello → OfferAnnouncement → List ℕ → Talk OfferAck
  announce_offer_v2 hello announcement expected_key = do
    lift (map_err protocol (validate_announcement announcement))
    lift (
        reject (not (hello.device_id == announcement.source_device))
          (identity_mismatch (lit "client hello and offer announcement source differ")))
    lift (require_v2_client_hello hello (lit "v2 announcement"))
    lift peer.connect
    converse hello announcement expected_key
