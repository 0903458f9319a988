-- ===== src/Net/Announce/Tests.antt =====
-- An announcement to the peer that it is meant for, and to a server with another identifier.
use meshelf.Base.{◌≡◌, refl, true, [], ◌∷◌, none, ok}
use meshelf.Base.Text.{lit, byte_len, len_utf8}
use meshelf.Core.Model.{DeviceId}
use meshelf.Core.Offer.{file, validate, validate_root_name}
use meshelf.Protocol.Messages.{
  ClientHello, ServerHello, client_hello, server_hello, OfferAnnouncement, OfferAck, stored,
  offer_announcement, offer_ack,
}
use meshelf.Protocol.Validate.{
  validate_announcement, validate_ack, validate_detail, validate_v2_message,
}
use meshelf.Net.Trust.{
  Host, cap_offer_pull_v2, require_v2_client_hello, check_server_hello, require_v2_server_hello,
}
use meshelf.Net.Announce.{
  wire, operation, Peer, write, read_server_hello, acknowledged, tell, converse, announce_offer_v2,
}
use meshelf.Net.Announce.Vouched.{Told, announce_offer_v2-Told}

abbrev host : Host
host = record {
  client_has_valid_signature = λ client. true;
  server_has_valid_signature = λ server. true;
  trim = λ name. name;
}

abbrev hello : ClientHello
hello = record {
  protocol_version = 2;
  device_id = 5;
  device_name = lit "desk";
  nonce = lit "n";
  capabilities = cap_offer_pull_v2 ∷ [];
  public_key = [];
  signature = [];
}

abbrev server : DeviceId → ServerHello
server id = record {
  protocol_version = 2;
  device_id = id;
  device_name = lit "shelf";
  accepted = true;
  reason = none;
  capabilities = cap_offer_pull_v2 ∷ [];
  public_key = 7 ∷ [];
  signature = [];
}

abbrev announcement : OfferAnnouncement
announcement = record {
  protocol_version = 2;
  offer_id = 9;
  source_device = 5;
  target_device = 6;
  created_at_unix_ms = 0;
  descriptor = file (lit "a.txt") 12;
}

abbrev answer : OfferAck
answer = record {
  offer_id = 9;
  code = stored;
  live_entries = 1;
  max_live_entries = 10;
  pruned_entries = 0;
  detail = none;
}

abbrev peer : DeviceId → Peer
peer id = record {
  connect = ok tt;
  write_hello = ok tt;
  server = ok (server_hello (server id));
  write_announcement = ok tt;
  response = ok (offer_ack answer);
}

conversation_runs : Unit {0}
unfolding byte_len len_utf8 validate validate_root_name validate_announcement validate_ack
    validate_detail validate_v2_message require_v2_client_hello check_server_hello
    require_v2_server_hello write read_server_hello acknowledged tell converse announce_offer_v2
conversation_runs = tt

announced :
    announce_offer_v2 host (peer 6) hello announcement (7 ∷ []) []
    ≡ (ok answer, operation (offer_announcement announcement) ∷ wire (client_hello hello) ∷ [])
unfolding conversation_runs
announced = refl

other_server :
    (announce_offer_v2 host (peer 8) hello announcement (7 ∷ []) []).1
    ≡ wire (client_hello hello) ∷ []
unfolding conversation_runs
other_server = refl

server_told :
    Told host
      (peer 6)
      hello
      announcement
      (7 ∷ [])
      (announce_offer_v2 host (peer 6) hello announcement (7 ∷ []) [])
server_told = announce_offer_v2-Told host (peer 6) hello announcement (7 ∷ [])
