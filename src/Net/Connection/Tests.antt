-- ===== src/Net/Connection/Tests.antt =====
-- A fetch of a peer that the tailnet's registry knows, and of one that it does not.
use meshelf.Base.{◌≡◌, refl, true, false, [], ◌∷◌, none, some, ok}
use meshelf.Base.Map.{nat_key, lookup}
use meshelf.Base.Text.{lit}
use meshelf.Core.Model.{DeviceId}
use meshelf.Protocol.Messages.{ClientHello, FetchRequest, fetch_request}
use meshelf.Protocol.Validate.{validate_v2_message}
use meshelf.Store.Database.{empty_store}
use meshelf.Net.Errors.{Display}
use meshelf.Net.Trust.{cap_offer_pull_v2, tailnet_peer}
use meshelf.Net.Connection.{
  Server, Connection, Events, write, trust_of, handle_fetch, handle_operation, turn_away, greet,
  handle_client, handle_v2_connection,
}
use meshelf.Net.Connection.Gatekeeping.{Served, handle_v2_connection-Served}

connection_runs : Unit {0}
unfolding lookup tailnet_peer validate_v2_message write trust_of handle_fetch handle_operation
    turn_away greet handle_client handle_v2_connection
connection_runs = tt

abbrev display : Display
display = record { store_error = λ e. lit "store"; protocol_error = λ e. lit "protocol" }

abbrev server : Server
server = record {
  device_id = 6;
  signed = λ accepted reason. record {
    protocol_version = 2;
    device_id = 6;
    device_name = lit "shelf";
    accepted = accepted;
    reason = reason;
    capabilities = cap_offer_pull_v2 ∷ [];
    public_key = [];
    signature = [];
  };
  v1_client_refusal_reason = λ client. lit "update it";
  gate = tailnet_peer (some ((5, (100 ∷ 64 ∷ 0 ∷ 5 ∷ []) ∷ []) ∷ []));
  host = record {
    client_has_valid_signature = λ client. true;
    server_has_valid_signature = λ server. true;
    trim = λ name. name;
  };
}

abbrev client : DeviceId → ClientHello
client id = record {
  protocol_version = 2;
  device_id = id;
  device_name = lit "desk";
  nonce = lit "n";
  capabilities = cap_offer_pull_v2 ∷ [];
  public_key = [];
  signature = [];
}

abbrev request : FetchRequest
request = record { request_id = 1; offer_id = 9; source_device = 6; requester_device = 5 }

abbrev events : DeviceId → Events
events id = record {
  client_hello = ok (client id);
  write_hello = none;
  shutdown = none;
  operation = ok (fetch_request request);
  write_ack = none;
  fetched = none;
  poisoned = false;
}

abbrev before : Connection
before = record { database = ([], empty_store); sent = []; fetches = [] }

known_fetched :
    (handle_v2_connection display server (events 5) (100 ∷ 64 ∷ 0 ∷ 5 ∷ []) before).1.fetches
    ≡ (5, request) ∷ []
unfolding connection_runs
known_fetched = refl

-- the right device from another address, and another device from the right address
others_turned_away :
    ((handle_v2_connection display server (events 5) (100 ∷ 64 ∷ 0 ∷ 7 ∷ []) before).1.fetches ≡ [])
    × ((handle_v2_connection display server (events 7) (100 ∷ 64 ∷ 0 ∷ 5 ∷ []) before).1.fetches
        ≡ [])
unfolding connection_runs
others_turned_away = (refl, refl)

peer-Served :
    Served display server
      (events 5)
      (100 ∷ 64 ∷ 0 ∷ 5 ∷ [])
      before
      (handle_v2_connection display server (events 5) (100 ∷ 64 ∷ 0 ∷ 5 ∷ []) before).1
peer-Served = handle_v2_connection-Served display server (events 5) (100 ∷ 64 ∷ 0 ∷ 5 ∷ []) before
