-- ===== src/Net/Trust.antt =====
-- Who may speak to this device: the trust gates of crates/meshelf-net/src/lib.rs, and the checks of
-- the two hello messages. `String::trim` and the signatures are parameters.
use meshelf.Base.{
  ℕ, Bool, false, not, ◌||◌, Option, none, some, List, ◌++◌, Result, ok, ◌>>◌, reject, ◌==◌,
  if◌then◌else◌, any, is_empty,
}
use meshelf.Base.Map.{Map, nat_key, lookup}
use meshelf.Base.Text.{Text, lit, byte_len, text_eq}
use meshelf.Core.Model.{DeviceId}
use meshelf.Protocol.Messages.{v2_protocol_version, ClientHello, ServerHello}
use meshelf.Net.Errors.{NetError, rejected, protocol_mismatch, identity_mismatch}

-- an address as the bytes that `IpAddr` compares; a socket address without its port
abbrev pub IpAddr : Type 0
IpAddr = List ℕ

pub data TrustDecision : Type 0 where
  allow : TrustDecision
  deny : Text → TrustDecision

-- `TrustGate`
abbrev pub Gate : Type 0
Gate = IpAddr → ClientHello → TrustDecision

unfoldable pub deny_all : Gate
deny_all _ _ = deny (lit "secure pairing is not configured")

abbrev pub contains_id : DeviceId → List DeviceId → Bool
contains_id id = any (λ d. d == id)

-- `ExactDeviceAllowList`
unfoldable pub exact_device : List DeviceId → Gate
exact_device allowed _ hello =
    if contains_id hello.device_id allowed
    then allow
    else deny (lit "claimed device ID is not in the development allowlist")

abbrev pub contains_address : IpAddr → List IpAddr → Bool
contains_address address = any (text_eq address)

-- `TailnetPeerAllowList`: its map, unless the lock is poisoned
unfoldable pub tailnet_peer : Option (Map DeviceId (List IpAddr)) → Gate
tailnet_peer none _ _ = deny (lit "tailnet peer registry is unavailable")
tailnet_peer (some allowed) remote hello = elim (lookup hello.device_id allowed) [
  | none ↦ deny (lit "meshelf device has not been accepted")
  | some addresses ↦
      if contains_address remote addresses
      then allow
      else deny (lit "accepted meshelf identity arrived from an unrecognized Tailscale address")
]

abbrev pub cap_offer_pull_v2 : Text
cap_offer_pull_v2 = lit "offer-pull-v2"

abbrev pub has_offer_pull : List Text → Bool
has_offer_pull = any (λ capability. text_eq capability cap_offer_pull_v2)

unfoldable pub require_v2_client_hello : ClientHello → Text → Result NetError (Unit {0})
require_v2_client_hello hello operation = do
  reject
      (not (hello.protocol_version == v2_protocol_version)
        || not (has_offer_pull hello.capabilities))
      (rejected (operation ++ lit " requires protocol 2 and offer-pull-v2"))
  ok tt

-- what `signature.rs` and `str::trim` compute
pub record Host : Type 0 where
  pub client_has_valid_signature : ClientHello → Bool
  pub server_has_valid_signature : ServerHello → Bool
  pub trim : Text → Text

-- `read_server_hello`, after the message was read
unfoldable pub check_server_hello :
    Host → List ℕ → DeviceId → Text → ServerHello → Result NetError ServerHello
check_server_hello host expected_key expected_device operation server = do
  reject
      (not (host.server_has_valid_signature server)
        || (if is_empty expected_key then false else not (text_eq server.public_key expected_key)))
      (identity_mismatch (operation ++ lit " server hello signature or public key is invalid"))
  reject (not (server.device_id == expected_device))
      (identity_mismatch (operation ++ lit " server hello device does not match request"))
  ok server

abbrev pub peer_name : Host → ServerHello → Text
peer_name host server =
    if byte_len (host.trim server.device_name) == 0 then lit "peer" else server.device_name

abbrev pub reason_or : Option Text → Text → Text
reason_or none other = other
reason_or (some reason) _ = reason

unfoldable pub require_v2_server_hello :
    Host → ServerHello → Bool → Text → Result NetError (Unit {0})
require_v2_server_hello host server require_accepted operation = do
  reject (not (server.protocol_version == v2_protocol_version))
      (protocol_mismatch (peer_name host server) server.protocol_version v2_protocol_version)
  reject (not (has_offer_pull server.capabilities))
      (rejected (operation ++ lit " server does not advertise offer-pull-v2"))
  reject (if require_accepted then not server.accepted else false)
      (rejected (reason_or server.reason (operation ++ lit " server rejected connection")))
  ok tt
