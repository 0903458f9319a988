-- ===== src/Net/Announce/Vouched.antt =====
-- What `announce_offer_v2` of crates/meshelf-net/src/lib.rs writes, and to whom.
use meshelf.Base.{
  ℕ, ◌≡◌, refl, sym, ap, ◌∙◌, ◌⊎◌, true, not, List, [], ◌∷◌, is_empty, Result, ok, err, arith,
  reject, ◌==◌, map_err,
}
use meshelf.Base.Actions.{bind_outcome}
use meshelf.Base.Text.{Text, lit}
use meshelf.Base.Text.Laws.{text_eq_iff}
use meshelf.Core.Model.{DeviceId}
use meshelf.Protocol.Messages.{
  v2_protocol_version, ClientHello, ServerHello, WireMessage, client_hello, server_hello,
  OfferAnnouncement, OfferAck, V2Message, offer_announcement, offer_ack,
}
use meshelf.Protocol.Validate.{validate_announcement, validate_ack, validate_v2_message}
use meshelf.Net.Errors.{NetError, protocol}
use meshelf.Net.Trust.{
  Host, has_offer_pull, require_v2_client_hello, check_server_hello, require_v2_server_hello,
}
use meshelf.Net.Announce.{
  Sent, wire, operation, Peer, Talk, write, server_in, ack_in, read_server_hello, acknowledged,
  tell, converse, announce_offer_v2,
}

-- a server that proved to be the one with this key and identifier, and accepted
pub record IsVouched (host : Host) (expected_key : List ℕ) (device : DeviceId)
    (server : ServerHello) : Type 0 where
  pub signature : host.server_has_valid_signature server ≡ true
  pub key : (is_empty expected_key ≡ true) ⊎ (server.public_key ≡ expected_key)
  pub device_id : server.device_id ≡ device
  pub version : server.protocol_version ≡ v2_protocol_version
  pub capability : has_offer_pull server.capabilities ≡ true
  pub accepted : server.accepted ≡ true

check_server_hello-eq-ok :
    (host : Host) (key : List ℕ) (device : DeviceId) (name : Text) (hello server : ServerHello)
    → check_server_hello host key device name hello ≡ ok server
    → (server ≡ hello)
      × (host.server_has_valid_signature hello ≡ true)
      × ((is_empty key ≡ true) ⊎ (hello.public_key ≡ key))
      × (hello.device_id ≡ device)
unfolding check_server_hello
check_server_hello-eq-ok host key device name hello server h =
    (ground arith, ground arith, ground (arith, text_eq_iff hello.public_key key), ground arith)

require_v2_server_hello-eq-ok :
    (host : Host) (server : ServerHello) (name : Text)
    → require_v2_server_hello host server true name ≡ ok tt
    → (server.protocol_version ≡ v2_protocol_version)
      × (has_offer_pull server.capabilities ≡ true)
      × (server.accepted ≡ true)
unfolding require_v2_server_hello
require_v2_server_hello-eq-ok host server name h = (ground arith, ground arith, ground arith)

map_err-eq-ok :
    {F E : Type 0} (f : E → F) (result : Result E (Unit {0}))
    → map_err f result ≡ ok tt
    → result ≡ ok tt
map_err-eq-ok f (ok _) same = refl
map_err-eq-ok f (err e) same = absurd (ground arith)

-- a step that only reads
read_step :
    {A B : Type 0} (C : Result NetError B × List Sent → Type 0) (result : Result NetError A)
    (sent : List Sent) (next : A → Talk B)
    → ((e : NetError) → C (err e, sent))
    → ((value : A) → result ≡ ok value → C (next value sent))
    → C (bind_outcome (result, sent) next)
read_step C (ok value) sent next failed went = went value refl
read_step C (err e) sent next failed went = failed e

-- a step that writes
write_step :
    {B : Type 0} (C : Result NetError B × List Sent → Type 0) (message : Sent)
    (result : Result NetError (Unit {0})) (sent : List Sent) (next : Unit {0} → Talk B)
    → ((e : NetError) → C (err e, sent))
    → C (next tt (message ∷ sent))
    → C (bind_outcome (write message result sent) next)
unfolding write
write_step C message (ok _) sent next failed went = went
write_step C message (err e) sent next failed went = failed e

module _ (host : Host) (peer : Peer) (hello : ClientHello) (announcement : OfferAnnouncement)
    (key : List ℕ) where
  abbrev greeting : Sent
  greeting = wire (client_hello hello)

  abbrev told_message : Sent
  told_message = operation (offer_announcement announcement)

  -- the answer that the caller gets is a valid one to this announcement
  pub IsAnswer : OfferAck → Type 0
  IsAnswer ack =
      (peer.response ≡ ok (offer_ack ack))
      × (validate_ack ack ≡ ok tt)
      × (ack.offer_id ≡ announcement.offer_id)

  -- how far the conversation came: nothing was written, or the greeting, or the announcement too
  pub data Told : Result NetError OfferAck × List Sent → Type 0 where
    silent : (e : NetError) → Told (err e, [])
    greeted : (e : NetError) → Told (err e, greeting ∷ [])
    told :
        (outcome : Result NetError OfferAck) (server : ServerHello)
        → validate_announcement announcement ≡ ok tt
        → hello.device_id ≡ announcement.source_device
        → peer.server ≡ ok (server_hello server)
        → IsVouched host key announcement.target_device server
        → ((ack : OfferAck) → outcome ≡ ok ack → IsAnswer ack)
        → Told (outcome, told_message ∷ greeting ∷ [])

  sent_ack-IsAnswer :
      (response : V2Message) (ack other : OfferAck)
      → peer.response ≡ ok response
      → map_err {F = NetError} protocol (validate_v2_message response) ≡ ok tt
      → ack_in response ≡ ok ack
      → ack.offer_id ≡ announcement.offer_id
      → ack ≡ other
      → IsAnswer other
  unfolding validate_v2_message IsAnswer
  sent_ack-IsAnswer (offer_ack given) ack other came checked same equal e =
      let same_ack : given ≡ other = ground arith in
      (
        came ∙ ap (λ a. ok (offer_ack a)) same_ack,
        ap validate_ack (sym same_ack) ∙ map_err-eq-ok protocol (validate_ack given) checked,
        ground arith,
      )
  sent_ack-IsAnswer _ ack other came checked same equal e = absurd (ground arith)

  module _ (valid : validate_announcement announcement ≡ ok tt)
      (own : hello.device_id ≡ announcement.source_device) (server : ServerHello)
      (said : peer.server ≡ ok (server_hello server))
      (vouched : IsVouched host key announcement.target_device server) where
    ends :
        (outcome : Result NetError OfferAck)
        → ((ack : OfferAck) → outcome ≡ ok ack → IsAnswer ack)
        → Told (outcome, told_message ∷ greeting ∷ [])
    ends outcome answer = told outcome server valid own said vouched answer

    fails : (e : NetError) → Told (err e, told_message ∷ greeting ∷ [])
    fails e = ends (err e) (λ ack same. absurd (ground arith))

    acknowledged-Told :
        (response : V2Message)
        → peer.response ≡ ok response
        → Told (acknowledged host peer announcement response (told_message ∷ greeting ∷ []))
    unfolding acknowledged
    acknowledged-Told response came =
        read_step Told (map_err protocol (validate_v2_message response)) _ _ fails (λ _ checked.
          read_step Told (ack_in response) _ _ fails (λ ack same.
            read_step Told (reject (not (ack.offer_id == announcement.offer_id)) _) _ _ fails
              (λ _ equal. ends (ok ack) (λ other e.
                sent_ack-IsAnswer response ack other came checked same (ground arith)
                  (ground arith)))))

    tell-Told : Told (tell host peer announcement (greeting ∷ []))
    unfolding tell
    tell-Told =
        write_step Told told_message peer.write_announcement _ _ greeted
          (read_step Told peer.response _ _ fails acknowledged-Told)

  abbrev purpose : Text
  purpose = lit "announcement"

  -- what follows the server's hello
  abbrev introduced : ServerHello → Talk OfferAck
  introduced server sent =
      bind_outcome (require_v2_server_hello host server true purpose, sent)
        (λ _. tell host peer announcement)

  server_in-eq-ok :
      (response : WireMessage) (server : ServerHello)
      → server_in response ≡ ok server
      → response ≡ server_hello server
  server_in-eq-ok (server_hello given) server same = ap server_hello (ground arith)
  server_in-eq-ok (client_hello given) server same = absurd (ground arith)

  introduced-Told :
      validate_announcement announcement ≡ ok tt
      → hello.device_id ≡ announcement.source_device
      → (response : WireMessage) (server checked : ServerHello) → peer.server ≡ ok response
      → server_in response ≡ ok server
      → check_server_hello host key announcement.target_device purpose server ≡ ok checked
      → Told (introduced checked (greeting ∷ []))
  introduced-Told valid own response server checked came same passed =
      let (one, signature, key_holds, device) =
        check_server_hello-eq-ok host key announcement.target_device purpose server checked
          passed in
      read_step Told (require_v2_server_hello host checked true purpose) (greeting ∷ []) _ greeted
        (λ _ able.
          let (version, capability, accepted) =
            require_v2_server_hello-eq-ok host server purpose
              (ap (λ s. require_v2_server_hello host s true purpose) (sym one) ∙ able) in
          tell-Told valid own server (came ∙ ap (λ r. ok r) (server_in-eq-ok response server same))
            (record {
              signature = signature;
              key = key_holds;
              device_id = device;
              version = version;
              capability = capability;
              accepted = accepted;
            }))

  converse-Told :
      validate_announcement announcement ≡ ok tt
      → hello.device_id ≡ announcement.source_device
      → Told (converse host peer hello announcement key [])
  unfolding converse read_server_hello
  converse-Told valid own = write_step Told greeting peer.write_hello [] _ silent (
      read_step (λ outcome. Told (bind_outcome outcome introduced)) peer.server (greeting ∷ []) _
        greeted
        (λ response came.
          read_step (λ outcome. Told (bind_outcome outcome introduced)) (server_in response)
            (greeting ∷ []) _ greeted
            (λ server same.
              read_step Told (check_server_hello host key announcement.target_device purpose server)
                (greeting ∷ []) introduced greeted
                (λ checked passed.
                  introduced-Told valid own response server checked came same passed))))

  -- Whatever the peer and the network do, announce_offer_v2 writes nothing, or the greeting, or the
  -- greeting and then the announcement; the last only for a valid announcement of this device,
  -- after a server hello with a valid signature, the expected key if there is one, the target's
  -- identifier, version 2, the capability and its acceptance. An acknowledgement that it returns is
  -- a valid one of this offer.
  pub announce_offer_v2-Told : Told (announce_offer_v2 host peer hello announcement key [])
  unfolding announce_offer_v2
  announce_offer_v2-Told =
      read_step Told (map_err protocol (validate_announcement announcement)) [] _ silent (λ _ valid.
        read_step Told (reject (not (hello.device_id == announcement.source_device)) _) [] _ silent
          (λ _ own. read_step Told (require_v2_client_hello hello _) [] _ silent (λ _ able.
            read_step Told peer.connect [] _ silent (λ _ connected.
              converse-Told (map_err-eq-ok protocol (validate_announcement announcement) valid)
                (ground arith)))))
