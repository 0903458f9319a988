-- ===== src/Net/Connection/Gatekeeping.antt =====
-- Who reaches the store and the fetch service by `handle_v2_connection`
-- (crates/meshelf-net/src/lib.rs).
use meshelf.Base.{
  ◌≡◌, refl, ap, ◌∙◌, inl, inr, Bool, true, false, not, Option, none, some, ◌∷◌, Result, ok, err,
  arith, Bool-cases, ◌==◌, if◌then◌else◌,
}
use meshelf.Base.Actions.{bind_outcome, Ends}
use meshelf.Base.Map.{nat_key}
use meshelf.Base.Text.{Text}
use meshelf.Protocol.Messages.{
  v2_protocol_version, ClientHello, OfferAnnouncement, FetchRequest, V2Message, offer_announcement,
  offer_ack, fetch_request, OfferAck,
}
use meshelf.Protocol.Validate.{validate_v2_message}
use meshelf.Net.Announcements.{redb_cards, handle_sync}
use meshelf.Net.Errors.{NetError, Display}
use meshelf.Net.Trust.{IpAddr, TrustDecision, allow, deny, has_offer_pull}
use meshelf.Net.Connection.{
  Server, Reply, hello, operation, Connection, Events, Serve, write, trust_of, handle_announcement,
  handle_fetch, handle_operation, turn_away, greet, handle_client, handle_v2_connection,
}

pub record IsTrusted (server : Server) (remote : IpAddr) (client : ClientHello) : Type 0 where
  pub version : client.protocol_version ≡ v2_protocol_version
  pub signature : (server.host).client_has_valid_signature client ≡ true
  pub capability : has_offer_pull client.capabilities ≡ true
  pub admitted : server.gate remote client ≡ allow

trust_of-allow :
    (server : Server) (remote : IpAddr) (client : ClientHello)
    → client.protocol_version ≡ v2_protocol_version
    → trust_of server remote client ≡ allow
    → IsTrusted server remote client
unfolding trust_of
trust_of-allow server remote client version h =
    elim (Bool-cases ((server.host).client_has_valid_signature client)) [
      | inr e ↦ absurd (ground arith)
      | inl e ↦ elim (Bool-cases (has_offer_pull client.capabilities)) [
        | inr f ↦ absurd (ground arith)
        | inl f ↦ record {
          version = version;
          signature = e;
          capability = f;
          admitted = ground arith;
        }
      ]
    ]

module _ (display : Display) (server : Server) (events : Events) (remote : IpAddr)
    (before : Connection) where
  abbrev IsUntouched : Connection → Type 0
  IsUntouched after = (after.database ≡ before.database) × (after.fetches ≡ before.fetches)

  -- What a connection can do: nothing, one fetch of a trusted client, or one announcement that is
  -- taken as that client's.
  pub data Served : Connection → Type 0 where
    untouched :
        {after : Connection}
        → after.database ≡ before.database
        → after.fetches ≡ before.fetches
        → Served after
    fetched :
        {after : Connection} (client : ClientHello) (request : FetchRequest)
        → events.client_hello ≡ ok client
        → IsTrusted server remote client
        → after.database ≡ before.database
        → after.fetches ≡ (client.device_id, request) ∷ before.fetches
        → Served after
    announced :
        {after : Connection} (client : ClientHello) (announcement : OfferAnnouncement)
        → events.client_hello ≡ ok client
        → IsTrusted server remote client
        → after.database
          ≡ (handle_sync display redb_cards events.poisoned client.device_id server.device_id
              announcement before.database).1
        → after.fetches ≡ before.fetches
        → Served after

  then-Served :
      {A B : Type 0} (P : A → Type 0) (outcome : Result NetError A × Connection)
      (next : A → Serve B)
      → Ends IsUntouched P outcome
      → ((value : A) (state : Connection)
          → IsUntouched state
          → P value
          → Served (next value state).1)
      → Served (bind_outcome outcome next).1
  then-Served P (ok value, state) next h rest = rest value state h.0 h.1
  then-Served P (err e, state) next h rest = untouched h.0 h.1

  write-Ends :
      (reply : Reply) (fault : Option NetError) (state : Connection)
      → IsUntouched state
      → Ends IsUntouched (λ _. Unit) (write reply fault state)
  unfolding write
  write-Ends reply none state h = (h, tt)
  write-Ends reply (some e) state h = h

  lift-Ends :
      {A : Type 0} (P : A → Type 0) (result : Result NetError A) (state : Connection)
      → ((a : A) → result ≡ ok a → P a)
      → IsUntouched state
      → Ends IsUntouched P (result, state)
  lift-Ends P (ok a) state p h = (h, p a refl)
  lift-Ends P (err e) state p h = h

  turn_away-Served :
      (reason : Text) (state : Connection)
      → IsUntouched state
      → Served (turn_away display server events reason state).1
  unfolding turn_away
  turn_away-Served reason state h =
      then-Served (λ _. Unit)
        (write (hello (server.signed false (some reason))) events.write_hello state) _
        (write-Ends _ events.write_hello state h) (λ _ w k _. untouched k.0 k.1)

  -- a write keeps the database and the fetches
  write_database :
      (reply : Reply) (fault : Option NetError) (state : Connection)
      → ((write reply fault state).1.database ≡ state.database)
        × ((write reply fault state).1.fetches ≡ state.fetches)
  unfolding write
  write_database reply none state = (refl, refl)
  write_database reply (some e) state = (refl, refl)

  after_ack :
      (result : Result NetError OfferAck) (state : Connection)
      → ((bind_outcome
            (result, state)
            (λ ack. write (operation (offer_ack ack)) events.write_ack)).1.database
          ≡ state.database)
        × ((bind_outcome
              (result, state)
              (λ ack. write (operation (offer_ack ack)) events.write_ack)).1.fetches
            ≡ state.fetches)
  after_ack (ok ack) state = write_database (operation (offer_ack ack)) events.write_ack state
  after_ack (err e) state = (refl, refl)

  module _ (client : ClientHello) (said : events.client_hello ≡ ok client)
      (trusted : IsTrusted server remote client) where
    handle_announcement-Served :
        (announcement : OfferAnnouncement) (state : Connection)
        → IsUntouched state
        → Served (handle_announcement display server events client announcement state).1
    unfolding handle_announcement
    handle_announcement-Served announcement state (database, fetches) =
        let (result, stored) =
          handle_sync display redb_cards events.poisoned client.device_id server.device_id
            announcement state.database in
        let (kept, same) = after_ack result (record state { database = stored }) in
        announced client announcement said trusted
          (kept
            ∙ ap
                (λ d.
                  (handle_sync display redb_cards events.poisoned client.device_id server.device_id
                    announcement d).1)
                database)
          (same ∙ fetches)

    handle_operation-Served :
        (message : V2Message) (state : Connection)
        → IsUntouched state
        → Served (handle_operation display server events client message state).1
    unfolding handle_operation handle_fetch validate_v2_message
    handle_operation-Served (offer_announcement announcement) state h =
        handle_announcement-Served announcement state h
    handle_operation-Served (fetch_request request) state h =
        fetched client request said trusted h.0 (ap (λ f. (client.device_id, request) ∷ f) h.1)
    handle_operation-Served _ state h = untouched h.0 h.1

    greet-Served :
        (state : Connection)
        → IsUntouched state
        → Served (greet display server events client allow state).1
    unfolding greet
    greet-Served state h =
        then-Served (λ _. Unit) (write (hello (server.signed true none)) events.write_hello state) _
          (write-Ends _ events.write_hello state h)
          (λ _ w k _.
            then-Served (λ _. Unit) (events.operation, w) _
              (lift-Ends (λ _. Unit) events.operation w (λ _ _. tt) k)
              (λ message v j _. handle_operation-Served message v j))

  decided-Served :
      (client : ClientHello) (decision : TrustDecision) (state : Connection)
      → events.client_hello ≡ ok client
      → client.protocol_version ≡ v2_protocol_version
      → trust_of server remote client ≡ decision
      → IsUntouched state
      → Served (greet display server events client decision state).1
  unfolding greet
  decided-Served client (deny reason) state said version e h = turn_away-Served reason state h
  decided-Served client allow state said version e h =
      greet-Served client said (trust_of-allow server remote client version e) state h

  choose-Served :
      (b : Bool) (f g : Serve (Unit {0})) (state : Connection)
      → (b ≡ true → Served (f state).1)
      → (b ≡ false → Served (g state).1)
      → Served ((if b then f else g) state).1
  choose-Served true f g state h k = h refl
  choose-Served false f g state h k = k refl

  handle_client-Served :
      (client : ClientHello) (state : Connection)
      → events.client_hello ≡ ok client
      → IsUntouched state
      → Served (handle_client display server events remote client state).1
  unfolding handle_client
  handle_client-Served client state said h =
      choose-Served (not (client.protocol_version == v2_protocol_version)) _
        (greet display server events client (trust_of server remote client)) state
        (λ e. turn_away-Served (server.v1_client_refusal_reason client) state h)
        (λ e.
          decided-Served client (trust_of server remote client) state said (ground arith) refl h)

  -- Whatever the socket reports, a connection leaves the database and the fetches as they were, or
  -- its client speaks version 2 with a valid signature and the capability and the gate allows it
  -- from this address; then the connection did one fetch as this client, or stored what handle_sync
  -- makes of one announcement of this client.
  pub handle_v2_connection-Served :
      Served (handle_v2_connection display server events remote before).1
  unfolding handle_v2_connection
  handle_v2_connection-Served =
      then-Served (λ client. events.client_hello ≡ ok client) (events.client_hello, before) _
        (lift-Ends (λ client. events.client_hello ≡ ok client) events.client_hello before
          (λ client e. e) (refl, refl))
        (λ client state h said. handle_client-Served client state said h)
