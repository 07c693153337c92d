-- ===== src/Proxy/Answering.antt =====
-- What the program does with one packet of a child peer: raknet_proxy.cpp, the loop over the
-- clients in main.
use raknet_proxy.Base.{
  ℕ, ◌+◌, ◌%◌, ◌^◌, ◌≡◌, refl, ◌≢◌, ◌⊎◌, inl, inr, true, false, ◌∷◌, none, Bool-cases, arith,
}
use raknet_proxy.Wire.{slice}
use raknet_proxy.Client.{
  Peer, ClientContext, ConnectionState, disconnected, punch_connecting, punch_connected,
  host_connecting, proxy_connecting, proxy_handshake, connected, same_state,
}
use raknet_proxy.Args.{ProgramArgs}
use raknet_proxy.Net.{
  Env, History, Packet, send, time, shutdown, destroyed, deallocate_packet, destroy_client,
  send_slice,
}
use raknet_proxy.Net.Live.{live}
use raknet_proxy.Child.{update_client_state}
use raknet_proxy.Proxy.Poll.{child_kind_of, pass_to_client, on_child_kind}
use raknet_proxy.Proxy.Kinds.{
  IsTargetLost, IsDistinct, child_kind_of-gone, child_kind_of-passed, child_kind_of-accepted,
  classify,
}

module _ (env : Env) (main : Peer) (c : ClientContext) (p : Peer) (packet : Packet) where
  -- Behind the calls in h and perhaps a look at the clock, the whole packet was sent to the client
  -- and then freed. It is counted once, and all but the counters, the state and what belongs to the
  -- target is as before.
  pub record Returned (c' : ClientContext) (h h' : History) : Type 0 where
    pub before : History
    pub looked : (before ≡ h) ⊎ (before ≡ time (env.clock h) ∷ h)
    pub sent :
        h'
        ≡ deallocate_packet p
          ∷ send main (slice packet.bytes 0 packet.length) c.client_address
          ∷ before
    pub same_child : c'.child_peer ≡ c.child_peer
    pub same_client : c'.client_address ≡ c.client_address
    pub same_uin : c'.uin ≡ c.uin
    pub same_guid : c'.client_guid ≡ c.client_guid
    pub same_sent : (c'.bytes_sent ≡ c.bytes_sent) × (c'.packets_sent ≡ c.packets_sent)
    pub bytes : c'.bytes_received ≡ (c.bytes_received + packet.length) % 2 ^ 64
    pub packets : c'.packets_received ≡ (c.packets_received + 1) % 2 ^ 32

  -- What a packet does, by its identifier, to the context and to the calls, which are h before.
  pub data Answered (id : ℕ) (c' : ClientContext) (h h' : History) : Type 0 where
    given_up :
        IsTargetLost env.ids id
        → c' ≡ record c { child_peer = none }
        → live p h' ≡ false
        → h' ≡ destroyed p ∷ shutdown p 300 ∷ deallocate_packet p ∷ h
        → Answered id c' h h'
    established :
        id ≡ env.ids.connection_request_accepted
        → c'.state ≡ connected
        → c'.target_address ≡ packet.system_address
        → c'.host_connect_timeout ≡ 0
        → Returned c' h h'
        → Answered id c' h h'
    passed_on :
        id ≢ env.ids.connection_request_accepted
        → ¬ IsTargetLost env.ids id
        → c'.state ≡ c.state
        → c'.target_address ≡ c.target_address
        → c'.host_connect_timeout ≡ c.host_connect_timeout
        → Returned c' h h'
        → Answered id c' h h'

same_state-connected : (st : ConnectionState) → same_state st connected ≡ true → st ≡ connected
same_state-connected disconnected e = ground (arith, e)
same_state-connected punch_connecting e = ground (arith, e)
same_state-connected punch_connected e = ground (arith, e)
same_state-connected host_connecting e = ground (arith, e)
same_state-connected proxy_connecting e = ground (arith, e)
same_state-connected proxy_handshake e = ground (arith, e)
same_state-connected connected e = refl

module _ (env : Env) (apart : IsDistinct env.ids) (args : ProgramArgs) (main : Peer) where
  pub on_child_kind-Answered :
      (c : ClientContext) (p : Peer) (packet : Packet) (id : ℕ) (h : History)
      → let r = on_child_kind env args main (child_kind_of env.ids id) c p packet h in
        Answered env main c p packet id r.0 h r.1
  unfolding on_child_kind pass_to_client update_client_state send_slice destroy_client
  on_child_kind-Answered c p packet id h = elim (classify env.ids id) [
    | inl agreed ↦
        rw (child_kind_of-accepted env.ids id agreed)
          (elim (Bool-cases (same_state c.state connected)) [
            | inl same ↦ rw same (
                established agreed (same_state-connected c.state same) refl refl (record {
                  before = h;
                  looked = inl refl;
                  sent = refl;
                  same_child = refl;
                  same_client = refl;
                  same_uin = refl;
                  same_guid = refl;
                  same_sent = (refl, refl);
                  bytes = refl;
                  packets = refl;
                }))
            | inr changes ↦ rw changes (
                established agreed refl refl refl (record {
                  before = time (env.clock h) ∷ h;
                  looked = inr refl;
                  sent = refl;
                  same_child = refl;
                  same_client = refl;
                  same_uin = refl;
                  same_guid = refl;
                  same_sent = (refl, refl);
                  bytes = refl;
                  packets = refl;
                }))
          ])
    | inr (inl ended) ↦
        rw (child_kind_of-gone env.ids apart id ended) (given_up ended refl (ground arith) refl)
    | inr (inr (differs, stays)) ↦ rw (child_kind_of-passed env.ids id differs stays) (
        passed_on differs stays refl refl refl (record {
          before = h;
          looked = inl refl;
          sent = refl;
          same_child = refl;
          same_client = refl;
          same_uin = refl;
          same_guid = refl;
          same_sent = (refl, refl);
          bytes = refl;
          packets = refl;
        }))
  ]
