-- ===== src/Proxy/Forward.antt =====
-- Passing data on: raknet_proxy.cpp, the branch of MW_PROXY_DATA and the `default` branch of main.
use raknet_proxy.Base.{ℕ, ◌-◌, ◌||◌, Option, none, some, ltb, ◌==◌, if◌then◌else◌}
use raknet_proxy.Wire.{uin_of_frame, load_u32}
use raknet_proxy.Client.{Peer, Address, ClientContext, count_sent, count_received}
use raknet_proxy.Args.{ProgramArgs}
use raknet_proxy.Net.{Env, Packet, send_slice}
use raknet_proxy.Table.{find, adjust, find_first}
use raknet_proxy.Child.{target_of}
use raknet_proxy.Proxy.{Clients, Proxy}

module _ (env : Env) (args : ProgramArgs) where
  -- The packet from offset i on goes through a client's child peer, and is counted.
  unfoldable pub send_through : ℕ → ClientContext → Peer → Packet → ℕ → Address → Proxy → Proxy
  send_through k c p packet i target s = record s {
    clients = adjust k (count_sent (packet.length - i)) s.clients;
    history = send_slice env p packet i (packet.length - i) target s.history;
  }

  -- MW_PROXY_DATA for the client that is found, if it has a child peer.
  unfoldable pub relay_to : ℕ → Packet → Proxy → Option ClientContext → Proxy
  unfolding send_through
  relay_to k packet s none = s
  relay_to k packet s (some c) = elim c.child_peer [
    | none ↦ s
    | some p ↦ send_through k c p packet 6 (target_of env args c) s
  ]

  -- MW_PROXY_DATA: 5c 30 [UIN] [data].
  unfoldable pub handle_proxy_data : Packet → Proxy → Proxy
  unfolding relay_to
  handle_proxy_data packet s =
      if ltb packet.length 6
      then s
      else let uin = load_u32 env.little_endian packet.bytes 2 in
        relay_to uin packet s (find uin s.clients)

  -- A packet from the target goes to the client as it is.
  unfoldable pub return_to_client : Peer → ℕ → ClientContext → Packet → Proxy → Proxy
  return_to_client peer k c packet s = record s {
    clients = adjust k (count_received packet.length) s.clients;
    history = send_slice env peer packet 0 packet.length c.client_address s.history;
  }

  -- A packet from a client goes through its child peer, if it has one and the target is known.
  unfoldable pub pass_to_target : ℕ → ClientContext → Packet → Proxy → Proxy
  unfolding send_through
  pass_to_target k c packet s = elim c.child_peer [
    | none ↦ s
    | some p ↦
        let target = target_of env args c in
        if target == env.unassigned then s else send_through k c p packet 0 target s
  ]

  -- The client that a packet belongs to: by the UIN in its bytes 1 to 4, else by its sender.
  unfoldable pub context_by_uin : Packet → Clients → Option (ℕ × ClientContext)
  context_by_uin packet cs =
      if ltb packet.length 5 then none else elim (find (uin_of_frame packet.bytes) cs) [
        | none ↦ none
        | some c ↦ some (uin_of_frame packet.bytes, c)
      ]

  unfoldable pub context_of : Packet → Clients → Option (ℕ × ClientContext)
  unfolding context_by_uin
  context_of packet cs = elim (context_by_uin packet cs) [
    | none ↦
        find_first
          (λ c.
            c.client_address == packet.system_address || c.target_address == packet.system_address)
          cs
    | some found ↦ some found
  ]

  unfoldable pub forward_as : Peer → Packet → Proxy → Option (ℕ × ClientContext) → Proxy
  unfolding return_to_client pass_to_target
  forward_as peer packet s none = s
  forward_as peer packet s (some (k, c)) =
      if c.target_address == packet.system_address
      then return_to_client peer k c packet s
      else pass_to_target k c packet s

  -- The `default` branch.
  unfoldable pub forward : Peer → Packet → Proxy → Proxy
  unfolding forward_as context_of
  forward peer packet s = forward_as peer packet s (context_of packet s.clients)
