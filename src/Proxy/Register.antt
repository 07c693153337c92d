-- ===== src/Proxy/Register.antt =====
-- The handlers of the MiniWorld sub-messages: raknet_proxy.cpp, HandleClientRegister,
-- HandleHostRegister, HandlePingMessage, HandleDisconnectMessage, and the branch of
-- MW_PROXY_CLIENT_ONLINE in main.
use raknet_proxy.Base.{ℕ, ◌+◌, [], ◌∷◌, Option, none, some, ltb, leb, ◌==◌, if◌then◌else◌}
use raknet_proxy.Wire.{
  client_register_resp, host_register_resp, pong, get_uin, read_big_endian_guid,
}
use raknet_proxy.Client.{Peer, Address, ClientContext, host_connecting}
use raknet_proxy.Args.{ProgramArgs}
use raknet_proxy.Net.{
  Env, History, Packet, time, get_my_guid, host_connect_timeout_sec, destroy_client,
  send_miniworld_message,
}
use raknet_proxy.Table.{find, adjust, find_first, erase_first}
use raknet_proxy.Child.{update_client_state}
use raknet_proxy.Proxy.{Proxy, enrolled, assign_child}

-- The length test of HandleHostRegister and the two GUIDs that it reads; nothing uses the second.
unfoldable pub host_guids : Packet → Option (ℕ × ℕ)
host_guids packet =
    if ltb packet.length 18
    then none
    else some (read_big_endian_guid packet.bytes 2, read_big_endian_guid packet.bytes 10)

module _ (env : Env) where
  -- The part of HandleClientRegister behind the length test, from the GUID on.
  unfoldable pub register_client : Peer → ProgramArgs → Packet → ℕ → Proxy → Proxy
  register_client peer args packet guid s =
      let h =
        send_miniworld_message env peer client_register_resp packet.system_address [] s.history in
      let now = env.clock h in
      let ctx = record (enrolled env guid (get_uin guid) packet.system_address) {
        state_start_time = now;
      } in
      assign_child env args (get_uin guid) ctx guid (time now ∷ h) s

  -- HandleClientRegister
  unfoldable pub handle_client_register : Peer → ProgramArgs → Packet → Proxy → Proxy
  unfolding register_client
  handle_client_register peer args packet s =
      if ltb packet.length 10
      then s
      else register_client peer args packet (read_big_endian_guid packet.bytes 2) s

  -- What HandleHostRegister does to a client that it finds: the context and the calls.
  unfoldable pub start_host_connect : Address → ClientContext → History → ClientContext × History
  unfolding update_client_state
  start_host_connect sender c h =
      let (c', h') =
        update_client_state env (record c { target_address = sender }) host_connecting h in
      (
        record c' { host_connect_timeout = env.clock h' + host_connect_timeout_sec },
        time (env.clock h') ∷ h',
      )

  -- An update of the context that is found under a key: `it->second` in the source.
  unfoldable pub update_found :
      ℕ → (ClientContext → History → ClientContext × History) → Proxy → Option ClientContext → Proxy
  update_found k f s none = s
  update_found k f s (some c) =
      let (c', h) = f c s.history in
      record s { clients = adjust k (λ _. c') s.clients; history = h }

  -- HandleHostRegister
  unfoldable pub handle_host_register : Peer → Packet → Proxy → Proxy
  unfolding update_found start_host_connect
  handle_host_register peer packet s = elim (host_guids packet) [
    | none ↦ s
    | some (guid1, guid2) ↦
        let uin = get_uin guid1 in
        let s' = record s {
          history =
              send_miniworld_message env peer host_register_resp packet.system_address [] s.history;
        } in
        update_found uin (start_host_connect packet.system_address) s' (find uin s.clients)
  ]

  -- HandlePingMessage: a pong if the sender is a client.
  unfoldable pub handle_ping_message : Peer → Packet → Proxy → Proxy
  handle_ping_message peer packet s =
      elim (find_first (λ c. c.client_address == packet.system_address) s.clients) [
        | none ↦ s
        | some _ ↦ record s {
          history = send_miniworld_message env peer pong packet.system_address [] s.history;
        }
      ]

  -- HandleDisconnectMessage: the first client with the sender's address goes.
  unfoldable pub handle_disconnect_message : Packet → Proxy → Proxy
  handle_disconnect_message packet s =
      let is_sender = λ (c : ClientContext). c.client_address == packet.system_address in
      elim (find_first is_sender s.clients) [
        | none ↦ s
        | some (k, c) ↦ record s {
          clients = erase_first is_sender s.clients;
          history = destroy_client c.child_peer s.history;
        }
      ]

  -- The branch of MW_PROXY_CLIENT_ONLINE, from the GUID on. The start time stays 0.
  unfoldable pub enrol_online : ProgramArgs → Packet → ℕ → History → Proxy → Proxy
  enrol_online args packet guid h s =
      assign_child env args (get_uin guid) (enrolled env guid (get_uin guid) packet.system_address)
        guid h s

  -- MW_PROXY_CLIENT_ONLINE: a short message stands for the proxy's own GUID.
  unfoldable pub handle_client_online : Peer → ProgramArgs → Packet → Proxy → Proxy
  unfolding enrol_online
  handle_client_online peer args packet s =
      if leb 10 packet.length
      then enrol_online args packet (read_big_endian_guid packet.bytes 2) s.history s
      else enrol_online args packet (env.my_guid s.history peer) (get_my_guid peer ∷ s.history) s
