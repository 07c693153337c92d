-- ===== src/Proxy/Events.antt =====
-- One packet of the main peer: raknet_proxy.cpp, the `switch (packetID)` of main and the inner
-- `switch (subID)`. The cases that only print are one kind here, and do nothing.
use raknet_proxy.Base.{
  ℕ, not, ◌&&◌, ◌||◌, ◌∷◌, Option, none, some, str_eq, ltb, ◌==◌, if◌then◌else◌,
}
use raknet_proxy.Wire.{
  client_register, host_register, client_online, relay_data, ping, disconnect, byte_at, get_uin,
}
use raknet_proxy.Client.{Peer, Address, ClientContext, connected, punch_connected}
use raknet_proxy.Args.{ProgramArgs, is_empty}
use raknet_proxy.Net.{
  Env, MessageIds, History, Packet, time, connect, get_my_guid, get_packet_identifier,
  send_miniworld_message_guid,
}
use raknet_proxy.Table.{find}
use raknet_proxy.Child.{port, update_client_state}
use raknet_proxy.Proxy.{Proxy, sweep_clients, enrolled, assign_child}
use raknet_proxy.Proxy.Register.{
  update_found, handle_client_register, handle_host_register, handle_ping_message,
  handle_disconnect_message, handle_client_online,
}
use raknet_proxy.Proxy.Forward.{handle_proxy_data, forward}

pub data Kind : Type 0 where
  incoming : Kind
  disconnection : Kind
  lost : Kind
  accepted : Kind
  punched : Kind
  logged : Kind
  general : Kind
  other : Kind

-- The labels of the outer switch.
unfoldable pub kind_of : MessageIds → ℕ → Kind
kind_of ids id =
    if id == ids.new_incoming_connection
    then incoming
    else if id == ids.disconnection_notification
    then disconnection
    else if id == ids.connection_lost
    then lost
    else if id == ids.connection_request_accepted
    then accepted
    else if id == ids.nat_punchthrough_succeeded
    then punched
    else if id == ids.no_free_incoming_connections
        || (id == ids.nat_punchthrough_failed
            || (id == ids.nat_target_not_connected
                || (id == ids.nat_target_unresponsive
                    || (id == ids.nat_connection_to_target_lost
                        || id == ids.nat_already_in_progress))))
    then logged
    else if id == ids.udp_proxy_general
    then general
    else other

pub data Sub : Type 0 where
  registers_client : Sub
  registers_host : Sub
  pings : Sub
  disconnects : Sub
  relays : Sub
  goes_online : Sub
  ignored : Sub

-- The labels of the inner switch; the answers and the two kinds of auth do nothing.
unfoldable pub sub_of : ℕ → Sub
sub_of id =
    if id == client_register
    then registers_client
    else if id == host_register
    then registers_host
    else if id == ping
    then pings
    else if id == disconnect
    then disconnects
    else if id == relay_data
    then relays
    else if id == client_online
    then goes_online
    else ignored

module _ (env : Env) (args : ProgramArgs) (peer : Peer) where
  -- What ID_NEW_INCOMING_CONNECTION does to a client that is known.
  unfoldable pub confirm_target : Address → ClientContext → History → ClientContext × History
  unfolding update_client_state
  confirm_target sender c h =
      update_client_state env (record c { target_address = sender }) connected h

  -- ID_NEW_INCOMING_CONNECTION, for a client that is known or not.
  unfoldable pub accept_incoming : Packet → Proxy → Option ClientContext → Proxy
  unfolding confirm_target
  accept_incoming packet s (some c) =
      update_found env (get_uin packet.guid) (confirm_target packet.system_address) s (some c)
  accept_incoming packet s none =
      let now = env.clock s.history in
      let ctx = record (enrolled env packet.guid (get_uin packet.guid) packet.system_address) {
        state_start_time = now;
      } in
      assign_child env args (get_uin packet.guid) ctx packet.guid (time now ∷ s.history) s

  unfoldable pub on_incoming : Packet → Proxy → Proxy
  unfolding accept_incoming
  on_incoming packet s = accept_incoming packet s (find (get_uin packet.guid) s.clients)

  -- The reconnection to the coordinator, behind ID_DISCONNECTION_NOTIFICATION and
  -- ID_CONNECTION_LOST.
  unfoldable pub reconnect_coordinator : Address → Proxy → Proxy
  reconnect_coordinator sender s =
      if not (s.coordinator_address == env.unassigned) && sender == s.coordinator_address
      then record s {
        coordinator_address = env.unassigned;
        history = connect peer args.coordinator_ip (port args.coordinator_port) ∷ s.history;
      }
      else s

  -- The reconnection to the NAT server, behind it.
  unfoldable pub reconnect_nat : Address → Proxy → Proxy
  reconnect_nat sender s =
      if str_eq (env.host_text sender) args.nat_server_ip
      then record s {
        history = connect peer args.nat_server_ip (port args.nat_server_port) ∷ s.history;
      }
      else s

  unfoldable pub on_disconnection : Packet → Proxy → Proxy
  unfolding reconnect_nat reconnect_coordinator
  on_disconnection packet s =
      let sender = packet.system_address in
      reconnect_nat sender
        (reconnect_coordinator sender (sweep_clients (λ c. c.client_address == sender) s))

  unfoldable pub on_lost : Packet → Proxy → Proxy
  unfolding reconnect_nat reconnect_coordinator
  on_lost packet s =
      let sender = packet.system_address in
      reconnect_nat sender (
        reconnect_coordinator sender
          (sweep_clients (λ c. c.client_address == sender || c.target_address == sender) s))

  -- ID_CONNECTION_REQUEST_ACCEPTED: the proxy registers with the coordinator.
  unfoldable pub on_accepted : Packet → Proxy → Proxy
  on_accepted packet s =
      let sender = packet.system_address in
      if not (is_empty args.coordinator_ip) && str_eq (env.host_text sender) args.coordinator_ip
      then record s {
        coordinator_address = sender;
        history =
            send_miniworld_message_guid env peer client_register sender (env.my_guid s.history peer)
              (get_my_guid peer ∷ s.history);
      }
      else s

  -- ID_NAT_PUNCHTHROUGH_SUCCEEDED
  unfoldable pub on_punched : Packet → Proxy → Proxy
  unfolding update_client_state
  on_punched packet s =
      let uin = get_uin packet.guid in
      update_found env uin (λ c h. update_client_state env c punch_connected h) s
        (find uin s.clients)

  -- ID_UDP_PROXY_GENERAL, for a packet with a sub-message.
  unfoldable pub on_sub : Sub → Packet → Proxy → Proxy
  on_sub registers_client packet s = handle_client_register env peer args packet s
  on_sub registers_host packet s = handle_host_register env peer packet s
  on_sub pings packet s = handle_ping_message env peer packet s
  on_sub disconnects packet s = handle_disconnect_message env packet s
  on_sub relays packet s = handle_proxy_data env args packet s
  on_sub goes_online packet s = handle_client_online env peer args packet s
  on_sub ignored packet s = s

  unfoldable pub on_general : Packet → Proxy → Proxy
  on_general packet s =
      if ltb packet.length 2 then s else on_sub (sub_of (byte_at packet.bytes 1)) packet s

  unfoldable pub on_kind : Kind → Packet → Proxy → Proxy
  on_kind incoming packet s = on_incoming packet s
  on_kind disconnection packet s = on_disconnection packet s
  on_kind lost packet s = on_lost packet s
  on_kind accepted packet s = on_accepted packet s
  on_kind punched packet s = on_punched packet s
  on_kind logged packet s = s
  on_kind general packet s = on_general packet s
  on_kind other packet s = forward env args peer packet s

  -- The whole switch.
  unfoldable pub handle_packet : Packet → Proxy → Proxy
  handle_packet packet s =
      on_kind (kind_of env.ids (get_packet_identifier env (some packet))) packet s
