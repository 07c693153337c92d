-- ===== src/Proxy/Dispatch.antt =====
-- Every case of the switch keeps the invariant of the child peers.
use raknet_proxy.Base.{◌≡◌, refl, not, ◌&&◌, Option, none, some, ltb, ◌==◌, if_elim, str_eq}
use raknet_proxy.Wire.{get_uin}
use raknet_proxy.Client.{Peer, Address, ClientContext, connected, punch_connected}
use raknet_proxy.Args.{ProgramArgs, is_empty}
use raknet_proxy.Net.{Env, Packet, send_miniworld_message_guid}
use raknet_proxy.Net.Live.{IsFresh}
use raknet_proxy.Table.{find}
use raknet_proxy.Proxy.{Proxy}
use raknet_proxy.Proxy.Events.{
  Kind, incoming, disconnection, lost, accepted, punched, logged, general, other, Sub,
  registers_client, registers_host, pings, disconnects, relays, goes_online, ignored,
  confirm_target, accept_incoming, on_incoming, reconnect_coordinator, reconnect_nat,
  on_disconnection, on_lost, on_accepted, on_punched, on_sub, on_general, on_kind, handle_packet,
}
use raknet_proxy.Proxy.Invariant.{Inv}
use raknet_proxy.Proxy.Safety.{
  Inv-log, Inv-coordinator, sweep_clients-Inv, assign_child-Inv, IsQuiet, update_found-Inv,
  update_client_state-IsQuiet,
}
use raknet_proxy.Proxy.Handlers.{
  handle_client_register-Inv, handle_host_register-Inv, handle_ping_message-Inv,
  handle_disconnect_message-Inv, handle_client_online-Inv,
}
use raknet_proxy.Proxy.Forwarding.{handle_proxy_data-Inv, forward-Inv}

module _ (env : Env) (fresh : IsFresh env) (args : ProgramArgs) (main : Peer) (Q : Peer → Type 0)
    (qm : Q main) where
  confirm_target-IsQuiet : (sender : Address) → IsQuiet (confirm_target env args main sender)
  unfolding confirm_target
  confirm_target-IsQuiet sender =
      let q = update_client_state-IsQuiet env connected in
      record {
        keeps_child = λ c h. q.keeps_child (record c { target_address = sender }) h;
        same_lives = λ c h p. q.same_lives (record c { target_address = sender }) h p;
        keeps_safe = λ c h s. q.keeps_safe (record c { target_address = sender }) h s;
      }

  on_incoming-Inv :
      (packet : Packet) (s : Proxy) → Inv Q s → Inv Q (on_incoming env args main packet s)
  unfolding on_incoming
  on_incoming-Inv packet s i = by_lookup (find (get_uin packet.guid) s.clients) refl
    where
      by_lookup :
          (o : Option ClientContext)
          → find (get_uin packet.guid) s.clients ≡ o
          → Inv Q (accept_incoming env args main packet s o)
      by_lookup (some c) e =
          update_found-Inv env Q _ _ s (some c) (confirm_target-IsQuiet packet.system_address) e i
      by_lookup none e =
          assign_child-Inv env fresh args Q _ _ _ _ s (Inv-log Q s _ (λ p. refl) (tt, i.safe) i)

  reconnect_coordinator-Inv :
      (sender : Address) (s : Proxy)
      → Inv Q s
      → Inv Q (reconnect_coordinator env args main sender s)
  unfolding reconnect_coordinator
  reconnect_coordinator-Inv sender s i =
      if_elim (Inv Q)
        (not (s.coordinator_address == env.unassigned) && sender == s.coordinator_address)
        (λ _.
          Inv-log Q (record s { coordinator_address = env.unassigned }) _ (λ p. refl)
            ((i.lives main qm), i.safe) (Inv-coordinator Q env.unassigned s i))
        (λ _. i)

  reconnect_nat-Inv :
      (sender : Address) (s : Proxy) → Inv Q s → Inv Q (reconnect_nat env args main sender s)
  unfolding reconnect_nat
  reconnect_nat-Inv sender s i =
      if_elim (Inv Q) (str_eq (env.host_text sender) args.nat_server_ip)
        (λ _. Inv-log Q s _ (λ p. refl) ((i.lives main qm), i.safe) i) (λ _. i)

  on_disconnection-Inv :
      (packet : Packet) (s : Proxy) → Inv Q s → Inv Q (on_disconnection env args main packet s)
  unfolding on_disconnection
  on_disconnection-Inv packet s i =
      reconnect_nat-Inv _ _ (reconnect_coordinator-Inv _ _ (sweep_clients-Inv Q _ s i))

  on_lost-Inv : (packet : Packet) (s : Proxy) → Inv Q s → Inv Q (on_lost env args main packet s)
  unfolding on_lost
  on_lost-Inv packet s i =
      reconnect_nat-Inv _ _ (reconnect_coordinator-Inv _ _ (sweep_clients-Inv Q _ s i))

  on_accepted-Inv :
      (packet : Packet) (s : Proxy) → Inv Q s → Inv Q (on_accepted env args main packet s)
  unfolding on_accepted send_miniworld_message_guid
  on_accepted-Inv packet s i =
      if_elim (Inv Q)
        (not (is_empty args.coordinator_ip)
          && str_eq (env.host_text packet.system_address) args.coordinator_ip)
        (λ _.
          Inv-log Q (record s { coordinator_address = packet.system_address }) _ (λ p. refl)
            ((i.lives main qm), ((i.lives main qm), i.safe))
            (Inv-coordinator Q packet.system_address s i))
        (λ _. i)

  on_punched-Inv :
      (packet : Packet) (s : Proxy) → Inv Q s → Inv Q (on_punched env args main packet s)
  unfolding on_punched
  on_punched-Inv packet s i =
      update_found-Inv env Q _ _ s _ (update_client_state-IsQuiet env punch_connected) refl i

  on_sub-Inv :
      (sub : Sub) (packet : Packet) (s : Proxy)
      → Inv Q s
      → Inv Q (on_sub env args main sub packet s)
  unfolding on_sub
  on_sub-Inv registers_client packet s i =
      handle_client_register-Inv env fresh args main Q qm packet s i
  on_sub-Inv registers_host packet s i =
      handle_host_register-Inv env fresh args main Q qm packet s i
  on_sub-Inv pings packet s i = handle_ping_message-Inv env fresh args main Q qm packet s i
  on_sub-Inv disconnects packet s i =
      handle_disconnect_message-Inv env fresh args main Q qm packet s i
  on_sub-Inv relays packet s i = handle_proxy_data-Inv env args main Q qm packet s i
  on_sub-Inv goes_online packet s i = handle_client_online-Inv env fresh args main Q qm packet s i
  on_sub-Inv ignored packet s i = i

  on_kind-Inv :
      (kind : Kind) (packet : Packet) (s : Proxy)
      → Inv Q s
      → Inv Q (on_kind env args main kind packet s)
  unfolding on_kind on_general
  on_kind-Inv incoming packet s i = on_incoming-Inv packet s i
  on_kind-Inv disconnection packet s i = on_disconnection-Inv packet s i
  on_kind-Inv lost packet s i = on_lost-Inv packet s i
  on_kind-Inv accepted packet s i = on_accepted-Inv packet s i
  on_kind-Inv punched packet s i = on_punched-Inv packet s i
  on_kind-Inv logged packet s i = i
  on_kind-Inv general packet s i =
      if_elim (Inv Q) (ltb packet.length 2) (λ _. i) (λ _. on_sub-Inv _ packet s i)
  on_kind-Inv other packet s i = forward-Inv env args main Q qm packet s i

  -- From a state with the invariant, whatever packet the main peer receives, its handling calls no
  -- instance that does not exist, and each client's child peer exists afterwards and is shared
  -- with nobody.
  pub handle_packet-Inv :
      (packet : Packet) (s : Proxy) → Inv Q s → Inv Q (handle_packet env args main packet s)
  unfolding handle_packet
  handle_packet-Inv packet s i = on_kind-Inv _ packet s i
