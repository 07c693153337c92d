-- ===== src/Sending/Commands.antt =====
-- The closing of a connection in patch/RakPeer.cpp, and the loop of the network thread over
-- bufferedCommands. none as a result is a null pointer that the code dereferences, or a system that
-- is not found and whose index the code uses.
use raknet_proxy.Base.{
  ℕ, Bool, true, false, not, ◌&&◌, ◌||◌, List, [], ◌∷◌, ◌++◌, Option, none, some, if◌then◌else◌,
}
use raknet_proxy.Systems.{RakNet, Address, Guid, no_action, disconnect_asap, same_address}
use raknet_proxy.Systems.Operations.{
  get_remote_system, get_remote_system_from_address, stop_system, change_address,
}
use raknet_proxy.Systems.Guids.{get_system_address_from_guid}
use raknet_proxy.Sending.{
  Target, Constants, Options, Command, Buffered, Sender, send_command, close_command,
  change_command, socket_command, get_loopback_address, send_buffered,
}
use raknet_proxy.Sending.Delivery.{
  Network, all_sockets, socket_of, no_socket, with_peers, send_immediate, run_send,
  set_connect_mode,
}

module _ (net : RakNet) (k : Constants) where
  -- The notification to a system that its connection ends.
  abbrev pub notification : Address → ℕ → ℕ → Options
  notification a channel priority = record {
    priority = priority;
    reliability = k.reliable_ordered;
    channel = channel;
    target = k.to_target a;
    broadcast = false;
    force_receipt = 0;
  }

  abbrev pub notify_command : Address → ℕ → ℕ → Command
  notify_command a channel priority = record {
    bytes = k.disconnection_notification ∷ [];
    bits = 8;
    priority = priority;
    reliability = k.reliable_ordered;
    channel = channel;
    target = k.to_target a;
    broadcast = false;
    mode = no_action;
    receipt = 0;
  }

  -- NotifyAndFlagForShutdown, at a time.
  unfoldable pub notify_and_flag_for_shutdown :
      Address → Bool → ℕ → ℕ → ℕ → Network → Option Network
  notify_and_flag_for_shutdown a immediate channel priority time n =
      if immediate
      then (let n1 = (send_immediate net k (notify_command a channel priority) false time n).1 in
          elim (get_remote_system_from_address net n1.sender.peers a true true) [
            | none ↦ none
            | some i ↦ some (set_connect_mode net k i disconnect_asap n1)
          ])
      else some (record n {
        sender =
            send_buffered net k (k.disconnection_notification ∷ []) 8 disconnect_asap
              (notification a channel priority) 0 n.sender;
      })

  -- The target of CloseConnectionInternal, with the lists after the lookup.
  unfoldable pub close_target : Target → Bool → Network → Address × Network
  close_target t immediate n =
      let (a, p) =
        if not (same_address t.address net.unassigned)
        then (t.address, n.sender.peers)
        else get_system_address_from_guid net n.sender.my_guid (get_loopback_address net k n.sender)
            t.guid n.sender.peers in
      (
        if not (same_address a net.unassigned) && immediate then k.fix_for_ip_version a else a,
        with_peers p n,
      )

  -- CloseConnectionInternal
  unfoldable pub close_connection_internal :
      Target → Bool → Bool → ℕ → ℕ → ℕ → Network → Option Network
  close_connection_internal t notify immediate channel priority time n =
      if k.is_undefined t || n.sender.peers.ended
      then some n
      else (let (a, n1) = close_target t immediate n in
          if notify
          then notify_and_flag_for_shutdown a immediate channel priority time n1
          else if immediate
          then some (with_peers (stop_system net n1.sender.peers a) n1)
          else some (record n1 {
            sender = record n1.sender {
              commands = n1.sender.commands ++ close_command (k.to_target a) channel priority ∷ [];
            };
          }))

  -- ChangeSystemAddress
  unfoldable pub change_system_address : Guid → Address → Sender → Sender
  change_system_address g a s = record s { commands = s.commands ++ change_command g a ∷ [] }

  -- One command of the loop in RunUpdateCycle.
  unfoldable pub run_command : Buffered → ℕ → Network → Option Network
  run_command (send_command c) time n = some (run_send net k c time n)
  run_command (close_command t channel priority) time n =
      close_connection_internal t false true channel priority time n
  run_command (change_command g a) time n = elim (change_address net n.sender.peers g a) [
    | none ↦ none
    | some p ↦ some (with_peers p n)
  ]
  run_command (socket_command t) time n =
      if k.is_undefined t
      then some (record n { queries = n.queries ++ all_sockets ∷ [] })
      else elim (get_remote_system net n.sender.peers t.address t.guid true true) [
        | none ↦ some (record n { queries = n.queries ++ no_socket ∷ [] })
        | some i ↦ some (record n { queries = n.queries ++ socket_of i ∷ [] })
      ]

  -- The loop, with the commands that are in the queue when it begins.
  unfoldable pub run_commands : List Buffered → ℕ → Network → Option Network
  run_commands [] time n = some n
  run_commands (c ∷ cs) time n = elim (run_command c time n) [
    | none ↦ none
    | some n1 ↦ run_commands cs time n1
  ]

  -- The loop of RunUpdateCycle over bufferedCommands.
  unfoldable pub run_queue : ℕ → Network → Option Network
  run_queue time n =
      run_commands n.sender.commands time (record n { sender = record n.sender { commands = [] } })
