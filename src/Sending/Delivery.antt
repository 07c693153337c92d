-- ===== src/Sending/Delivery.antt =====
-- The network thread of patch/RakPeer.cpp: the commands of bufferedCommands, and SendImmediate.
-- `sent` are the calls of ReliabilityLayer::Send in order, without the MTU size of the system, and
-- `freed` the commands whose data has been freed. A cycle asks for the time once.
use raknet_proxy.Base.{
  ℕ, zero, suc, Bool, true, false, not, ◌&&◌, ◌||◌, List, [], ◌∷◌, ◌++◌, Option, none, some, ◌==◌,
  if◌then◌else◌,
}
use raknet_proxy.Systems.{
  RakNet, Peers, ConnectMode, System, same_address, same_guid, set, no_action, disconnect_asap,
  disconnect_asap_silently, disconnect_on_no_ack, requested_connection, handling_connection_request,
  unverified_sender, fully_connected,
}
use raknet_proxy.Systems.Operations.{get_remote_system}
use raknet_proxy.Systems.Guids.{get_index_from_system_address, get_system_index_from_guid}
use raknet_proxy.Sending.{Target, Constants, Command, Sender}

-- A call of ReliabilityLayer::Send for the system with an index; `copies` is makeDataCopy.
pub record Delivery : Type 0 where
  pub system : ℕ
  pub command : Command
  pub copies : Bool
  pub time : ℕ

-- A SocketQueryOutput: all of socketList, the socket of a system, or none.
pub data Sockets : Type 0 where
  all_sockets : Sockets
  socket_of : ℕ → Sockets
  no_socket : Sockets

pub record Network : Type 0 where
  pub sender : Sender
  pub sent : List Delivery
  pub last_reliable_send : ℕ → ℕ
  pub freed : List Command
  pub queries : List Sockets

abbrev pub with_peers : Peers → Network → Network
with_peers p n = record n { sender = record n.sender { peers = p } }

abbrev pub is_disconnecting : ConnectMode → Bool
is_disconnecting no_action = false
is_disconnecting disconnect_asap = true
is_disconnecting disconnect_asap_silently = true
is_disconnecting disconnect_on_no_ack = true
is_disconnecting requested_connection = false
is_disconnecting handling_connection_request = false
is_disconnecting unverified_sender = false
is_disconnecting fully_connected = false

abbrev pub is_no_action : ConnectMode → Bool
is_no_action no_action = true
is_no_action disconnect_asap = false
is_no_action disconnect_asap_silently = false
is_no_action disconnect_on_no_ack = false
is_no_action requested_connection = false
is_no_action handling_connection_request = false
is_no_action unverified_sender = false
is_no_action fully_connected = false

abbrev pub is_last : List ℕ → Bool
is_last [] = true
is_last (i ∷ is) = false

-- `remoteSystemIndex!=(unsigned int) -1 && idx==remoteSystemIndex`
abbrev pub is_excluded : Option ℕ → ℕ → Bool
is_excluded none i = false
is_excluded (some j) i = i == j

-- The list of one recipient.
unfoldable pub unicast_list : Peers → Option ℕ → List ℕ
unicast_list p none = []
unicast_list p (some i) =
    if (p.systems i).is_active && not (is_disconnecting (p.systems i).connect_mode)
    then i ∷ []
    else []

module _ (net : RakNet) (k : Constants) where
  -- The loop over remoteSystemList for a broadcast.
  unfoldable pub broadcast_list : (ℕ → System) → Option ℕ → ℕ → ℕ → List ℕ
  broadcast_list systems excluded zero i = []
  broadcast_list systems excluded (suc n) i =
      let rest = broadcast_list systems excluded n (suc i) in
      if is_excluded excluded i
      then rest
      else if (systems i).is_active && not (same_address (systems i).address net.unassigned)
      then i ∷ rest
      else rest

  -- `remoteSystemIndex`, with the lists after the lookup.
  unfoldable pub target_index : Target → Network → Option ℕ × Peers
  target_index t n =
      let p = n.sender.peers in
      if not (same_address t.address net.unassigned)
      then (get_index_from_system_address net p t.address true, p)
      else if not (same_guid t.guid net.unassigned_guid)
      then get_system_index_from_guid net n.sender.my_guid t.guid p
      else (none, p)

  unfoldable pub is_reliable : ℕ → Bool
  is_reliable r =
      r == k.reliable
      || (r == k.reliable_ordered
          || (r == k.reliable_sequenced
              || (r == k.reliable_with_ack_receipt || r == k.reliable_ordered_with_ack_receipt)))

  -- One round of the loop over the recipients: the call, and the time of a reliable message.
  unfoldable pub send_to : Command → Bool → ℕ → ℕ → Network → Network
  send_to c use_data time i n = record n {
    sent = n.sent ++ record { system = i; command = c; copies = not use_data; time = time } ∷ [];
    last_reliable_send =
        if is_reliable c.reliability
        then set i (k.to_milliseconds time) n.last_reliable_send
        else n.last_reliable_send;
  }

  -- The loop over the recipients, with callerDataAllocationUsed.
  unfoldable pub deliver : Command → Bool → ℕ → List ℕ → Bool → Network → Bool × Network
  deliver c use_allocation time [] used n = (used, n)
  deliver c use_allocation time (i ∷ is) used n =
      let use_data = use_allocation && (not used && is_last is) in
      deliver c use_allocation time is (used || use_data) (send_to c use_data time i n)

  -- The list of the recipients.
  unfoldable pub recipients : Command → Option ℕ → Peers → List ℕ
  recipients c target p =
      if not c.broadcast then unicast_list p target else broadcast_list p.systems target p.maximum 0

  -- SendImmediate
  unfoldable pub send_immediate : Command → Bool → ℕ → Network → Bool × Network
  send_immediate c use_allocation time n =
      let (target, p) = target_index c.target n in
      deliver c use_allocation time (recipients c target p) false (with_peers p n)

  -- `connectMode` of a system
  unfoldable pub set_connect_mode : ℕ → ConnectMode → Network → Network
  set_connect_mode i mode n =
      let p = n.sender.peers in
      with_peers
        (record p { systems = set i (record (p.systems i) { connect_mode = mode }) p.systems }) n

  -- BCS_SEND of RunUpdateCycle: the data, and then the new state of the connection.
  unfoldable pub free_unused : Command → Bool → Network → Network
  free_unused c used n = if not used then record n { freed = n.freed ++ c ∷ [] } else n

  unfoldable pub change_mode : Command → Network → Network
  change_mode c n =
      if is_no_action c.mode
      then n
      else elim (get_remote_system net n.sender.peers c.target.address c.target.guid true true) [
        | none ↦ n
        | some i ↦ set_connect_mode i c.mode n
      ]

  unfoldable pub run_send : Command → ℕ → Network → Network
  run_send c time n =
      let (used, n1) = send_immediate c true time n in change_mode c (free_unused c used n1)
