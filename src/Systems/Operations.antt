-- ===== src/Systems/Operations.antt =====
-- The searches of patch/RakPeer.cpp for a remote system, and the operations of the network thread
-- that take, move and stop one.
use raknet_proxy.Base.{ℕ, Bool, true, false, not, ◌&&◌, [], Option, none, some, if◌then◌else◌}
use raknet_proxy.Systems.{
  RakNet, ConnectMode, no_action, Address, Guid, Peers, same_address, same_guid, set, first_where,
  scan_address, get_remote_system_index, reference, add_to_active, remove_from_active,
}

module _ (net : RakNet) where
  open net use {unassigned, unassigned_guid}

  -- GetRemoteSystemFromSystemAddress
  unfoldable pub get_remote_system_from_address : Peers → Address → Bool → Bool → Option ℕ
  get_remote_system_from_address p a from_network_thread only_active =
      if same_address a unassigned
      then none
      else if from_network_thread
      then elim (get_remote_system_index net p a) [
        | none ↦ none
        | some i ↦
            if not only_active then some i else if (p.systems i).is_active then some i else none
      ]
      else scan_address p.systems a only_active p.maximum 0 none

  -- GetRemoteSystemFromGUID
  unfoldable pub get_remote_system_from_guid : Peers → Guid → Bool → Option ℕ
  get_remote_system_from_guid p g only_active =
      if same_guid g unassigned_guid
      then none
      else first_where
          (λ i.
            same_guid (p.systems i).guid g
            && (if only_active then (p.systems i).is_active else true))
          p.maximum 0

  -- GetRemoteSystem with an AddressOrGUID
  unfoldable pub get_remote_system : Peers → Address → Guid → Bool → Bool → Option ℕ
  get_remote_system p a g from_network_thread only_active =
      if not (same_guid g unassigned_guid)
      then get_remote_system_from_guid p g only_active
      else get_remote_system_from_address p a from_network_thread only_active

  -- The part of Startup that makes the three lists.
  unfoldable pub start_peers : ℕ → Peers
  start_peers count = record {
    systems = λ i. record {
      address = unassigned;
      guid = unassigned_guid;
      is_active = false;
      connect_mode = no_action;
      we_initiated = false;
    };
    maximum = count;
    lookup = λ k. [];
    pool = 0;
    active = [];
    ended = false;
  }

  -- The part of AssignSystemAddressToRemoteSystemList that takes the first inactive system. What it
  -- sets beside these fields the lookup does not read.
  unfoldable pub take_system : Peers → Address → Guid → ConnectMode → Option (ℕ × Peers)
  take_system p a g mode = elim (first_where (λ i. not (p.systems i).is_active) p.maximum 0) [
    | none ↦ none
    | some i ↦
        let q = reference net p a i in
        let taken = record (q.systems i) {
          guid = g;
          is_active = true;
          connect_mode = mode;
          we_initiated = false;
        } in
        some (i, add_to_active i (record q { systems = set i taken q.systems }))
  ]

  -- The part of CloseConnectionInternal that stops a connection at once.
  unfoldable pub stop_system : Peers → Address → Peers
  stop_system p a = elim (get_remote_system_index net p a) [
    | none ↦ p
    | some i ↦
        if (p.systems i).is_active
        then (let q = remove_from_active a p in
            record q {
              systems =
                  set i (record (q.systems i) { is_active = false; guid = unassigned_guid })
                    q.systems;
            })
        else p
  ]

  -- BCS_CHANGE_SYSTEM_ADDRESS of RunUpdateCycle; none is a system whose address the lookup does
  -- not find, where the code indexes with (unsigned)-1.
  unfoldable pub change_address : Peers → Guid → Address → Option Peers
  change_address p g a = elim (get_remote_system_from_guid p g true) [
    | none ↦ some p
    | some j ↦ elim (get_remote_system_index net p (p.systems j).address) [
      | none ↦ none
      | some i ↦ some (reference net p a i)
    ]
  ]
