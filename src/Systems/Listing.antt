-- ===== src/Systems/Listing.antt =====
-- What patch/RakPeer.cpp tells the user of the remote systems: GetSystemList and what uses it.
use raknet_proxy.Base.{
  ℕ, zero, suc, ◌+◌, ◌%◌, ◌^◌, Bool, true, false, not, ◌&&◌, List, [], ◌∷◌, Option, none, some,
  if◌then◌else◌, ltb, length,
}
use raknet_proxy.Systems.{
  RakNet, Address, Guid, System, Peers, ConnectMode, no_action, disconnect_asap,
  disconnect_asap_silently, disconnect_on_no_ack, requested_connection, handling_connection_request,
  unverified_sender, fully_connected,
}

-- `connectMode==RemoteSystemStruct::CONNECTED`
abbrev pub is_connected : ConnectMode → Bool
is_connected no_action = false
is_connected disconnect_asap = false
is_connected disconnect_asap_silently = false
is_connected disconnect_on_no_ack = false
is_connected requested_connection = false
is_connected handling_connection_request = false
is_connected unverified_sender = false
is_connected fully_connected = true

-- The loop of GetSystemList over activeSystemList.
unfoldable pub system_list : (ℕ → System) → List ℕ → List (Address × Guid)
system_list systems [] = []
system_list systems (i ∷ is) =
    let rest = system_list systems is in
    if (systems i).is_active && is_connected (systems i).connect_mode
    then ((systems i).address, (systems i).guid) ∷ rest
    else rest

-- GetSystemList, with an address and the GUID at its index as a pair.
unfoldable pub get_system_list : Peers → List (Address × Guid)
get_system_list p = if p.ended then [] else system_list p.systems p.active

-- NumberOfConnections
unfoldable pub number_of_connections : Peers → ℕ
number_of_connections p = length (get_system_list p) % 2 ^ 16

-- The loop of GetConnectionList that fills an array of some size, with the number of elements
-- that it has written.
unfoldable pub fill : ℕ → List (Address × Guid) → List Address → List Address × ℕ
fill zero found array = (array, 0)
fill (suc n) [] array = (array, 0)
fill (suc n) (a ∷ found) [] = ([], 0)
fill (suc n) (a ∷ found) (b ∷ array) =
    let (rest, count) = fill n found array in (a.0 ∷ rest, suc count)

-- GetConnectionList with an array of `size` elements or a null pointer, and numberOfSystems not
-- null; the result, the array and numberOfSystems.
unfoldable pub get_connection_list :
    Option (List Address) → ℕ → Peers → Bool × Option (List Address) × ℕ
get_connection_list array size p = if p.ended then (false, array, 0) else elim array [
  | none ↦ (true, none, number_of_connections p)
  | some elements ↦
      let (filled, count) = fill size (get_system_list p) elements in (true, some filled, count)
]

-- The loop of GetNumberOfRemoteInitiatedConnections.
unfoldable pub count_incoming : (ℕ → System) → List ℕ → ℕ
count_incoming systems [] = 0
count_incoming systems (i ∷ is) =
    let rest = count_incoming systems is in
    if (systems i).is_active
      && (is_connected (systems i).connect_mode && not (systems i).we_initiated)
    then rest + 1
    else rest

-- GetNumberOfRemoteInitiatedConnections
unfoldable pub get_number_of_remote_initiated_connections : Peers → ℕ
get_number_of_remote_initiated_connections p =
    if p.ended then 0 else count_incoming p.systems p.active

-- AllowIncomingConnections, with maximumIncomingConnections.
unfoldable pub allow_incoming_connections : ℕ → Peers → Bool
allow_incoming_connections maximum p = ltb (get_number_of_remote_initiated_connections p) maximum

module _ (net : RakNet) where
  -- GetSystemAddressFromIndex
  unfoldable pub get_system_address_from_index : ℕ → Peers → Address
  get_system_address_from_index i p =
      if ltb i p.maximum
      then (if (p.systems i).is_active && is_connected (p.systems i).connect_mode
          then (p.systems i).address
          else net.unassigned)
      else net.unassigned

  -- GetGUIDFromIndex
  unfoldable pub get_guid_from_index : ℕ → Peers → Guid
  get_guid_from_index i p =
      if ltb i p.maximum
      then (if (p.systems i).is_active && is_connected (p.systems i).connect_mode
          then (p.systems i).guid
          else net.unassigned_guid)
      else net.unassigned_guid
