-- ===== src/Tests/Systems.antt =====
-- The remote systems of patch/RakPeer.cpp at concrete data: two systems, and addresses that hash to
-- the same chain.
use raknet_proxy.Base.{
  List, ltb, ◌&&◌, ◌+◌, ◌↔◌, ◌<◌, ℕ, ◌≡◌, refl, true, false, [], ◌∷◌, some, if◌then◌else◌, arith,
}
use raknet_proxy.Systems.{
  fully_connected, same_guid, RakNet, Address, Guid, Peers, find_entry, remove_entry, hash_index,
  get_remote_system_index, points_to, dereference, unlink, allocated, reference, first_where,
  same_address, remove_active, add_to_active, fill_with_last, last_index, drop_last,
}
use raknet_proxy.Systems.Listing.{
  is_connected, system_list, get_system_list, number_of_connections, get_connection_list,
  count_incoming, get_number_of_remote_initiated_connections, allow_incoming_connections,
  get_system_address_from_index, get_guid_from_index,
}
use raknet_proxy.Systems.Active.{count}
use raknet_proxy.Systems.Connected.{
  entries, get_system_list-Reach, IsFilled, get_connection_list-IsFilled,
}
use raknet_proxy.Systems.Operations.{start_peers, take_system, get_remote_system_from_address}
use raknet_proxy.Systems.Guids.{
  hinted, find_or_hint, get_system_index_from_guid, get_index_from_guid,
  get_system_address_from_guid, active_first,
}
use raknet_proxy.Systems.Hints.{HasUniqueGuids, get_system_index_from_guid-again}
use raknet_proxy.Systems.Dereference.{without, IsChained}
use raknet_proxy.Systems.Reference.{get_remote_system_index-reference}
use raknet_proxy.Systems.Invariant.{IsFree, start_peers-Inv}
use raknet_proxy.Systems.Threads.{Reach, started, taken, get_remote_system_from_address-Reach}

abbrev pub net : RakNet
net = record {
  unassigned = record { place = 0; system_index = 65535 };
  unassigned_guid = record { g = 0; system_index = 65535 };
  no_index = 65535;
  to_integer = λ a. a.place;
  to_integer-same = λ a b e. e;
}

-- The hash has 16 values here, so 3 and 19 share a chain.
abbrev pub near : Address
near = record { place = 3; system_index = 65535 }

abbrev pub far : Address
far = record { place = 19; system_index = 65535 }

abbrev guid : Guid
guid = record { g = 77; system_index = 65535 }

abbrev pub empty : Peers
empty = start_peers net 2

-- Two systems are taken, and the first one is stopped and its address moved to the second.
chains :
    let one = reference net empty near 0 in
    let two = reference net one far 1 in
    (two.lookup 3 ≡ 0 ∷ 1 ∷ [])
    × (two.pool ≡ 3)
    × (get_remote_system_index net two far ≡ some 1)
    × ((reference net two near 1).lookup 3 ≡ 1 ∷ [])
unfolding reference unlink points_to get_remote_system_index dereference allocated hash_index
    find_entry remove_entry start_peers
chains = (refl, refl, refl, refl)

actives :
    remove_active
      (λ i. record {
        address = record { place = i; system_index = 0 };
        guid = guid;
        is_active = true;
        connect_mode = fully_connected;
        we_initiated = false;
      })
      near
      (5 ∷ 3 ∷ 8 ∷ 9 ∷ [])
    ≡ 5 ∷ 9 ∷ 8 ∷ []
unfolding remove_active fill_with_last last_index drop_last
actives = refl

get_remote_system_index-reference_example :
    IsChained net (reference net empty near 0)
    × ((b : Address)
        → get_remote_system_index net (reference net empty near 0) b ≡ (
            if same_address near b
            then some 0
            else without 0 (get_remote_system_index net empty b)))
unfolding start_peers
get_remote_system_index-reference_example =
    get_remote_system_index-reference net empty near 0 (start_peers-Inv net 2).chained (omega arith)
      (λ e. ground arith)

empty-IsFree : (j : ℕ) → IsFree net empty near j
unfolding start_peers
empty-IsFree j k below live = cc

empty-taken :
    (q : Peers) × (take_system net empty near guid fully_connected ≡ some (0, q)) × Reach net q
unfolding take_system start_peers first_where
empty-taken =
    (_, refl, taken (started 2) near guid fully_connected 0 _ (λ e. ground arith) empty-IsFree refl)

get_remote_system_from_address-Reach_example :
    get_remote_system_from_address net empty-taken.0 near true true
    ≡ get_remote_system_from_address net empty-taken.0 near false true
get_remote_system_from_address-Reach_example =
    get_remote_system_from_address-Reach net empty-taken.0 empty-taken.2 near

-- Two systems with the GUIDs 1 and 2, and a GUID that remembers the wrong one.
abbrev pair : Peers
pair = record empty {
  systems = λ i. record {
    address = near;
    guid = record { g = i + 1; system_index = 65535 };
    is_active = true;
    connect_mode = fully_connected;
    we_initiated = false;
  };
}

abbrev second : Guid
second = record { g = 2; system_index = 0 }

lookups :
    ((get_system_index_from_guid net guid second pair).0 ≡ some 1)
    × (((get_system_index_from_guid net guid second pair).1.systems 1).guid.system_index ≡ 1)
    × (get_index_from_guid net pair second ≡ some 1)
    × ((get_system_address_from_guid net guid far second pair).0 ≡ near)
unfolding get_system_index_from_guid get_index_from_guid get_system_address_from_guid find_or_hint
    hinted active_first first_where start_peers
lookups = (refl, refl, refl, refl)

pair-HasUniqueGuids : HasUniqueGuids net pair
pair-HasUniqueGuids i j below_i below_j same placed = omega arith

get_system_index_from_guid-again_example :
    let r = get_system_index_from_guid net guid second pair in
    ((i : ℕ)
      → (r.0 ≡ some i) ↔ ((i < pair.maximum) × (same_guid (pair.systems i).guid second ≡ true)))
    × ((get_system_index_from_guid net guid (record second { system_index = 1 }) r.1).0 ≡ r.0)
get_system_index_from_guid-again_example =
    get_system_index_from_guid-again net guid second 1 pair pair-HasUniqueGuids (λ e. ground arith)
      (λ e. ground arith)

empty-taken-runs : empty-taken.0.ended ≡ false
unfolding empty-taken take_system start_peers first_where add_to_active reference dereference unlink
empty-taken-runs = refl

get_system_list-Reach_example :
    (is : List ℕ) × (get_system_list empty-taken.0 ≡ entries empty-taken.0 is)
    × ((j : ℕ)
        → count j is ≡ (
            if ltb j empty-taken.0.maximum
              && ((empty-taken.0.systems j).is_active
                  && is_connected (empty-taken.0.systems j).connect_mode)
            then 1
            else 0))
get_system_list-Reach_example =
    get_system_list-Reach net empty-taken.0 empty-taken.2 empty-taken-runs

-- Both systems are active, the second one first, and the array has room for one of them.
abbrev active_pair : Peers
active_pair = record pair { active = 1 ∷ 0 ∷ [] }

pair-listed :
    (get_system_list active_pair
      ≡ (near, record { g = 2; system_index = 65535 })
        ∷ (near, record { g = 1; system_index = 65535 })
        ∷ [])
    × (number_of_connections active_pair ≡ 2)
    × (get_number_of_remote_initiated_connections active_pair ≡ 2)
    × (allow_incoming_connections 2 active_pair ≡ false)
    × (get_system_address_from_index net 5 active_pair ≡ net.unassigned)
    × ((get_guid_from_index net 1 active_pair).g ≡ 2)
unfolding get_system_list system_list number_of_connections
    get_number_of_remote_initiated_connections count_incoming allow_incoming_connections
    get_system_address_from_index get_guid_from_index start_peers
pair-listed = (refl, refl, refl, refl, refl, refl)

pair-runs : active_pair.ended ≡ false
unfolding start_peers
pair-runs = refl

get_connection_list-IsFilled_example :
    (filled : List Address) × (count : ℕ) × (get_connection_list
        (some (far ∷ far ∷ []))
        1
        active_pair
      ≡ (true, some filled, count))
    × IsFilled 1 (get_system_list active_pair) (far ∷ far ∷ []) (filled, count)
get_connection_list-IsFilled_example =
    get_connection_list-IsFilled (far ∷ far ∷ []) 1 active_pair pair-runs (omega arith)
