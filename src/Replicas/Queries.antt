-- ===== src/Replicas/Queries.antt =====
-- Who constructs and who serializes a replica: patch/ReplicaManager3.cpp, the functions Query… of
-- Replica3. `mine` is the GUID of this system, as rakPeerInterface gives it.
use raknet_proxy.Base.{
  ℕ, ◌≡◌, refl, ◌≢◌, ◌↔◌, ◌⊎◌, inl, inr, Bool, true, false, not, ◌&&◌, ◌==◌, if◌then◌else◌,
  Bool-cases, arith,
}

-- RM3ConstructionState
pub data ConstructionState : Type 0 where
  send_construction : ConstructionState
  already_exists_remotely : ConstructionState
  already_exists_remotely_do_not_construct : ConstructionState
  never_construct : ConstructionState

-- RM3QuerySerializationResult
pub data SerializationResult : Type 0 where
  call_serialize : SerializationResult
  do_not_call_serialize : SerializationResult
  never_call_serialize : SerializationResult

-- RM3ActionOnPopConnection
pub data ActionOnPop : Type 0 where
  delete_replica : ActionOnPop
  delete_replica_and_broadcast_destruction : ActionOnPop

-- Replica3P2PMode
pub data P2pMode : Type 0 where
  single_owner : P2pMode
  multi_owner_currently_authoritative : P2pMode
  multi_owner_not_currently_authoritative : P2pMode
  static_object_currently_authoritative : P2pMode
  static_object_not_currently_authoritative : P2pMode

pub query_construction_client : ℕ → ℕ → Bool → ConstructionState
query_construction_client creator mine is_server =
    if creator == mine
    then send_construction
    else if is_server
    then send_construction
    else never_construct

-- QueryRemoteConstruction_ClientConstruction
abbrev pub query_remote_construction_client : Bool
query_remote_construction_client = true

pub query_construction_server : Bool → ConstructionState
query_construction_server is_server = if is_server then send_construction else never_construct

pub query_remote_construction_server : Bool → Bool
query_remote_construction_server is_server = if is_server then false else true

-- QueryRemoteConstruction_PeerToPeer
abbrev pub query_remote_construction_peer : Bool
query_remote_construction_peer = true

pub query_construction_peer : ℕ → ℕ → P2pMode → ConstructionState
query_construction_peer creator mine single_owner =
    if creator == mine then send_construction else never_construct
query_construction_peer creator mine multi_owner_currently_authoritative = send_construction
query_construction_peer creator mine static_object_currently_authoritative = already_exists_remotely
query_construction_peer creator mine static_object_not_currently_authoritative =
    already_exists_remotely_do_not_construct
query_construction_peer creator mine multi_owner_not_currently_authoritative =
    already_exists_remotely

pub query_serialization_client : ℕ → ℕ → ℕ → Bool → SerializationResult
query_serialization_client creator mine destination is_server =
    if creator == mine
    then call_serialize
    else if is_server && not (destination == creator)
    then call_serialize
    else never_call_serialize

pub query_serialization_server : Bool → SerializationResult
query_serialization_server is_server = if is_server then call_serialize else never_call_serialize

pub query_serialization_peer : ℕ → ℕ → P2pMode → SerializationResult
query_serialization_peer creator mine single_owner =
    if creator == mine then call_serialize else never_call_serialize
query_serialization_peer creator mine multi_owner_currently_authoritative = call_serialize
query_serialization_peer creator mine static_object_currently_authoritative = call_serialize
query_serialization_peer creator mine static_object_not_currently_authoritative =
    do_not_call_serialize
query_serialization_peer creator mine multi_owner_not_currently_authoritative =
    do_not_call_serialize

-- QueryActionOnPopConnection_Client, …_Server and …_PeerToPeer
abbrev pub query_action_on_pop_client : ActionOnPop
query_action_on_pop_client = delete_replica

abbrev pub query_action_on_pop_server : ActionOnPop
query_action_on_pop_server = delete_replica_and_broadcast_destruction

abbrev pub query_action_on_pop_peer : ActionOnPop
query_action_on_pop_peer = delete_replica

-- Two systems, one of them the server: the server sends each replica's construction and its data
-- and accepts no construction from outside, and the client does the opposite.
pub query_server_lem :
    (is_server : Bool)
    → ((query_construction_server is_server ≡ send_construction) ↔ (is_server ≡ true))
      × ((query_serialization_server is_server ≡ call_serialize) ↔ (is_server ≡ true))
      × (query_remote_construction_server is_server ≡ not is_server)
unfolding query_construction_server query_remote_construction_server query_serialization_server
query_server_lem true = ((λ e. refl, λ e. refl), (λ e. refl, λ e. refl), refl)
query_server_lem false = ((λ e. cc, λ e. cc), (λ e. cc, λ e. cc), refl)

-- Data of a replica that clients create flows from its creator to all and from the server to all
-- others: a system sends it to a destination exactly if it created it, or is the server and the
-- destination did not.
pub query_serialization_client_iff :
    (creator mine destination : ℕ) (is_server : Bool)
    → (query_serialization_client creator mine destination is_server ≡ call_serialize)
      ↔ ((mine ≡ creator) ⊎ ((is_server ≡ true) × (destination ≢ creator)))
unfolding query_serialization_client
query_serialization_client_iff creator mine destination is_server = (
  λ e. elim (Bool-cases (creator == mine)) [
    | inl hit ↦ inl (ground (arith, hit))
    | inr miss ↦ inr (ground (arith, e, miss), λ same. ground (arith, e, miss, same))
  ],
  λ h. elim h [ inl e ↦ ground (arith, e) | inr (s, ne) ↦ ground (arith, s, ne) ],
)

never_iff :
    (creator mine : ℕ) (mode : P2pMode)
    → (query_construction_peer creator mine mode ≡ never_construct)
      ↔ (query_serialization_peer creator mine mode ≡ never_call_serialize)
unfolding query_construction_peer query_serialization_peer
never_iff creator mine single_owner = (λ e. ground arith, λ e. ground arith)
never_iff creator mine multi_owner_currently_authoritative = (λ e. cc, λ e. cc)
never_iff creator mine multi_owner_not_currently_authoritative = (λ e. cc, λ e. cc)
never_iff creator mine static_object_currently_authoritative = (λ e. cc, λ e. cc)
never_iff creator mine static_object_not_currently_authoritative = (λ e. cc, λ e. cc)

-- Between peers, a system never serializes a replica exactly if it never constructs it, and of an
-- object with a single owner at most one system sends data.
pub query_peer_lem :
    (creator mine other : ℕ) (mode : P2pMode)
    → ((query_construction_peer creator mine mode ≡ never_construct)
        ↔ (query_serialization_peer creator mine mode ≡ never_call_serialize))
      × (query_serialization_peer creator mine single_owner ≡ call_serialize
          → query_serialization_peer creator other single_owner ≡ call_serialize
          → mine ≡ other)
unfolding query_serialization_peer
query_peer_lem creator mine other mode = (never_iff creator mine mode, λ e f. ground arith)
