-- ===== src/Requests.antt =====
-- The attempts to connect in patch/RakPeer.cpp: requestedConnectionQueue, and what asks for the
-- state of a connection. Parameters are the names that resolve to an address, with the IP version of
-- a socket or without, the index for a
-- user's socket index, socketList, and FixForIPVersion with the address of a socket. Security is
-- off, as LIBCAT_SECURITY is. The length of a password is not negative.
pub mod Loop
pub mod Pending
pub mod Queue
pub mod Unique
pub mod Ending
pub mod Refused
use raknet_proxy.Base.{
  ℕ, Bool, true, false, not, ◌&&◌, ◌||◌, List, [], ◌∷◌, ◌++◌, Option, none, some, if◌then◌else◌,
  ltb, leb, take,
}
use raknet_proxy.Systems.{
  RakNet, Address, Guid, Peers, ConnectMode, no_action, disconnect_asap, disconnect_asap_silently,
  disconnect_on_no_ack, requested_connection, handling_connection_request, unverified_sender,
  fully_connected, same_address,
}
use raknet_proxy.Systems.Operations.{get_remote_system_from_address}
use raknet_proxy.Systems.Guids.{get_index_from_system_address, get_index_from_guid}

pub record Resolver : Type 0 where
  pub resolve : Option ℕ → List ℕ → ℕ → Option Address
  pub socket_of_user : ℕ → ℕ
  pub socket_at : ℕ → ℕ
  pub fix_for_ip_version : ℕ → Address → Address

-- A RequestedConnectionStruct.
pub record Request : Type 0 where
  pub address : Address
  pub next_request_time : ℕ
  pub requests_made : ℕ
  pub password : List ℕ
  pub socket_index : ℕ
  pub socket : Option ℕ
  pub extra : ℕ
  pub attempt_count : ℕ
  pub time_between : ℕ
  pub timeout_time : ℕ

-- The fields of RakPeer, with the number of sockets. `failed` are the addresses of the packets
-- ID_CONNECTION_ATTEMPT_FAILED.
pub record Dialer : Type 0 where
  pub peers : Peers
  pub queue : List Request
  pub sockets : ℕ
  pub failed : List Address

pub data AttemptResult : Type 0 where
  attempt_started : AttemptResult
  invalid_parameter : AttemptResult
  cannot_resolve : AttemptResult
  already_connected : AttemptResult
  already_in_progress : AttemptResult

pub data LinkState : Type 0 where
  pending : LinkState
  connecting : LinkState
  connected : LinkState
  disconnecting : LinkState
  silently_disconnecting : LinkState
  disconnected : LinkState
  not_connected : LinkState

-- The parameters of Connect.
pub record Plan : Type 0 where
  pub host : Option (List ℕ)
  pub port : ℕ
  pub password : Option (List ℕ)
  pub password_length : ℕ
  pub socket_index : ℕ
  pub attempt_count : ℕ
  pub time_between : ℕ
  pub timeout_time : ℕ

-- The loops that look for an address in the queue.
unfoldable pub is_pending : Address → List Request → Bool
is_pending a [] = false
is_pending a (r ∷ rs) = same_address r.address a || is_pending a rs

-- The password that is copied.
unfoldable pub copied_password : Option (List ℕ) → ℕ → List ℕ
copied_password none n = []
copied_password (some d) n = take (if ltb 255 n then 255 else n) d

-- The loop of CancelConnectionAttempt.
unfoldable pub remove_pending : Address → List Request → List Request
remove_pending a [] = []
remove_pending a (r ∷ rs) = if same_address r.address a then rs else r ∷ remove_pending a rs

-- CancelConnectionAttempt
unfoldable pub cancel_connection_attempt : Address → Dialer → Dialer
cancel_connection_attempt a d = record d { queue = remove_pending a d.queue }

-- The state for a ConnectMode.
unfoldable pub state_of : ConnectMode → LinkState
state_of no_action = not_connected
state_of disconnect_asap = disconnecting
state_of disconnect_asap_silently = silently_disconnecting
state_of disconnect_on_no_ack = disconnecting
state_of requested_connection = connecting
state_of handling_connection_request = connecting
state_of unverified_sender = connecting
state_of fully_connected = connected

module _ (net : RakNet) (res : Resolver) where
  -- The struct that SendConnectionRequest fills, at a time.
  unfoldable pub new_request : Plan → ℕ → Option ℕ → Address → ℕ → Request
  new_request plan index socket a now = record {
    address = a;
    next_request_time = now;
    requests_made = 0;
    password = copied_password plan.password plan.password_length;
    socket_index = index;
    socket = socket;
    extra = 0;
    attempt_count = plan.attempt_count;
    time_between = plan.time_between;
    timeout_time = plan.timeout_time;
  }

  -- What both forms of SendConnectionRequest do with the address.
  unfoldable pub request_connection :
      Plan → ℕ → Option ℕ → Address → ℕ → Dialer → AttemptResult × Dialer
  request_connection plan index socket a now d =
      elim (get_remote_system_from_address net d.peers a false true) [
        | some i ↦ (already_connected, d)
        | none ↦ if is_pending a d.queue then (already_in_progress, d) else (
          attempt_started,
          record d { queue = d.queue ++ new_request plan index socket a now ∷ [] },
        )
      ]

  -- SendConnectionRequest without a socket, which refuses a name that does not resolve.
  unfoldable pub send_connection_request : Plan → List ℕ → ℕ → ℕ → Dialer → AttemptResult × Dialer
  send_connection_request plan host index now d =
      elim (res.resolve (some (res.socket_at index)) host plan.port) [
        | none ↦ (cannot_resolve, d)
        | some a ↦ request_connection plan index none a now d
      ]

  -- SendConnectionRequest with a socket, where the address then stays unassigned.
  unfoldable pub send_socket_request : Plan → List ℕ → ℕ → ℕ → Dialer → AttemptResult × Dialer
  send_socket_request plan host socket now d =
      request_connection plan 0 (some socket)
        (elim (res.resolve none host plan.port) [ none ↦ net.unassigned | some a ↦ a ]) now d

  -- Connect
  unfoldable pub connect : Plan → ℕ → Dialer → AttemptResult × Dialer
  connect plan now d = elim plan.host [
    | none ↦ (invalid_parameter, d)
    | some host ↦
        if d.peers.ended || leb d.sockets plan.socket_index
        then (invalid_parameter, d)
        else send_connection_request plan host (res.socket_of_user plan.socket_index) now d
  ]

  -- ConnectWithSocket; none is a null pointer.
  unfoldable pub connect_with_socket : Plan → Option ℕ → ℕ → Dialer → AttemptResult × Dialer
  connect_with_socket plan none now d = (invalid_parameter, d)
  connect_with_socket plan (some socket) now d = elim plan.host [
    | none ↦ (invalid_parameter, d)
    | some host ↦
        if d.peers.ended then (invalid_parameter, d) else send_socket_request plan host socket now d
  ]

  -- GetConnectionState
  unfoldable pub index_of_target : Address → Guid → Peers → Option ℕ
  index_of_target a g p =
      if not (same_address a net.unassigned)
      then get_index_from_system_address net p a false
      else get_index_from_guid net p g

  unfoldable pub get_connection_state : Address → Guid → Dialer → LinkState
  get_connection_state a g d =
      if not (same_address a net.unassigned) && is_pending a d.queue
      then pending
      else elim (index_of_target a g d.peers) [
        | none ↦ not_connected
        | some i ↦
            if not (d.peers.systems i).is_active
            then disconnected
            else state_of (d.peers.systems i).connect_mode
      ]
