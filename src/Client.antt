-- ===== src/Client.antt =====
-- The state of one client: raknet_proxy.cpp, ConnectionState, ClientContext and CheckTimeout.
-- Counters are `uint64_t` and `uint32_t` with their wrap-around.
use raknet_proxy.Base.{ℕ, ◌+◌, ◌%◌, ◌^◌, Bool, ◌&&◌, Option, none, ltb, ◌==◌}

-- A `RakPeerInterface*` that is not null.
abbrev pub Peer : Type 0
Peer = ℕ

-- A `SystemAddress`. Addresses are compared and handed on here, and never looked into: the number
-- stands for the address, and `==` on addresses is equality of the numbers.
abbrev pub Address : Type 0
Address = ℕ

pub data ConnectionState : Type 0 where
  disconnected : ConnectionState
  punch_connecting : ConnectionState
  punch_connected : ConnectionState
  host_connecting : ConnectionState
  proxy_connecting : ConnectionState
  proxy_handshake : ConnectionState
  connected : ConnectionState

-- The value of the enumerator.
abbrev pub state_code : ConnectionState → ℕ
state_code disconnected = 0
state_code punch_connecting = 1
state_code punch_connected = 2
state_code host_connecting = 3
state_code proxy_connecting = 4
state_code proxy_handshake = 5
state_code connected = 6

abbrev pub same_state : ConnectionState → ConnectionState → Bool
same_state a b = state_code a == state_code b

pub record ClientContext : Type 0 where
  pub child_peer : Option Peer
  pub client_guid : ℕ
  pub uin : ℕ
  pub client_address : Address
  pub target_address : Address
  pub state : ConnectionState
  pub state_start_time : ℕ
  pub host_connect_timeout : ℕ
  pub bytes_sent : ℕ
  pub bytes_received : ℕ
  pub packets_sent : ℕ
  pub packets_received : ℕ

-- The constructor `ClientContext()`; the two addresses and the GUID, which RakNet's own
-- constructors fill, are arguments.
abbrev pub new_context : ℕ → Address → Address → ClientContext
new_context guid client target = record {
  child_peer = none;
  client_guid = guid;
  uin = 0;
  client_address = client;
  target_address = target;
  state = disconnected;
  state_start_time = 0;
  host_connect_timeout = 0;
  bytes_sent = 0;
  bytes_received = 0;
  packets_sent = 0;
  packets_received = 0;
}

-- CheckTimeout
unfoldable pub check_timeout : ClientContext → ℕ → Bool
check_timeout c now =
    same_state c.state host_connecting
    && (ltb 0 c.host_connect_timeout && ltb c.host_connect_timeout now)

-- `ctx.bytesSent += n; ctx.packetsSent++`
abbrev pub count_sent : ℕ → ClientContext → ClientContext
count_sent n c = record c {
  bytes_sent = (c.bytes_sent + n) % 2 ^ 64;
  packets_sent = (c.packets_sent + 1) % 2 ^ 32;
}

-- `ctx.bytesReceived += n; ctx.packetsReceived++`
abbrev pub count_received : ℕ → ClientContext → ClientContext
count_received n c = record c {
  bytes_received = (c.bytes_received + n) % 2 ^ 64;
  packets_received = (c.packets_received + 1) % 2 ^ 32;
}
