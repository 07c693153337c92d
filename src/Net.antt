-- ===== src/Net.antt =====
-- The boundary of the program. RakNet, miniupnpc and the system clock are not modelled: `Env`
-- gives their answers, as functions of the calls made so far, and a state keeps the history of
-- these calls, the newest first. Sending always uses HIGH_PRIORITY, RELIABLE_ORDERED, channel 0
-- and no broadcast, so a `send` names the peer, the bytes and the receiver only.
pub mod Live
use raknet_proxy.Base.{
  ℕ, ◌+◌, Bool, true, false, List, [], ◌∷◌, Option, none, some, String, ◌==◌, if◌then◌else◌,
}
use raknet_proxy.Client.{Peer, Address}
use raknet_proxy.Wire.{Memory, byte_at, message, guid_message, slice}

-- `RakNet::Packet`: `bytes` is the memory behind `data`, of which `length` bytes are the packet's.
pub record Packet : Type 0 where
  pub bytes : Memory
  pub length : ℕ
  pub system_address : Address
  pub guid : ℕ

-- MessageIdentifiers.h
pub record MessageIds : Type 0 where
  pub timestamp : ℕ
  pub new_incoming_connection : ℕ
  pub disconnection_notification : ℕ
  pub connection_lost : ℕ
  pub connection_request_accepted : ℕ
  pub connection_attempt_failed : ℕ
  pub no_free_incoming_connections : ℕ
  pub nat_punchthrough_succeeded : ℕ
  pub nat_punchthrough_failed : ℕ
  pub nat_target_not_connected : ℕ
  pub nat_target_unresponsive : ℕ
  pub nat_connection_to_target_lost : ℕ
  pub nat_already_in_progress : ℕ
  pub udp_proxy_general : ℕ

-- A call across the boundary. `created` and `time` carry the answer. The calls of miniupnpc
-- are those of Upnp.antt.
pub data Call : Type 0 where
  created : Option Peer → Call
  destroyed : Peer → Call
  set_my_guid : Peer → ℕ → Call
  set_maximum_incoming : Peer → ℕ → Call
  startup : Peer → ℕ → ℕ → Call
  attach_nat_client : Peer → Call
  connect : Peer → String → ℕ → Call
  send : Peer → List ℕ → Address → Call
  receive : Peer → Call
  deallocate_packet : Peer → Call
  get_my_guid : Peer → Call
  shutdown : Peer → ℕ → Call
  time : ℕ → Call
  sleep : ℕ → Call
  install_signal_handlers : Call

abbrev pub History : Type 0
History = List Call

pub record Env : Type 0 where
  pub ids : MessageIds
  -- sizeof(RakNet::Time), and the byte order of the machine.
  pub time_size : ℕ
  pub little_endian : Bool
  -- UNASSIGNED_SYSTEM_ADDRESS, `SystemAddress(ip, port)` and `ToString(false)`.
  pub unassigned : Address
  pub address : String → ℕ → Address
  pub host_text : Address → String
  -- RakPeerInterface::GetInstance, and whether Startup and Connect report success.
  pub instance_given : History → Option Peer
  pub startup_succeeds : History → Bool
  pub connect_succeeds : History → Bool
  -- Receive, GetMyGUID, `time(nullptr)`, and whether a signal has cleared g_running.
  pub receive_answer : History → Peer → Option Packet
  pub my_guid : History → Peer → ℕ
  pub clock : History → ℕ
  pub interrupted : History → Bool

-- INVALID_PACKET_ID and the other constants at the top of raknet_proxy.cpp.
abbrev pub invalid_packet_id : ℕ
invalid_packet_id = 0xFF

abbrev pub shutdown_timeout_ms : ℕ
shutdown_timeout_ms = 300

abbrev pub host_connect_timeout_sec : ℕ
host_connect_timeout_sec = 20

abbrev pub poll_sleep_ms : ℕ
poll_sleep_ms = 30

-- DestroyClient
unfoldable pub destroy_client : Option Peer → History → History
destroy_client none h = h
destroy_client (some p) h = destroyed p ∷ shutdown p shutdown_timeout_ms ∷ h

module _ (env : Env) where
  open env use {ids, time_size}

  -- GetPacketIdentifier. sizeof(RakNet::MessageID) is 1. The RakAssert has no effect in a
  -- release build, and is left out.
  unfoldable pub get_packet_identifier : Option Packet → ℕ
  get_packet_identifier none = invalid_packet_id
  get_packet_identifier (some p) =
      if byte_at p.bytes 0 == ids.timestamp
      then byte_at p.bytes (1 + time_size)
      else byte_at p.bytes 0

  -- SendMiniWorldMessage
  unfoldable pub send_miniworld_message : Peer → ℕ → Address → List ℕ → History → History
  send_miniworld_message p sub target payload h =
      send p (message ids.udp_proxy_general sub payload) target ∷ h

  -- SendMiniWorldMessageGUID
  unfoldable pub send_miniworld_message_guid : Peer → ℕ → Address → ℕ → History → History
  send_miniworld_message_guid p sub target g h =
      send p (guid_message ids.udp_proxy_general sub g) target ∷ h

  -- `peer->Send((const char *)(packet->data + i), n, …)`
  unfoldable pub send_slice : Peer → Packet → ℕ → ℕ → Address → History → History
  send_slice p packet i n target h = send p (slice packet.bytes i n) target ∷ h
