-- ===== src/Samples.antt =====
-- A concrete environment and concrete packets, on which the theorems and the tests are run.
use raknet_proxy.Base.{
  ℕ, ◌+◌, ◌<◌, ◌≡◌, true, false, List, [], ◌∷◌, none, some, length, get_or, ltb, ◌==◌,
  if◌then◌else◌, arith,
}
use raknet_proxy.Client.{Peer}
use raknet_proxy.Args.{ProgramArgs, defaults}
use raknet_proxy.Net.{
  History, Env, MessageIds, Packet, created, destroyed, set_my_guid, set_maximum_incoming, startup,
  attach_nat_client, connect, send, receive, deallocate_packet, get_my_guid, shutdown, time, sleep,
  install_signal_handlers,
}
use raknet_proxy.Net.Live.{live, IsFresh}
use raknet_proxy.Proxy.{Proxy}

-- A handle above all that were given.
unfoldable pub next_handle : History → ℕ
next_handle [] = 0
next_handle (created (some q) ∷ h) = q + 1 + next_handle h
next_handle (_ ∷ h) = next_handle h

live-lt : (p : Peer) (h : History) → live p h ≡ true → p < next_handle h
unfolding next_handle
live-lt p [] e = cc
live-lt p (created (some q) ∷ h) e = ground (arith, live-lt p h)
live-lt p (created none ∷ h) e = live-lt p h e
live-lt p (destroyed q ∷ h) e = ground (arith, live-lt p h)
live-lt p (set_my_guid q g ∷ h) e = live-lt p h e
live-lt p (set_maximum_incoming q n ∷ h) e = live-lt p h e
live-lt p (startup q m n ∷ h) e = live-lt p h e
live-lt p (attach_nat_client q ∷ h) e = live-lt p h e
live-lt p (connect q s n ∷ h) e = live-lt p h e
live-lt p (send q b a ∷ h) e = live-lt p h e
live-lt p (receive q ∷ h) e = live-lt p h e
live-lt p (deallocate_packet q ∷ h) e = live-lt p h e
live-lt p (get_my_guid q ∷ h) e = live-lt p h e
live-lt p (shutdown q n ∷ h) e = live-lt p h e
live-lt p (time n ∷ h) e = live-lt p h e
live-lt p (sleep n ∷ h) e = live-lt p h e
live-lt p (install_signal_handlers ∷ h) e = live-lt p h e

not_live_next : (h : History) → live (next_handle h) h ≡ false
not_live_next h = ground (arith, live-lt (next_handle h) h)

-- Bytes at the front of a memory.
abbrev pub memory_of : List ℕ → ℕ → ℕ
memory_of bytes i = get_or bytes i 0

abbrev pub packet_of : List ℕ → ℕ → ℕ → Packet
packet_of bytes sender guid = record {
  bytes = memory_of bytes;
  length = length bytes;
  system_address = sender;
  guid = guid;
}

abbrev pub sample_ids : MessageIds
sample_ids = record {
  timestamp = 0x1B;
  new_incoming_connection = 0x13;
  disconnection_notification = 0x15;
  connection_lost = 0x16;
  connection_request_accepted = 0x10;
  connection_attempt_failed = 0x11;
  no_free_incoming_connections = 0x14;
  nat_punchthrough_succeeded = 0x46;
  nat_punchthrough_failed = 0x45;
  nat_target_not_connected = 0x40;
  nat_target_unresponsive = 0x41;
  nat_connection_to_target_lost = 0x42;
  nat_already_in_progress = 0x43;
  udp_proxy_general = 0x5C;
}

-- 5c 1e and the GUID 0x0102030405060708.
abbrev pub register_packet : Packet
register_packet = packet_of (0x5C ∷ 0x1E ∷ 1 ∷ 2 ∷ 3 ∷ 4 ∷ 5 ∷ 6 ∷ 7 ∷ 8 ∷ []) 70 0x0102030405060708

-- Every start succeeds; the main peer receives the registration again and again; the clock
-- counts the calls; a signal comes after forty calls.
abbrev pub sample_env : Env
sample_env = record {
  ids = sample_ids;
  time_size = 8;
  little_endian = true;
  unassigned = 0;
  address = λ ip port. 9000 + port;
  host_text = λ a. if a == 61111 then "1.2.3.4" else "5.6.7.8";
  instance_given = λ h. some (next_handle h);
  startup_succeeds = λ h. true;
  connect_succeeds = λ h. true;
  receive_answer = λ h p. if p == 0 then some register_packet else none;
  my_guid = λ h p. 0x0102030405060708;
  clock = λ h. 1000 + length h;
  interrupted = λ h. ltb 40 (length h);
}

pub sample_env-IsFresh : IsFresh sample_env
sample_env-IsFresh h p e = ground (arith, not_live_next h)

abbrev pub sample_args : ProgramArgs
sample_args = record defaults { nat_server_ip = "1.2.3.4"; target_server_ip = "10.0.0.50" }

-- The main peer 0 and nothing else.
abbrev pub idle_proxy : Proxy
idle_proxy = record { clients = []; coordinator_address = 0; history = created (some 0) ∷ [] }
