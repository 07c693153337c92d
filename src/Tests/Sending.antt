-- ===== src/Tests/Sending.antt =====
-- Sending in patch/RakPeer.cpp at concrete data: two systems whose addresses hash to one chain.
use raknet_proxy.Base.{
  ℕ, ◌≡◌, ◌≢◌, ◌≤◌, ◌<◌, ◌+◌, ◌*◌, ◌/◌, ◌%◌, ◌&&◌, ◌++◌, refl, true, false, [], ◌∷◌, List, some,
  ◌==◌, if◌then◌else◌, inl, inr, length, All, arith,
}
use raknet_proxy.Systems.{
  Peers, fully_connected, no_action, disconnect_asap, same_address, same_guid, find_entry,
  get_remote_system_index, hash_index,
}
use raknet_proxy.Systems.Guids.{hinted, get_index_from_system_address}
use raknet_proxy.Systems.Operations.{start_peers, get_remote_system, get_remote_system_from_address}
use raknet_proxy.Sending.{
  Constants, Command, Buffered, Options, Sender, send_command, close_command,
  increment_next_send_receipt, receipt_bytes, total_length, aggregate, is_internal,
  is_loopback_address, cannot_send, send, send_stream, send_list,
}
use raknet_proxy.Sending.Receipts.{serial_after, increment_next_send_receipt-Distinct}
use raknet_proxy.Sending.Loopback.{own, send-own}
use raknet_proxy.Sending.Blocks.{send_list-Send}
use raknet_proxy.Sending.Delivery.{
  Delivery, Network, with_peers, target_index, broadcast_list, recipients, deliver, send_to,
  is_reliable, send_immediate, run_send, unicast_list, free_unused, change_mode, set_connect_mode,
}
use raknet_proxy.Sending.Commands.{run_commands, run_queue}
use raknet_proxy.Sending.Journey.{command_of, send-Delivered}
use raknet_proxy.Sending.Recipients.{Adds, Sends, calls_to, receives, send_immediate-Sends}
use raknet_proxy.Sending.Ownership.{Leaves, IsSome, IsSteady, run_commands-Leaves}
use raknet_proxy.Sending.Disconnecting.{IsPlainAddress, run_send-Silent}
use raknet_proxy.Tests.Systems.{net, near, far, empty}

abbrev k : Constants
k = record {
  immediate_priority = 0;
  reliable = 2;
  reliable_ordered = 3;
  reliable_sequenced = 4;
  reliable_with_ack_receipt = 6;
  reliable_ordered_with_ack_receipt = 7;
  unreliable_with_ack_receipt = 5;
  snd_receipt_acked = 30;
  is_undefined = λ t. same_address t.address net.unassigned && same_guid t.guid net.unassigned_guid;
  equals_excluding_port = λ a b. a.place / 65536 == b.place / 65536;
  bits_to_bytes = λ n. (n + 7) / 8;
  to_milliseconds = λ t. (t / 1000) % 4294967296;
  disconnection_notification = 21;
  fix_for_ip_version = λ a. a;
  to_target = λ a. record { address = a; guid = net.unassigned_guid };
}

abbrev peers : Peers
peers = record empty {
  systems = λ i. record {
    address = if i == 0 then near else far;
    guid = record { g = i + 1; system_index = 65535 };
    is_active = true;
    connect_mode = fully_connected;
    we_initiated = false;
  };
  lookup = λ h. if h == 3 then 0 ∷ 1 ∷ [] else [];
}

abbrev sender : Sender
sender = record {
  peers = peers;
  serial = 4294967295;
  commands = [];
  returned = [];
  ids = [];
  first_external = net.unassigned;
  my_guid = record { g = 99; system_index = 65535 };
  events = 0;
}

abbrev to_far : Options
to_far = record {
  priority = 0;
  reliability = 7;
  channel = 0;
  target = k.to_target far;
  broadcast = false;
  force_receipt = 0;
}

abbrev to_self : Options
to_self = record to_far { target = record { address = net.unassigned; guid = sender.my_guid } }

increment_next_send_receipt-Distinct_example :
    let receipt = λ (n : ℕ). (increment_next_send_receipt (serial_after n 4294967295)).0 in
    (1 ≤ receipt 0) × (receipt 0 < 4294967296) × (receipt 0 ≢ receipt 1)
increment_next_send_receipt-Distinct_example =
    increment_next_send_receipt-Distinct 4294967295 0 1 (omega arith) (omega arith) (omega arith)
      (omega arith)

self_can : cannot_send net k to_self sender ≡ false
unfolding cannot_send start_peers
self_can = refl

self_own : is_loopback_address net k sender to_self.target true ≡ true
unfolding is_loopback_address
self_own = refl

send-own_example :
    let r = send net k (some (1 ∷ 2 ∷ [])) 2 to_self sender in
    (r.0 ≡ 4294967295)
    × ((m : ℕ) × (r.1.returned
          ≡ ([] ++ own net k sender (1 ∷ 2 ∷ []) ∷ [])
            ++ own net k sender (30 ∷ receipt_bytes m) ∷ [])
        × (receipt_bytes m ≢ receipt_bytes r.0))
send-own_example =
    send-own net k (1 ∷ 2 ∷ []) 2 to_self sender (omega arith) (omega arith) refl self_can refl
      self_own (omega arith) refl

-- Two blocks and one with a negative length.
abbrev blocks : List (List ℕ × ℕ)
blocks = (1 ∷ 2 ∷ 3 ∷ [], 2) ∷ (9 ∷ [], 4294967295) ∷ (4 ∷ [], 1) ∷ []

aggregated : (total_length blocks 0 ≡ 3) × (aggregate blocks ≡ 1 ∷ 2 ∷ 4 ∷ [])
unfolding total_length aggregate
aggregated = (refl, refl)

far_other : is_loopback_address net k sender to_far.target true ≡ false
unfolding is_loopback_address is_internal
far_other = refl

has_data : 0 < length (aggregate blocks)
unfolding aggregate
has_data = omega arith

has_few : length (aggregate blocks) < 536870912
unfolding aggregate
has_few = omega arith

send_list-Send_example :
    let d = aggregate blocks in
    (send_list net k (some blocks) to_far sender ≡ send net k (some d) (length d) to_far sender)
    × (send_list net k (some blocks) to_far sender
        ≡ send_stream net k d (length d * 8) to_far sender)
send_list-Send_example =
    send_list-Send net k (λ n low. omega arith) blocks to_far sender
      (λ e. omega arith, (λ e. cc, (λ e. omega arith, tt))) has_data has_few (inr (inl far_other))

abbrev to_all : Command
to_all = record {
  bytes = 1 ∷ [];
  bits = 8;
  priority = 0;
  reliability = 3;
  channel = 0;
  target = k.to_target near;
  broadcast = true;
  mode = no_action;
  receipt = 5;
}

abbrev network : Network
network = record {
  sender = sender;
  sent = [];
  last_reliable_send = λ i. 0;
  freed = [];
  queries = [];
}

-- A broadcast from the first system to the others: the second one takes the data.
broadcasts :
    let r = send_immediate net k to_all true 5000 network in
    (r.0 ≡ true)
    × (r.1.sent ≡ record { system = 1; command = to_all; copies = false; time = 5000 } ∷ [])
    × (r.1.last_reliable_send 1 ≡ 5)
unfolding send_immediate deliver send_to recipients broadcast_list target_index is_reliable
    get_index_from_system_address hinted get_remote_system_index find_entry hash_index start_peers
broadcasts = (refl, refl, refl)

send_immediate-Sends_example :
    let r = target_index net k (k.to_target near) network in
    (ds : List Delivery) × Adds ds
      (with_peers r.1 network)
      (send_immediate net k to_all true 5000 network).1
    × Sends to_all 5000 ds
    × ((j : ℕ) → calls_to j ds ≡ (if receives net k to_all r.0 r.1 j then 1 else 0))
send_immediate-Sends_example = send_immediate-Sends net k to_all true 5000 network

abbrev queue : List Buffered
queue = send_command to_all ∷ close_command (k.to_target near) 0 0 ∷ send_command to_all ∷ []

run_commands-Leaves_example :
    let r = run_commands net k queue 5000 network in
    Leaves (2 + 0) r × (All IsSteady queue → IsSome r)
run_commands-Leaves_example = run_commands-Leaves net k queue 5000 network

abbrev goodbye : Command
goodbye = record to_all { broadcast = false; mode = disconnect_asap }

abbrev afterthought : Command
afterthought = record to_all { broadcast = false; receipt = 6 }

near-IsPlainAddress : IsPlainAddress net (k.to_target near)
near-IsPlainAddress = record { has_address = refl; no_guid = refl; no_hint = refl }

run_send-Silent_example :
    (run_send net k afterthought 7000 (run_send net k goodbye 5000 network)).sent
    ≡ (run_send net k goodbye 5000 network).sent
run_send-Silent_example =
    run_send-Silent net k goodbye afterthought 5000 7000 network near-IsPlainAddress refl refl refl

-- The first command does reach the system.
says_goodbye :
    (run_send net k goodbye 5000 network).sent
    ≡ record { system = 0; command = goodbye; copies = false; time = 5000 } ∷ []
unfolding run_send send_immediate deliver send_to recipients unicast_list target_index is_reliable
    get_index_from_system_address hinted get_remote_system_index find_entry hash_index start_peers
    free_unused change_mode set_connect_mode get_remote_system get_remote_system_from_address
says_goodbye = refl

far_can : cannot_send net k to_far sender ≡ false
unfolding cannot_send start_peers
far_can = refl

far-IsPlainAddress : IsPlainAddress net (k.to_target far)
far-IsPlainAddress = record { has_address = refl; no_guid = refl; no_hint = refl }

far_found : get_remote_system_index net peers far ≡ some 1
unfolding get_remote_system_index find_entry hash_index start_peers
far_found = refl

send-Delivered_example :
    let r = send net k (some (1 ∷ 2 ∷ [])) 2 to_far sender in
    (n' : Network) × (run_queue net k 5000 (record network { sender = r.1 }) ≡ some n')
    × (n'.sent
        ≡ []
          ++ record {
            system = 1;
            command = command_of net k (1 ∷ 2 ∷ []) to_far r.0;
            copies = false;
            time = 5000;
          }
            ∷ [])
    × (n'.freed ≡ [])
    × (n'.sender.commands ≡ [])
send-Delivered_example =
    send-Delivered net k (λ n low. omega arith) (1 ∷ 2 ∷ []) to_far sender network 1 5000
      (omega arith) far_can refl far_other far-IsPlainAddress refl far_found refl refl
