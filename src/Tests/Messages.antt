-- ===== src/Tests/Messages.antt =====
-- The messages and packets of raknet_proxy.cpp: runs, and the theorems at concrete data.
use raknet_proxy.Base.{◌⊎◌, ℕ, ◌≡◌, refl, [], ◌∷◌, some, arith}
use raknet_proxy.Wire.{get_uin, read_big_endian_guid, guid_message}
use raknet_proxy.Wire.RoundTrip.{read_big_endian_guid-guid_message}
use raknet_proxy.Client.{ClientContext, new_context, proxy_connecting}
use raknet_proxy.Net.{get_packet_identifier, send_miniworld_message}
use raknet_proxy.Table.{find, insert}
use raknet_proxy.Table.Laws.{find-insert}
use raknet_proxy.Child.{start_child, connect_child, create_child_peer}
use raknet_proxy.Proxy.{assign_child}
use raknet_proxy.Proxy.Register.{host_guids, handle_client_register}
use raknet_proxy.Proxy.Events.{kind_of, sub_of, on_kind, on_sub, on_general, handle_packet}
use raknet_proxy.Proxy.Poll.{on_child_answer}
use raknet_proxy.Proxy.Reads.{over}
use raknet_proxy.Proxy.Bounds.{handle_packet-Agree}
use raknet_proxy.Proxy.Relaying.{Belongs, Fate, forward_lem}
use raknet_proxy.Proxy.Forward.{forward}
use raknet_proxy.Samples.{
  packet_of, memory_of, register_packet, sample_env, sample_args, idle_proxy, next_handle,
}
use raknet_proxy.Tests.Data.{
  guid_memory, waiting, busy, data_packet, host_packet, longer_memory, longer_memory-Agree,
}

-- A registration leads to a child peer, under the UIN of its GUID.
register_run :
    (handle_packet sample_env sample_args 0 register_packet idle_proxy).clients
    ≡ (
      0x05060708,
      record (new_context 0x0102030405060708 70 0) {
        uin = 0x05060708;
        child_peer = some 1;
        state = proxy_connecting;
        state_start_time = 1002;
      },
    )
      ∷ []
unfolding handle_packet handle_client_register on_kind kind_of get_packet_identifier on_general
    on_sub sub_of assign_child create_child_peer start_child connect_child insert get_uin
    read_big_endian_guid send_miniworld_message next_handle
register_run = refl

read_big_endian_guid-guid_message_example : read_big_endian_guid guid_memory 2 ≡ 0x0102030405060708
unfolding guid_message guid_memory
read_big_endian_guid-guid_message_example =
    read_big_endian_guid-guid_message guid_memory 0x5C 0x1E 0x0102030405060708 (omega arith)
      (refl, (refl, (refl, (refl, (refl, (refl, (refl, (refl, (refl, (refl, tt))))))))))

find-insert_example : find 7 (insert 5 waiting busy.clients) ≡ find 7 busy.clients
find-insert_example = find-insert 5 7 waiting busy.clients

handle_packet-Agree_example :
    (handle_packet sample_env sample_args 0 (over longer_memory host_packet) busy
      ≡ handle_packet sample_env sample_args 0 host_packet busy)
    × (host_guids (over longer_memory host_packet) ≡ host_guids host_packet)
    × (on_child_answer sample_env sample_args 0 waiting 1 (some (over longer_memory host_packet)) []
        ≡ on_child_answer sample_env sample_args 0 waiting 1 (some host_packet) [])
handle_packet-Agree_example =
    handle_packet-Agree sample_env sample_args 0 longer_memory host_packet longer_memory-Agree
      (omega arith) (λ e. absurd (omega (arith, e))) busy waiting 1 []

forward_lem_example :
    let t = forward sample_env sample_args 0 data_packet busy in
    ((t ≡ busy)
      × ((k : ℕ) (c : ClientContext)
          → find k busy.clients ≡ some c
          → Belongs sample_env sample_args 0 data_packet k c
          → ⊥))
    ⊎ ((k : ℕ) × (c : ClientContext) × (find k busy.clients ≡ some c)
        × Belongs sample_env sample_args 0 data_packet k c
        × Fate sample_env sample_args 0 data_packet k c busy t)
forward_lem_example = forward_lem sample_env sample_args 0 data_packet busy tt

-- A packet whose first byte is ID_TIMESTAMP and that ends there is handled by what lies behind it.
stamped_run :
    (get_packet_identifier sample_env (some (packet_of (0x1B ∷ []) 70 0)) ≡ 0)
    × (get_packet_identifier sample_env (
          some (
            over
              (memory_of (0x1B ∷ 0 ∷ 0 ∷ 0 ∷ 0 ∷ 0 ∷ 0 ∷ 0 ∷ 0 ∷ 0x13 ∷ []))
              (packet_of (0x1B ∷ []) 70 0)))
        ≡ 0x13)
unfolding get_packet_identifier
stamped_run = (refl, refl)
