-- ===== src/Tests/Peers.antt =====
-- The theorems on child peers and the client table of raknet_proxy.cpp, at concrete data.
use raknet_proxy.Base.{arith, some, ◌==◌, ℕ, ◌≡◌, refl, ◌≢◌, true, false, ltb, ◌&&◌}
use raknet_proxy.Wire.{get_uin, read_big_endian_guid}
use raknet_proxy.Client.{ClientContext, Peer, host_connecting, same_state}
use raknet_proxy.Net.Live.{live, IsSafe}
use raknet_proxy.Table.{find}
use raknet_proxy.Child.{start_child, connect_child, create_child_peer}
use raknet_proxy.Child.Lifetime.{Outcome, create_child_peer-Outcome}
use raknet_proxy.Proxy.Register.{handle_client_register}
use raknet_proxy.Proxy.Events.{on_disconnection, handle_packet}
use raknet_proxy.Proxy.Poll.{poll_children, sweep_timeouts, round, close}
use raknet_proxy.Proxy.Invariant.{NotIn, Inv}
use raknet_proxy.Proxy.Dispatch.{handle_packet-Inv}
use raknet_proxy.Proxy.Rounds.{round-Inv}
use raknet_proxy.Proxy.Closing.{rounds, AllGone, close_lem}
use raknet_proxy.Proxy.Departures.{Departed, on_disconnection-Departed}
use raknet_proxy.Proxy.Leaks.{live-handle_client_register}
use raknet_proxy.Proxy.Changes.{IsWellFormed}
use raknet_proxy.Proxy.States.{round-IsWellFormed, TableKeeps, find-sweep_timeouts}
use raknet_proxy.Samples.{
  sample_ids, register_packet, sample_env, sample_env-IsFresh, sample_args, next_handle,
}
use raknet_proxy.Net.{History, Env}
use raknet_proxy.Proxy.Kinds.{IsDistinct}
use raknet_proxy.Proxy.Returning.{Extends, Polled, poll_children-Answered}
use raknet_proxy.Tests.Data.{waiting, busy, IsMain, busy-Inv, busy-IsWellFormed, data_packet}

round-Inv_example : Inv IsMain (round sample_env sample_args 0 busy)
round-Inv_example = round-Inv sample_env sample_env-IsFresh sample_args 0 IsMain refl busy busy-Inv

handle_packet-Inv_example : Inv IsMain (handle_packet sample_env sample_args 0 register_packet busy)
handle_packet-Inv_example =
    handle_packet-Inv sample_env sample_env-IsFresh sample_args 0 IsMain refl register_packet busy
      busy-Inv

close_lem_example :
    IsSafe (close 0 busy).history
    × (live 0 (close 0 busy).history ≡ false)
    × AllGone (close 0 busy).history busy.clients
    × ((p : Peer) → IsMain p → p ≢ 0 → live p (close 0 busy).history ≡ true)
close_lem_example = close_lem IsMain 0 busy refl busy-Inv

live-handle_client_register_example :
    let s = handle_client_register sample_env 0 sample_args register_packet busy in
    NotIn 1 s.clients
    × ((n : ℕ) → live 1 (close 0 (rounds sample_env sample_args 0 n s)).history ≡ true)
unfolding find get_uin read_big_endian_guid create_child_peer start_child connect_child next_handle
live-handle_client_register_example =
    live-handle_client_register sample_env sample_env-IsFresh sample_args 0 1 waiting
      register_packet busy busy-Inv tt refl refl refl refl

round-IsWellFormed_example : IsWellFormed (round sample_env sample_args 0 busy)
round-IsWellFormed_example = round-IsWellFormed sample_env sample_args 0 busy busy-IsWellFormed

find-sweep_timeouts_example :
    TableKeeps
      (λ c.
        same_state c.state host_connecting
        && ltb c.host_connect_timeout (sample_env.clock busy.history))
      busy
      (sweep_timeouts sample_env sample_args 0 busy)
find-sweep_timeouts_example = find-sweep_timeouts sample_env sample_args 0 busy busy-IsWellFormed

create_child_peer-Outcome_example :
    Outcome busy.history (create_child_peer sample_env sample_args waiting 5 busy.history)
create_child_peer-Outcome_example =
    create_child_peer-Outcome sample_env sample_args sample_env-IsFresh waiting 5 busy.history
      (tt, (tt, tt))

on_disconnection-Departed_example :
    Departed
      (λ c. c.client_address == 70)
      busy
      (on_disconnection sample_env sample_args 0 data_packet busy)
on_disconnection-Departed_example =
    on_disconnection-Departed sample_env sample_args 0 IsMain data_packet busy busy-Inv tt

-- The target's packet arrives on every peer.
abbrev answering_env : Env
answering_env = record sample_env { receive_answer = λ h p. some data_packet }

sample_ids-IsDistinct : IsDistinct sample_ids
sample_ids-IsDistinct = record {
  failed_accepted = λ e. omega (arith, e);
  ended_accepted = λ e. omega (arith, e);
  lost_accepted = λ e. omega (arith, e);
  ended_incoming = λ e. omega (arith, e);
  lost_incoming = λ e. omega (arith, e);
}

poll_children-Answered_example :
    let r = poll_children answering_env sample_args 0 busy.clients busy.history in
    (c' : ClientContext) × (before : History) × (after : History) × (find 0x05060708 r.0 ≡ some c')
    × Extends busy.history before
    × Extends after r.1
    × Polled answering_env sample_ids-IsDistinct sample_args 0 waiting c' before after
unfolding find
poll_children-Answered_example =
    poll_children-Answered answering_env sample_ids-IsDistinct sample_args 0 0x05060708 waiting
      busy.clients busy.history refl
