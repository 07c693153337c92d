-- ===== src/Tests/Data.antt =====
-- The states, packets and command lines of the tests: samples of what the code of
-- raknet_proxy.cpp receives.
use mathlib.Core.Path.{subst}
use raknet_proxy.Base.{
  ◌++◌, ℕ, ◌≡◌, refl, sym, true, false, List, String, [], ◌∷◌, some, ltb, zero, suc, length, arith,
}
use raknet_proxy.Wire.{Memory, get_uin, guid_message}
use raknet_proxy.Client.{Peer, ClientContext, new_context, host_connecting}
use raknet_proxy.Net.{Packet, Env, created}
use raknet_proxy.Net.Live.{live}
use raknet_proxy.Args.{ProgramArgs, all_xdigits}
use raknet_proxy.Args.Laws.{IsUsable, given}
use raknet_proxy.Upnp.{Answers}
use raknet_proxy.Proxy.{Proxy}
use raknet_proxy.Proxy.Invariant.{Inv}
use raknet_proxy.Wire.Agreement.{Agree}
use raknet_proxy.Proxy.Changes.{IsWellFormed}
use raknet_proxy.Samples.{packet_of, memory_of, sample_env}

-- The bytes of a registration, from GUID to GUID.
unfoldable pub guid_memory : Memory
unfolding guid_message
guid_memory = memory_of (guid_message 0x5C 0x1E 0x0102030405060708)

-- A client with UIN 0x05060708 whose child peer is 1; it waits for its host since 1001.
abbrev pub waiting : ClientContext
waiting = record (new_context 0x0102030405060708 70 9000) {
  uin = 0x05060708;
  child_peer = some 1;
  state = host_connecting;
  state_start_time = 980;
  host_connect_timeout = 1000;
}

-- The main peer 0 and that client.
abbrev pub busy : Proxy
busy = record {
  clients = (0x05060708, waiting) ∷ [];
  coordinator_address = 0;
  history = created (some 1) ∷ created (some 0) ∷ [];
}

-- The same when the client has no child peer any more, and nobody owns 1.
abbrev pub orphaned : Proxy
orphaned = record busy { clients = [] }

abbrev pub sample_answers : Answers
sample_answers = record { finds_device = true; has_igd = true; maps = false; unmaps = false }

abbrev pub sample_argv : List String
sample_argv = "-nat_ip" ∷ "1.2.3.4" ∷ "-target_ip" ∷ "10.0.0.50" ∷ []

abbrev pub IsMain : Peer → Type 0
IsMain q = q ≡ 0

pub busy-Inv : Inv IsMain busy
busy-Inv = record {
  lives = λ q e. subst (λ r. live r busy.history ≡ true) (sym e) refl;
  safe = (tt, (tt, tt));
  apart = λ q e. (λ same. omega (arith, same, e), tt);
  owned = ((refl, tt), tt);
}

pub orphaned-Inv : Inv IsMain orphaned
orphaned-Inv = record {
  lives = busy-Inv.lives;
  safe = busy-Inv.safe;
  apart = λ q e. tt;
  owned = tt;
}

pub busy-IsWellFormed : IsWellFormed busy
unfolding get_uin
busy-IsWellFormed = record {
  sorted = tt;
  good = (record { keyed = refl; of_guid = refl; reached = tt; deadline = λ e. omega arith }, tt);
}

abbrev pub full_args : ProgramArgs
full_args = given "60000" "10" "1.2.3.4" "61111" "-upnp" "7000" "1234567890ABCDEF" "" "61112" true

pub full_args-IsUsable : IsUsable full_args
unfolding all_xdigits
full_args-IsUsable = record {
  has_nat = λ e. cc;
  has_target = λ e. cc;
  guid_short = omega arith;
  guid_hex = refl;
}

-- A signal comes after n calls.
abbrev pub stopping_env : ℕ → Env
stopping_env n = record sample_env { interrupted = λ h. ltb n (length h) }

-- A data packet from 70, which is the client `waiting`, and other bytes behind it.
abbrev pub data_packet : Packet
data_packet = packet_of (0x90 ∷ 1 ∷ 2 ∷ 3 ∷ 4 ∷ 5 ∷ []) 70 0x0102030405060708

-- 5c and the sub-message of a host, then two GUIDs.
abbrev host_bytes : List ℕ
host_bytes = 0x5C ∷ 0x20 ∷ 1 ∷ 2 ∷ 3 ∷ 4 ∷ 5 ∷ 6 ∷ 7 ∷ 8 ∷ 1 ∷ 1 ∷ 1 ∷ 1 ∷ 1 ∷ 1 ∷ 1 ∷ 1 ∷ []

-- A registration of a host, and the same with other bytes behind it.
abbrev pub host_packet : Packet
host_packet = packet_of host_bytes 71 9

abbrev pub longer_memory : Memory
longer_memory = memory_of (host_bytes ++ 6 ∷ 7 ∷ [])

get_or-append : (xs ys : List ℕ) → Agree (length xs) (memory_of xs) (memory_of (xs ++ ys))
get_or-append [] ys i less = absurd (omega arith)
get_or-append (x ∷ xs) ys zero less = refl
get_or-append (x ∷ xs) ys (suc i) less = get_or-append xs ys i (omega arith)

pub longer_memory-Agree : Agree 18 (memory_of host_bytes) longer_memory
longer_memory-Agree = get_or-append host_bytes (6 ∷ 7 ∷ [])
