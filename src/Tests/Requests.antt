-- ===== src/Tests/Requests.antt =====
-- The attempts to connect of patch/RakPeer.cpp at concrete data.
use raknet_proxy.Base.{
  ◌≡◌, ◌≢◌, ◌+◌, ◌*◌, ◌↔◌, refl, true, false, [], ◌∷◌, none, some, if◌then◌else◌, inl, arith,
}
use raknet_proxy.Systems.{Guid, same_address, scan_address}
use raknet_proxy.Systems.Operations.{start_peers, get_remote_system_from_address}
use raknet_proxy.Requests.{
  Resolver, Request, Dialer, Plan, attempt_started, already_in_progress, pending, is_pending,
  cancel_connection_attempt, new_request, request_connection, send_connection_request, connect,
  get_connection_state, copied_password,
}
use raknet_proxy.Requests.Loop.{too_large, quick, removed, kept, run_request, mtu_size_index}
use raknet_proxy.Requests.Ending.{IsRunning, polls, polls-ends}
use raknet_proxy.Requests.Refused.{IsDivided, HasAttempts, run_request-none_iff, polls-Endless}
use raknet_proxy.Requests.Queue.{IsUnique}
use raknet_proxy.Requests.Unique.{Reach, starts, connects, Reach-cancel_connection_attempt}
use raknet_proxy.Requests.Pending.{IsTaken, connect-started_iff}
use raknet_proxy.Tests.Systems.{net, near, empty}

-- Every name but the empty one resolves, to its port.
abbrev resolver : Resolver
resolver = record {
  resolve =
      λ v h p. elim h [ [] ↦ none | c ∷ cs ↦ some (record { place = p; system_index = 65535 }) ];
  socket_of_user = λ i. i;
  socket_at = λ i. i;
  fix_for_ip_version = λ s a. a;
}

abbrev dialer : Dialer
dialer = record { peers = empty; queue = []; sockets = 1; failed = [] }

abbrev plan : Plan
plan = record {
  host = some (104 ∷ []);
  port = 3;
  password = none;
  password_length = 0;
  socket_index = 0;
  attempt_count = 12;
  time_between = 500;
  timeout_time = 0;
}

abbrev attempt : Request
attempt = record {
  address = near;
  next_request_time = 0;
  requests_made = 0;
  password = [];
  socket_index = 0;
  socket = none;
  extra = 0;
  attempt_count = 12;
  time_between = 500;
  timeout_time = 0;
}

-- The first request goes out with the largest MTU, the fifth with the second one.
sizes :
    (mtu_size_index attempt ≡ 0)
    × (mtu_size_index (record attempt { requests_made = 4 }) ≡ 1)
    × (mtu_size_index (record attempt { requests_made = 12 }) ≡ 2)
unfolding mtu_size_index
sizes = (refl, refl, refl)

second_try :
    (connect net resolver plan 7 (connect net resolver plan 5 dialer).1).0 ≡ already_in_progress
unfolding connect send_connection_request request_connection new_request is_pending
    get_remote_system_from_address scan_address copied_password start_peers
second_try = refl

passwords : copied_password (some (1 ∷ 2 ∷ 3 ∷ [])) 2 ≡ 1 ∷ 2 ∷ []
unfolding copied_password
passwords = refl

attempt-IsRunning : IsRunning net attempt
attempt-IsRunning = record {
  assigned = refl;
  low = omega arith;
  high = omega arith;
  made = omega arith;
}

polls-ends_example :
    polls net resolver (λ n q m. quick) (λ n. 1000 * (n + 1)) 14 attempt ≡ some (removed true)
polls-ends_example =
    polls-ends net resolver (λ s a. refl) (λ n q m. quick) (λ n. 1000 * (n + 1)) (λ n q m e. cc) 14
      attempt attempt-IsRunning (omega arith) (λ m below. omega arith) (omega arith)

polls-Endless_example :
    (r1 : Request) × (polls net resolver (λ n q m. too_large) (λ n. 1000 * (n + 1)) 3 attempt
      ≡ some (kept r1))
    × HasAttempts net resolver r1
    × (r1.attempt_count ≡ 12)
polls-Endless_example =
    polls-Endless net resolver (λ s a. refl) (λ n q m. too_large) (λ n. 1000 * (n + 1)) 3 attempt
      (λ n. inl (λ q m. refl)) (refl, omega arith, omega arith, omega arith)

abbrev hasty : Request
hasty = record attempt { attempt_count = 2 }

run_request-none_iff_example :
    (run_request net resolver (λ q m. quick) 5 hasty ≡ none) ↔ IsDivided net 5 hasty
run_request-none_iff_example = run_request-none_iff net resolver (λ q m. quick) 5 hasty

-- One attempt after another has begun.
abbrev dialed : Dialer
dialed = record dialer { queue = new_request net resolver plan 0 none near 5 ∷ [] }

dialed-Reach : Reach net resolver (λ s a. refl) dialed
unfolding connect send_connection_request request_connection is_pending
    get_remote_system_from_address scan_address start_peers
dialed-Reach = connects dialer plan 5 (starts dialer refl) dialed refl

Reach-cancel_connection_attempt_example :
    IsUnique dialed.queue
    × (is_pending near (cancel_connection_attempt near dialed).queue
        ≡ (if same_address near near then false else is_pending near dialed.queue))
Reach-cancel_connection_attempt_example =
    Reach-cancel_connection_attempt net resolver (λ s a. refl) dialed near near dialed-Reach

abbrev nobody : Guid
nobody = net.unassigned_guid

empty_runs : dialer.peers.ended ≡ false
unfolding start_peers
empty_runs = refl

connect-started_iff_example :
    let r = connect net resolver plan 5 dialer in
    ((r.0 ≡ attempt_started)
      ↔ ((IsTaken net resolver empty near → ⊥) × (is_pending near [] ≡ false)))
    × (r.0 ≡ attempt_started → get_connection_state net resolver near nobody r.1 ≡ pending)
    × (r.0 ≢ attempt_started → r.1 ≡ dialer)
connect-started_iff_example =
    connect-started_iff net resolver plan (104 ∷ []) near nobody 5 dialer refl refl refl empty_runs
      (omega arith)
