-- ===== src/Requests/Loop.antt =====
-- The loop of RunUpdateCycle in patch/RakPeer.cpp over requestedConnectionQueue. What
-- RakNetSocket2::Send does is a parameter: it refuses the size, takes more than 100 ms, or
-- neither. none as a result is a division by 0.
use raknet_proxy.Base.{
  ℕ, ◌+◌, ◌*◌, ◌/◌, ◌%◌, ◌^◌, Bool, not, ◌&&◌, ◌||◌, List, [], ◌∷◌, ◌++◌, Option, none, some, ◌==◌,
  if◌then◌else◌, ltb, leb,
}
use raknet_proxy.Systems.{RakNet, same_address}
use raknet_proxy.Requests.{Resolver, Request, Dialer}

pub data SendResult : Type 0 where
  too_large : SendResult
  slow : SendResult
  quick : SendResult

-- What a round makes of a request.
pub data Round : Type 0 where
  removed : Bool → Round
  kept : Request → Round

-- `sendConnectionAttemptCount/NUM_MTU_SIZES`
abbrev pub tries_for_size : Request → ℕ
tries_for_size r = r.attempt_count / 3

-- `condition1`
unfoldable pub has_made_all : Request → Bool
has_made_all r = r.requests_made == (r.attempt_count + 1) % 2 ^ 32

-- MTUSizeIndex
unfoldable pub mtu_size_index : Request → ℕ
mtu_size_index r = let i = r.requests_made / tries_for_size r in if leb 3 i then 2 else i

-- What follows the call of Send, with the request as it was before the round for the MTU.
unfoldable pub after_send : ℕ → ℕ → SendResult → Request → Request
after_send now mtu too_large r = record r {
  requests_made = ((mtu + 1) * tries_for_size r) % 256;
  next_request_time = now;
}
after_send now mtu slow r =
    if ltb r.requests_made (tries_for_size r * 2) && ltb (tries_for_size r * 2) (2 ^ 31)
    then record r { requests_made = (tries_for_size r * 2) % 256; next_request_time = now }
    else record r { requests_made = (r.attempt_count + 1) % 256 }
after_send now mtu quick r = r

module _ (net : RakNet) (res : Resolver) (send : Request → ℕ → SendResult) where
  -- socketToUse
  unfoldable pub socket_used : Request → ℕ
  socket_used r = elim r.socket [ none ↦ res.socket_at r.socket_index | some s ↦ s ]

  -- A request that is sent, with its count and time, at its MTU.
  unfoldable pub send_request : ℕ → Request → Request
  send_request now r =
      let mtu = mtu_size_index r in
      let r1 = record r {
        address = res.fix_for_ip_version (socket_used r) r.address;
        requests_made = (r.requests_made + 1) % 256;
        next_request_time = (now + r.time_between) % 2 ^ 32;
      } in
      after_send now mtu (send r1 mtu) r1

  -- One round of the loop.
  unfoldable pub run_request : ℕ → Request → Option Round
  run_request now r =
      if ltb r.next_request_time now
      then (if has_made_all r || same_address r.address net.unassigned
          then some (removed (has_made_all r && not (same_address r.address net.unassigned)))
          else if tries_for_size r == 0
          then none
          else some (kept (send_request now r)))
      else some (kept r)

  -- The loop. A request that is removed leaves the index where it is.
  unfoldable pub run_requests : ℕ → List Request → Dialer → Option Dialer
  run_requests now [] d = some d
  run_requests now (r ∷ rs) d = elim (run_request now r) [
    | none ↦ none
    | some (removed notify) ↦
        run_requests now rs
          (record d { failed = if notify then d.failed ++ r.address ∷ [] else d.failed })
    | some (kept r1) ↦ run_requests now rs (record d { queue = d.queue ++ r1 ∷ [] })
  ]

  -- The part of RunUpdateCycle about the requests.
  unfoldable pub run_queue_of_requests : ℕ → Dialer → Option Dialer
  run_queue_of_requests now d = run_requests now d.queue (record d { queue = [] })
