-- ===== src/Requests/Refused.antt =====
-- Attempts to connect in patch/RakPeer.cpp that fail and do not end: too few attempts for the sizes
-- that the code tries, and a network that takes no size.
use raknet_proxy.Base.{
  ℕ, zero, suc, ◌≡◌, ◌≢◌, refl, ◌∙◌, ap, ◌≤◌, ◌<◌, ◌+◌, ◌*◌, ◌/◌, ◌%◌, false, ◌⊎◌, ◌↔◌, none, some,
  ◌==◌, ltb, Bool-cases, inl, inr, arith,
}
use raknet_proxy.Systems.{RakNet, Address, same_address}
use raknet_proxy.Requests.{Resolver, Request}
use raknet_proxy.Requests.Loop.{
  SendResult, too_large, slow, quick, kept, tries_for_size, has_made_all, mtu_size_index,
  socket_used, after_send, send_request, run_request,
}
use raknet_proxy.Requests.Ending.{polls}

-- The places where the loop leaves a request alone or takes it off.
abbrev pub IsDivided : RakNet → ℕ → Request → Type 0
IsDivided net now r =
    (r.next_request_time < now)
    × (r.requests_made ≢ (r.attempt_count + 1) % 4294967296)
    × (r.address.place ≢ net.unassigned.place)
    × (r.attempt_count < 3)

module _ (net : RakNet) (res : Resolver) where
  -- The loop divides by zero exactly if the request is due, has not made all its attempts, has an
  -- address, and has fewer than three attempts, a number that Connect takes from its caller.
  pub run_request-none_iff :
      (send : Request → ℕ → SendResult) (now : ℕ) (r : Request)
      → (run_request net res send now r ≡ none) ↔ IsDivided net now r
  unfolding run_request has_made_all
  run_request-none_iff send now r = ground arith

  third : (a t : ℕ) → a ≤ 2 → (a + 1) * t ≤ 3 * t
  third zero t low = omega arith
  third (suc zero) t low = omega arith
  third (suc (suc zero)) t low = omega arith
  third (suc (suc (suc a))) t low = absurd (omega arith)

  mtu_size_index-le : (r : Request) → mtu_size_index r ≤ 2
  unfolding mtu_size_index
  mtu_size_index-le r = ground arith

  -- A request that has attempts left.
  abbrev pub HasAttempts : Request → Type 0
  HasAttempts r =
      (same_address r.address net.unassigned ≡ false)
      × (3 ≤ r.attempt_count)
      × (r.attempt_count < 4294967295)
      × (r.requests_made ≤ r.attempt_count)

-- Why a request never ends: Send takes no size, or more attempts are wanted than a byte counts.
abbrev pub IsEndless : (Request → ℕ → SendResult) → Request → Type 0
IsEndless send r = ((q : Request) (m : ℕ) → send q m ≡ too_large) ⊎ (255 ≤ r.attempt_count)

after_send-byte :
    (now mtu : ℕ) (result : SendResult) (r : Request)
    → r.requests_made < 256
    → ((after_send now mtu result r).requests_made < 256)
      × ((after_send now mtu result r).attempt_count ≡ r.attempt_count)
      × ((after_send now mtu result r).address ≡ r.address)
unfolding after_send
after_send-byte now mtu too_large r byte = ground arith
after_send-byte now mtu slow r byte = ground arith
after_send-byte now mtu quick r byte = ground arith

module _ (net : RakNet) (res : Resolver)
    (same : (s : ℕ) (a : Address) → (res.fix_for_ip_version s a).place ≡ a.place) where
  send_request-made :
      (send : Request → ℕ → SendResult) (now : ℕ) (r : Request)
      → IsEndless send r
      → HasAttempts net res r
      → let r1 = send_request net res send now r in
        (r1.requests_made ≤ r.attempt_count)
        × (r1.attempt_count ≡ r.attempt_count)
        × (r1.address.place ≡ r.address.place)
  unfolding send_request after_send
  send_request-made send now r endless (assigned, low, high, made) =
      let mtu = mtu_size_index r in
      let place = same (socket_used net res send r) r.address in
      let r1 : Request = record r {
        address = res.fix_for_ip_version (socket_used net res send r) r.address;
        requests_made = (r.requests_made + 1) % 256;
        next_request_time = (now + r.time_between) % 4294967296;
      } in
      let (byte, count, address) = after_send-byte now mtu (send r1 mtu) r1 (omega arith) in
      (
        elim endless [
          | inl refuses ↦
              rw (refuses r1 mtu, after_send)
                (omega
                  (arith, third net res mtu (r.attempt_count / 3) (mtu_size_index-le net res r)))
          | inr long ↦ omega (arith, byte, long)
        ],
        count,
        ap (λ a. a.place) address ∙ place,
      )

  run_request-Endless :
      (send : Request → ℕ → SendResult) (now : ℕ) (r : Request)
      → IsEndless send r
      → HasAttempts net res r
      → (r1 : Request) × (run_request net res send now r ≡ some (kept r1))
        × HasAttempts net res r1
        × (r1.attempt_count ≡ r.attempt_count)
  unfolding run_request has_made_all
  run_request-Endless send now r endless (assigned, low, high, made) =
      elim (Bool-cases (ltb r.next_request_time now)) [
        | inr early ↦ (r, rw early refl, (assigned, low, high, made), refl)
        | inl is_due ↦
            let sizes : (tries_for_size r == 0) ≡ false = ground (arith, low) in
            let left : (r.requests_made == (r.attempt_count + 1) % 4294967296) ≡ false =
              ground (arith, made, high) in
            let (below, count, place) =
              send_request-made send now r endless (assigned, low, high, made) in
            (
              send_request net res send now r,
              rw is_due (rw left (rw assigned (rw sizes refl))),
              (rw place assigned, rw count low, rw count high, rw count below),
              count,
            )
      ]

  -- An attempt with an address and from 3 to 2^32 - 2 attempts, of which some are left. If Send
  -- takes no size in any round, or if at least 255 attempts are wanted, it never ends, however
  -- many rounds there are and at whatever times. FixForIPVersion keeps the place that an address
  -- stands for.
  pub polls-Endless :
      (send : ℕ → Request → ℕ → SendResult) (now : ℕ → ℕ) (n : ℕ) (r : Request)
      → ((m : ℕ) → IsEndless (send m) r)
      → HasAttempts net res r
      → (r1 : Request) × (polls net res send now n r ≡ some (kept r1))
        × HasAttempts net res r1
        × (r1.attempt_count ≡ r.attempt_count)
  polls-Endless send now zero r endless left = (r, refl, left, refl)
  polls-Endless send now (suc n) r endless left =
      let (r1, still, left1, count1) = polls-Endless send now n r endless left in
      let endless1 : IsEndless (send n) r1 = rw count1 (endless n) in
      let (r2, next, left2, count2) = run_request-Endless (send n) (now n) r1 endless1 left1 in
      (r2, rw still next, left2, count2 ∙ count1)
