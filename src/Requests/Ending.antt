-- ===== src/Requests/Ending.antt =====
-- How an attempt to connect in patch/RakPeer.cpp ends.
use raknet_proxy.Base.{
  ℕ, zero, suc, ◌≡◌, ◌≢◌, refl, ◌∙◌, ap, ◌≤◌, ◌<◌, ◌+◌, ◌%◌, true, false, ◌⊎◌, Option, none, some,
  ◌==◌, ltb, Bool-cases, inl, inr, arith,
}
use raknet_proxy.Systems.{RakNet, Address, same_address}
use raknet_proxy.Requests.{Resolver, Request}
use raknet_proxy.Requests.Loop.{
  SendResult, too_large, slow, quick, Round, removed, kept, tries_for_size, has_made_all,
  mtu_size_index, socket_used, after_send, send_request, run_request,
}

-- A request with an address, and at least three and at most 253 attempts, that has made at most
-- one more.
pub record IsRunning (net : RakNet) (r : Request) : Type 0 where
  pub assigned : same_address r.address net.unassigned ≡ false
  pub low : 3 ≤ r.attempt_count
  pub high : r.attempt_count ≤ 253
  pub made : r.requests_made ≤ r.attempt_count + 1

module _ (net : RakNet) (res : Resolver) where
  abbrev pub next_round : (Request → ℕ → SendResult) → ℕ → Option Round → Option Round
  next_round send now none = none
  next_round send now (some (removed b)) = some (removed b)
  next_round send now (some (kept r)) = run_request net res send now r

  -- What the loop makes of a request in so many rounds, each with its time and its answers of
  -- Send.
  abbrev pub polls : (ℕ → Request → ℕ → SendResult) → (ℕ → ℕ) → ℕ → Request → Option Round
  polls send now zero r = some (kept r)
  polls send now (suc n) r = next_round (send n) (now n) (polls send now n r)

after_send-bounds :
    (now mtu : ℕ) (result : SendResult) (r : Request)
    → 3 ≤ r.attempt_count
    → r.attempt_count ≤ 253
    → r.requests_made ≤ r.attempt_count + 1
    → r.next_request_time ≤ now + r.time_between
    → result ≢ too_large
    → (r.requests_made ≤ (after_send now mtu result r).requests_made)
      × ((after_send now mtu result r).requests_made ≤ r.attempt_count + 1)
      × ((after_send now mtu result r).attempt_count ≡ r.attempt_count)
      × ((after_send now mtu result r).time_between ≡ r.time_between)
      × ((after_send now mtu result r).next_request_time ≤ now + r.time_between)
      × ((after_send now mtu result r).address ≡ r.address)
unfolding after_send
after_send-bounds now mtu too_large r low high made soon fits = elim (fits refl) [ ]
after_send-bounds now mtu slow r low high made soon fits = ground arith
after_send-bounds now mtu quick r low high made soon fits = ground arith

module _ (net : RakNet) (res : Resolver)
    (same : (s : ℕ) (a : Address) → (res.fix_for_ip_version s a).place ≡ a.place) where
  send_request-IsRunning :
      (send : Request → ℕ → SendResult) (now : ℕ) (r : Request)
      → IsRunning net r
      → r.requests_made ≤ r.attempt_count
      → ((q : Request) (m : ℕ) → send q m ≢ too_large)
      → IsRunning net (send_request net res send now r)
        × (r.requests_made < (send_request net res send now r).requests_made)
        × ((send_request net res send now r).attempt_count ≡ r.attempt_count)
        × ((send_request net res send now r).time_between ≡ r.time_between)
        × ((send_request net res send now r).next_request_time ≤ now + r.time_between)
  unfolding send_request
  send_request-IsRunning send now r running more fits =
      let mtu = mtu_size_index r in
      let r1 : Request = record r {
        address = res.fix_for_ip_version (socket_used net res send r) r.address;
        requests_made = (r.requests_made + 1) % 256;
        next_request_time = (now + r.time_between) % 4294967296;
      } in
      let next : (r.requests_made + 1) % 256 ≡ r.requests_made + 1 =
        omega (arith, running.high, more) in
      let (below, above, count, between, soon, address) =
        after_send-bounds now mtu (send r1 mtu) r1 running.low running.high
          (omega (arith, next, more)) (omega arith) (fits r1 mtu) in
      let place : (after_send now mtu (send r1 mtu) r1).address.place ≡ r.address.place =
        ap (λ a. a.place) address ∙ same (socket_used net res send r) r.address in
      (
        record {
          assigned = rw place running.assigned;
          low = rw count running.low;
          high = rw count running.high;
          made = rw count above;
        },
        omega (arith, next, below),
        count,
        between,
        soon,
      )

  -- A round of the loop at a time when the request is due and Send takes the size.
  run_request-IsRunning :
      (send : Request → ℕ → SendResult) (now : ℕ) (r : Request)
      → IsRunning net r
      → r.next_request_time < now
      → ((q : Request) (m : ℕ) → send q m ≢ too_large)
      → (run_request net res send now r ≡ some (removed true))
        ⊎ ((r1 : Request) × (run_request net res send now r ≡ some (kept r1))
            × IsRunning net r1
            × (r.requests_made < r1.requests_made)
            × (r1.attempt_count ≡ r.attempt_count)
            × (r1.time_between ≡ r.time_between)
            × (r1.next_request_time ≤ now + r.time_between))
  unfolding run_request has_made_all
  run_request-IsRunning send now r running due fits =
      let is_due : ltb r.next_request_time now ≡ true = ground (arith, due) in
      let sizes : (tries_for_size r == 0) ≡ false = ground (arith, running.low) in
      elim (Bool-cases (r.requests_made == (r.attempt_count + 1) % 4294967296)) [
        | inl all ↦ inl (rw is_due (rw all (rw running.assigned refl)))
        | inr some_left ↦
            let more : r.requests_made ≤ r.attempt_count =
              ground (arith, running.made, running.high, some_left) in
            let (still, later, count, between, soon) =
              send_request-IsRunning send now r running more fits in
            inr (
              send_request net res send now r,
              rw is_due (rw some_left (rw running.assigned (rw sizes refl))),
              still,
              later,
              count,
              between,
              soon,
            )
      ]

  module _ (send : ℕ → Request → ℕ → SendResult) (now : ℕ → ℕ)
      (fits : (n : ℕ) (q : Request) (m : ℕ) → send n q m ≢ too_large) where
    polls-IsRunning :
        (n : ℕ) (r : Request)
        → IsRunning net r
        → r.next_request_time < now 0
        → ((m : ℕ) → m < n → now m + r.time_between < now (suc m))
        → (polls net res send now n r ≡ some (removed true))
          ⊎ ((r1 : Request) × (polls net res send now n r ≡ some (kept r1))
              × IsRunning net r1
              × (r.requests_made + n ≤ r1.requests_made)
              × (r1.attempt_count ≡ r.attempt_count)
              × (r1.time_between ≡ r.time_between)
              × (r1.next_request_time < now n))
    polls-IsRunning zero r running due spaced = inr (r, refl, running, omega arith, refl, refl, due)
    polls-IsRunning (suc n) r running due spaced =
        elim (polls-IsRunning n r running due (λ m below. spaced m (omega arith))) [
          | inl ended ↦ inl (rw ended refl)
          | inr (r1, still, running1, made, count, between, due1) ↦
              elim (run_request-IsRunning (send n) (now n) r1 running1 due1 (fits n)) [
                | inl ended ↦ inl (rw still ended)
                | inr (r2, next, running2, later, count2, between2, soon) ↦ inr (
                  r2,
                  rw still next,
                  running2,
                  omega arith,
                  count2 ∙ count,
                  between2 ∙ between,
                  omega (arith, spaced n (omega arith)),
                )
              ]
        ]

    -- An attempt with an address, at least 3 and at most 253 attempts, that is due at the first of
    -- some rounds, which are further apart than its time between two attempts. If Send takes
    -- every size, and FixForIPVersion keeps the place that an address stands for, then as many
    -- rounds as attempts are left, and two more, end it, and the user is told.
    pub polls-ends :
        (n : ℕ) (r : Request)
        → IsRunning net r
        → r.next_request_time < now 0
        → ((m : ℕ) → m < n → now m + r.time_between < now (suc m))
        → r.attempt_count + 1 < r.requests_made + n
        → polls net res send now n r ≡ some (removed true)
    polls-ends n r running due spaced many = elim (polls-IsRunning n r running due spaced) [
      | inl ended ↦ ended
      | inr (r1, still, running1, made, count, between, due1) ↦
          absurd (omega (arith, running1.made, made, count, many))
    ]
