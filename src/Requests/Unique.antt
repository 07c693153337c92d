-- ===== src/Requests/Unique.antt =====
-- The queue of the attempts to connect in patch/RakPeer.cpp over the operations that change it.
use raknet_proxy.Base.{
  ℕ, ◌≡◌, refl, sym, ◌∙◌, ap, Bool, false, ◌||◌, ◌⊎◌, List, [], ◌∷◌, ◌++◌, Option, none, some, ◌==◌,
  ltb, if◌then◌else◌, Bool-cases, if_elim, inl, inr,
}
use mathlib.Core.List.{append-nil, append_assoc}
use raknet_proxy.Systems.{RakNet, Address, Peers, same_address}
use raknet_proxy.Requests.{
  Resolver, Request, Dialer, Plan, is_pending, remove_pending, cancel_connection_attempt,
  new_request, request_connection, connect, connect_with_socket,
}
use raknet_proxy.Requests.Pending.{
  request_connection-cases, connect-cases, connect_with_socket-cases,
}
use raknet_proxy.Requests.Queue.{
  IsUnique, is_pending-same, IsUnique-append, is_pending-remove_self, is_pending-remove_other,
  IsUnique-remove, IsUnique-skip, IsUnique-place,
}
use raknet_proxy.Requests.Loop.{
  SendResult, too_large, slow, quick, Round, removed, kept, run_request, run_requests,
  run_queue_of_requests, send_request, after_send, has_made_all, tries_for_size,
}

after_send-address :
    (now mtu : ℕ) (result : SendResult) (r : Request)
    → (after_send now mtu result r).address ≡ r.address
unfolding after_send
after_send-address now mtu too_large r = refl
after_send-address now mtu slow r =
    if_elim (λ (q : Request). q.address ≡ r.address) _ (λ e. refl) (λ e. refl)
after_send-address now mtu quick r = refl

-- A request that stays keeps its place.
abbrev KeepsPlace : Request → Option Round → Type 0
KeepsPlace r none = Unit
KeepsPlace r (some (removed b)) = Unit
KeepsPlace r (some (kept r1)) = r1.address.place ≡ r.address.place

abbrev IsUniqueAfter : Option Dialer → Type 0
IsUniqueAfter none = Unit
IsUniqueAfter (some d) = IsUnique d.queue

Round-cases :
    (o : Option Round)
    → (o ≡ none) ⊎ (((b : Bool) × (o ≡ some (removed b))) ⊎ ((r : Request) × (o ≡ some (kept r))))
Round-cases none = inl refl
Round-cases (some (removed b)) = inr (inl (b, refl))
Round-cases (some (kept r)) = inr (inr (r, refl))

module _ (net : RakNet) (res : Resolver)
    (same : (s : ℕ) (a : Address) → (res.fix_for_ip_version s a).place ≡ a.place) where
  run_request-KeepsPlace :
      (send : Request → ℕ → SendResult) (now : ℕ) (r : Request)
      → KeepsPlace r (run_request net res send now r)
  unfolding run_request send_request
  run_request-KeepsPlace send now r = elim (Bool-cases (ltb r.next_request_time now)) [
    | inr early ↦ rw (early, KeepsPlace) refl
    | inl due ↦ elim (Bool-cases (has_made_all r || same_address r.address net.unassigned)) [
      | inl ended ↦ rw (due, KeepsPlace) (rw (ended, KeepsPlace) tt)
      | inr more ↦ elim (Bool-cases (tries_for_size r == 0)) [
        | inl few ↦ rw (due, KeepsPlace) (rw (more, KeepsPlace) (rw (few, KeepsPlace) tt))
        | inr enough ↦
            rw (due, KeepsPlace)
              (rw (more, KeepsPlace)
                (rw (enough, KeepsPlace)
                  (ap (λ a. a.place) (after_send-address now _ _ _) ∙ same _ r.address)))
      ]
    ]
  ]

  run_requests-IsUnique :
      (send : Request → ℕ → SendResult) (now : ℕ) (rs : List Request) (d : Dialer)
      → IsUnique (d.queue ++ rs)
      → IsUniqueAfter (run_requests net res send now rs d)
  unfolding run_requests
  run_requests-IsUnique send now [] d one = rw append-nil at one
  run_requests-IsUnique send now (r ∷ rs) d one =
      elim (Round-cases (run_request net res send now r)) [
        | inl e ↦ rw (e, IsUniqueAfter) tt
        | inr (inl (b, e)) ↦
            rw (e, IsUniqueAfter)
              (run_requests-IsUnique send now rs _ (IsUnique-skip d.queue r rs one))
        | inr (inr (r1, e)) ↦
            let place : r1.address.place ≡ r.address.place =
              rw (e, KeepsPlace) at (run_request-KeepsPlace send now r) in
            rw (e, IsUniqueAfter)
              (run_requests-IsUnique send now rs _
                (rw (append_assoc d.queue (r1 ∷ []) rs) (IsUnique-place d.queue r r1 rs place one)))
      ]

  request_connection-IsUnique :
      (plan : Plan) (index : ℕ) (socket : Option ℕ) (a : Address) (now : ℕ) (d : Dialer)
      → IsUnique d.queue
      → IsUnique (request_connection net res plan index socket a now d).1.queue
  unfolding new_request
  request_connection-IsUnique plan index socket a now d one =
      elim (request_connection-cases net res plan index socket a now d) [
        | inl (other, e) ↦ rw e one
        | inr (started, new, e) ↦ rw e (IsUnique-append d.queue _ one new)
      ]

  connect-IsUnique :
      (plan : Plan) (now : ℕ) (d : Dialer)
      → IsUnique d.queue
      → IsUnique (connect net res plan now d).1.queue
  connect-IsUnique plan now d one = elim (connect-cases net res plan now d) [
    | inl (other, e) ↦ rw e one
    | inr (index, a, e) ↦ rw e (request_connection-IsUnique plan index none a now d one)
  ]

  connect_with_socket-IsUnique :
      (plan : Plan) (socket : Option ℕ) (now : ℕ) (d : Dialer)
      → IsUnique d.queue
      → IsUnique (connect_with_socket net res plan socket now d).1.queue
  connect_with_socket-IsUnique plan socket now d one =
      elim (connect_with_socket-cases net res plan socket now d) [
        | inl (other, e) ↦ rw e one
        | inr (s, a, e) ↦ rw e (request_connection-IsUnique plan 0 (some s) a now d one)
      ]

  -- The attempts over time: Connect and ConnectWithSocket, CancelConnectionAttempt, the loop of the
  -- network thread, and any change to the remote systems.
  pub data Reach : Dialer → Type 0 where
    starts : (d : Dialer) → d.queue ≡ [] → Reach d
    connects :
        (d : Dialer) (plan : Plan) (now : ℕ)
        → Reach d
        → (d' : Dialer) → (connect net res plan now d).1 ≡ d'
        → Reach d'
    connects_socket :
        (d : Dialer) (plan : Plan) (socket : Option ℕ) (now : ℕ)
        → Reach d
        → (d' : Dialer) → (connect_with_socket net res plan socket now d).1 ≡ d'
        → Reach d'
    cancels :
        (d : Dialer) (a : Address)
        → Reach d
        → (d' : Dialer) → cancel_connection_attempt a d ≡ d'
        → Reach d'
    runs :
        (d : Dialer) (send : Request → ℕ → SendResult) (now : ℕ)
        → Reach d
        → (d' : Dialer) → run_queue_of_requests net res send now d ≡ some d'
        → Reach d'
    others :
        (d : Dialer) (p : Peers) → Reach d → (d' : Dialer) → record d { peers = p } ≡ d' → Reach d'

  Reach-IsUnique : (d : Dialer) → Reach d → IsUnique d.queue
  unfolding cancel_connection_attempt run_queue_of_requests
  Reach-IsUnique d (starts _ e) = rw e tt
  Reach-IsUnique d (connects b plan now past _ e) =
      rw (← e) (connect-IsUnique plan now b (Reach-IsUnique b past))
  Reach-IsUnique d (connects_socket b plan socket now past _ e) =
      rw (← e) (connect_with_socket-IsUnique plan socket now b (Reach-IsUnique b past))
  Reach-IsUnique d (cancels b a past _ e) =
      rw (← e) (IsUnique-remove a b.queue (Reach-IsUnique b past))
  Reach-IsUnique d (runs b send now past _ e) =
      let after =
        run_requests-IsUnique send now b.queue (record b { queue = [] }) (Reach-IsUnique b past) in
      rw e at after
  Reach-IsUnique d (others b p past _ e) = rw (← e) (Reach-IsUnique b past)

  -- After any run of the operations from an empty queue: an address stands in the queue once at
  -- most, and CancelConnectionAttempt takes off the attempts for an address that stands for the
  -- same place, and no other. FixForIPVersion keeps the place that an address stands for.
  pub Reach-cancel_connection_attempt :
      (d : Dialer) (a b : Address)
      → Reach d
      → IsUnique d.queue
        × (is_pending b (cancel_connection_attempt a d).queue
            ≡ (if same_address a b then false else is_pending b d.queue))
  unfolding cancel_connection_attempt
  Reach-cancel_connection_attempt d a b past =
      let one = Reach-IsUnique d past in
      (
        one,
        elim (Bool-cases (same_address a b)) [
          | inl hit ↦ rw hit (
              sym (is_pending-same a b (remove_pending a d.queue) hit)
              ∙ is_pending-remove_self a d.queue one)
          | inr miss ↦ rw miss (is_pending-remove_other a b d.queue miss)
        ],
      )
