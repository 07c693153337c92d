-- ===== src/Requests/Pending.antt =====
-- Connect, ConnectWithSocket and GetConnectionState of patch/RakPeer.cpp.
use raknet_proxy.Base.{
  ℕ, ◌≡◌, ◌≢◌, refl, ◌∙◌, ◌<◌, Bool, true, false, ◌&&◌, ◌||◌, ◌⊎◌, ◌↔◌, List, [], ◌∷◌, ◌++◌, Option,
  none, some, leb, Bool-cases, Option-cases, inl, inr, arith,
}
use raknet_proxy.Systems.{RakNet, Address, Guid, Peers, same_address, first_where}
use raknet_proxy.Systems.Scans.{first_where-some, first_where-none, scan_address_lem}
use raknet_proxy.Systems.Operations.{get_remote_system_from_address}
use raknet_proxy.Requests.{
  Resolver, Request, Dialer, attempt_started, pending, Plan, is_pending, new_request,
  request_connection, connect, connect_with_socket, send_connection_request, send_socket_request,
  get_connection_state,
}

is_pending-last :
    (a : Address) (rs : List Request) (r : Request)
    → same_address r.address a ≡ true
    → is_pending a (rs ++ r ∷ []) ≡ true
unfolding is_pending
is_pending-last a [] r e = ground (arith, e)
is_pending-last a (q ∷ rs) r e = ground (arith, e, is_pending-last a rs r e)

both : (a b : Bool) → (a && b) ≡ true → (a ≡ true) × (b ≡ true)
both true b e = (refl, e)
both false b e = cc

module _ (net : RakNet) (res : Resolver) where
  -- What a request for a connection leaves: nothing new, or one attempt more for a new address.
  pub request_connection-cases :
      (plan : Plan) (index : ℕ) (socket : Option ℕ) (a : Address) (now : ℕ) (d : Dialer)
      → let r = request_connection net res plan index socket a now d in
        ((r.0 ≢ attempt_started) × (r.1 ≡ d))
        ⊎ ((r.0 ≡ attempt_started)
            × (is_pending a d.queue ≡ false)
            × (r.1
                ≡ record d { queue = d.queue ++ new_request net res plan index socket a now ∷ [] }))
  unfolding request_connection
  request_connection-cases plan index socket a now d =
      elim (Option-cases (get_remote_system_from_address net d.peers a false true)) [
        | inr (i, e) ↦ inl (rw (e, request_connection) (λ f. cc), rw (e, request_connection) refl)
        | inl e ↦ elim (Bool-cases (is_pending a d.queue)) [
          | inl busy ↦ inl (
            rw (e, request_connection) (rw busy (λ f. cc)),
            rw (e, request_connection) (rw busy refl),
          )
          | inr free ↦ inr (
            rw (e, request_connection) (rw free refl),
            free,
            rw (e, request_connection) (rw free refl),
          )
        ]
      ]

  -- Connect leaves the state, or asks for a connection.
  pub connect-cases :
      (plan : Plan) (now : ℕ) (d : Dialer)
      → let r = connect net res plan now d in
        ((r.0 ≢ attempt_started) × (r.1 ≡ d))
        ⊎ ((index : ℕ) × (a : Address) × (r ≡ request_connection net res plan index none a now d))
  unfolding connect send_connection_request request_connection new_request
  connect-cases plan now d = elim (Option-cases plan.host) [
    | inl e ↦ inl (rw (e, connect) (λ f. cc), rw (e, connect) refl)
    | inr (host, e) ↦ elim (Bool-cases (d.peers.ended || leb d.sockets plan.socket_index)) [
      | inl refused ↦
          inl (rw (e, connect) (rw refused (λ f. cc)), rw (e, connect) (rw refused refl))
      | inr able ↦
          elim (Option-cases (
            res.resolve (some (res.socket_at (res.socket_of_user plan.socket_index))) host
              plan.port)) [
                | inl f ↦ inl (
                  rw (e, connect) (rw able (rw (f, send_connection_request) (λ g. cc))),
                  rw (e, connect) (rw able (rw (f, send_connection_request) refl)),
                )
                | inr (a, f) ↦ inr (
                  res.socket_of_user plan.socket_index,
                  a,
                  rw (e, connect) (rw able (rw (f, send_connection_request) refl)),
                )
              ]
    ]
  ]

  pub connect_with_socket-cases :
      (plan : Plan) (socket : Option ℕ) (now : ℕ) (d : Dialer)
      → let r = connect_with_socket net res plan socket now d in
        ((r.0 ≢ attempt_started) × (r.1 ≡ d))
        ⊎ ((s : ℕ) × (a : Address) × (r ≡ request_connection net res plan 0 (some s) a now d))
  unfolding connect_with_socket send_socket_request request_connection new_request
  connect_with_socket-cases plan none now d = inl (λ f. cc, refl)
  connect_with_socket-cases plan (some s) now d = elim (Option-cases plan.host) [
    | inl e ↦ inl (rw (e, connect_with_socket) (λ f. cc), rw (e, connect_with_socket) refl)
    | inr (host, e) ↦ elim (Bool-cases d.peers.ended) [
      | inl refused ↦ inl (
        rw (e, connect_with_socket) (rw refused (λ f. cc)),
        rw (e, connect_with_socket) (rw refused refl),
      )
      | inr able ↦
          let a : Address = elim (res.resolve none host plan.port) [
            | none ↦ net.unassigned
            | some b ↦ b
          ] in
          inr (s, a, rw (e, connect_with_socket) (rw able refl))
    ]
  ]

  -- An active system has the place of this address.
  abbrev pub IsTaken : Peers → Address → Type 0
  IsTaken p a =
      (i : ℕ) × (i < p.maximum)
      × ((p.systems i).is_active ≡ true)
      × (same_address (p.systems i).address a ≡ true)

  IsTaken-cases :
      (p : Peers) (a : Address)
      → same_address a net.unassigned ≡ false
      → ((get_remote_system_from_address net p a false true ≡ none) × (IsTaken p a → ⊥))
        ⊎ (((i : ℕ) × (get_remote_system_from_address net p a false true ≡ some i)) × IsTaken p a)
  unfolding get_remote_system_from_address
  IsTaken-cases p a assigned =
      let test = λ (j : ℕ). same_address (p.systems j).address a && (p.systems j).is_active in
      let scan = scan_address_lem p.systems a true p.maximum 0 none in
      elim (Option-cases (first_where test p.maximum 0)) [
        | inl e ↦ inl (
          rw assigned (scan ∙ rw e refl),
          λ (i, below, live, hit).
              let missed = first_where-none test p.maximum 0 i e (omega arith) (omega arith) in
              ground (arith, missed, live, hit),
        )
        | inr (i, e) ↦
            let (hit, low, below) = first_where-some test p.maximum 0 i e in
            let parts = both (same_address (p.systems i).address a) (p.systems i).is_active hit in
            inr ((i, rw assigned (scan ∙ rw e refl)), (i, omega (arith, below), parts.1, parts.0))
      ]

  connect-reduces :
      (plan : Plan) (host : List ℕ) (a : Address) (now : ℕ) (d : Dialer)
      → plan.host ≡ some host
      → res.resolve (some (res.socket_at (res.socket_of_user plan.socket_index))) host plan.port
        ≡ some a
      → d.peers.ended ≡ false
      → plan.socket_index < d.sockets
      → connect net res plan now d
        ≡ request_connection net res plan (res.socket_of_user plan.socket_index) none a now d
  unfolding connect send_connection_request request_connection new_request
  connect-reduces plan host a now d e f runs below =
      let inside : leb d.sockets plan.socket_index ≡ false = ground (arith, below) in
      rw (e, connect) (rw (runs, inside) (rw (f, send_connection_request) refl))

  request_connection_iff :
      (plan : Plan) (index : ℕ) (socket : Option ℕ) (a : Address) (now : ℕ) (d : Dialer)
      → same_address a net.unassigned ≡ false
      → ((request_connection net res plan index socket a now d).0 ≡ attempt_started)
        ↔ ((IsTaken d.peers a → ⊥) × (is_pending a d.queue ≡ false))
  unfolding request_connection
  request_connection_iff plan index socket a now d assigned =
      elim (IsTaken-cases d.peers a assigned) [
        | inl (e, nobody) ↦ elim (Bool-cases (is_pending a d.queue)) [
          | inl busy ↦ rw (e, request_connection) (rw busy ((λ z. cc), (λ z. cc (z.1))))
          | inr free ↦ rw (e, request_connection) (rw free ((λ z. (nobody, refl)), (λ z. refl)))
        ]
        | inr ((i, e), taken) ↦ rw (e, request_connection) ((λ z. cc), (λ z. elim (z.0 taken) [ ]))
      ]

  -- Connect of a name that resolves to an address, with a socket that exists, on a peer that runs:
  -- an attempt starts exactly if no active system has the address and no attempt for it waits; then
  -- GetConnectionState says that it is pending, and otherwise nothing has changed.
  pub connect-started_iff :
      (plan : Plan) (host : List ℕ) (a : Address) (g : Guid) (now : ℕ) (d : Dialer)
      → plan.host ≡ some host
      → res.resolve (some (res.socket_at (res.socket_of_user plan.socket_index))) host plan.port
        ≡ some a
      → same_address a net.unassigned ≡ false
      → d.peers.ended ≡ false
      → plan.socket_index < d.sockets
      → let r = connect net res plan now d in
        ((r.0 ≡ attempt_started) ↔ ((IsTaken d.peers a → ⊥) × (is_pending a d.queue ≡ false)))
        × (r.0 ≡ attempt_started → get_connection_state net res a g r.1 ≡ pending)
        × (r.0 ≢ attempt_started → r.1 ≡ d)
  unfolding get_connection_state new_request
  connect-started_iff plan host a g now d e f assigned runs below =
      let index = res.socket_of_user plan.socket_index in
      let cases = request_connection-cases plan index none a now d in
      rw (connect-reduces plan host a now d e f runs below) (
        request_connection_iff plan index none a now d assigned,
        elim cases [
          | inl (other, same) ↦ λ z. elim (other z) [ ]
          | inr (started, new, same) ↦ λ z. rw same (
              rw assigned (
                rw
                  (is_pending-last a d.queue (new_request net res plan index none a now)
                    (ground arith))
                  refl))
        ],
        elim cases [
          | inl (other, same) ↦ λ z. same
          | inr (started, new, same) ↦ λ z. elim (z started) [ ]
        ],
      )
