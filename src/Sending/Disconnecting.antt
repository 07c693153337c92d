-- ===== src/Sending/Disconnecting.antt =====
-- A command of patch/RakPeer.cpp that sets the state of its connection to a disconnecting one: what
-- is sent to the same system afterwards.
use raknet_proxy.Base.{
  ℕ, ◌≡◌, refl, ◌∙◌, ap, Bool, true, false, List, [], ◌∷◌, Option, none, some, ◌==◌, if◌then◌else◌,
  Bool-cases, Option-cases, option_elim, if_elim, inl, inr, arith,
}
use raknet_proxy.Systems.{
  RakNet, System, Address, Peers, ConnectMode, no_action, disconnect_asap, disconnect_asap_silently,
  disconnect_on_no_ack, requested_connection, handling_connection_request, unverified_sender,
  fully_connected, same_address, same_guid, set, hash_index, find_entry, get_remote_system_index,
}
use raknet_proxy.Systems.Operations.{get_remote_system, get_remote_system_from_address}
use raknet_proxy.Systems.Guids.{get_index_from_system_address, hinted}
use raknet_proxy.Sending.{Target, Constants, Command}
use raknet_proxy.Sending.Delivery.{
  Network, is_disconnecting, is_no_action, unicast_list, target_index, recipients, deliver,
  send_immediate, free_unused, change_mode, set_connect_mode, run_send,
}

-- A target that names an address and neither a GUID nor a place in remoteSystemList.
pub record IsPlainAddress (net : RakNet) (t : Target) : Type 0 where
  pub has_address : same_address t.address net.unassigned ≡ false
  pub no_guid : same_guid t.guid net.unassigned_guid ≡ true
  pub no_hint : (t.address.system_index == net.no_index) ≡ true

find_entry-modes :
    (s s' : ℕ → System) (a : Address) (is : List ℕ)
    → ((j : ℕ) → (s' j).address ≡ (s j).address)
    → find_entry s' a is ≡ find_entry s a is
unfolding find_entry
find_entry-modes s s' a [] same = refl
find_entry-modes s s' a (i ∷ is) same = rw (same i, find_entry-modes s s' a is same) refl

abbrev with_mode : ℕ → ConnectMode → Peers → Peers
with_mode i mode p = record p {
  systems = set i (record (p.systems i) { connect_mode = mode }) p.systems;
}

set-mode-address :
    (s : ℕ → System) (i : ℕ) (mode : ConnectMode) (j : ℕ)
    → (set i (record (s i) { connect_mode = mode }) s j).address ≡ (s j).address
set-mode-address s i mode j = elim (Bool-cases (i == j)) [
  | inl here ↦ let same : i ≡ j = ground (arith, here) in rw here (ap (λ l. (s l).address) same)
  | inr other ↦ rw other refl
]

is_disconnecting-acts :
    (mode : ConnectMode) → is_disconnecting mode ≡ true → is_no_action mode ≡ false
is_disconnecting-acts no_action e = cc
is_disconnecting-acts disconnect_asap e = refl
is_disconnecting-acts disconnect_asap_silently e = refl
is_disconnecting-acts disconnect_on_no_ack e = refl
is_disconnecting-acts requested_connection e = refl
is_disconnecting-acts handling_connection_request e = refl
is_disconnecting-acts unverified_sender e = refl
is_disconnecting-acts fully_connected e = refl

same_self : (i : ℕ) → (i == i) ≡ true
same_self i = ground arith

module _ (net : RakNet) (k : Constants) where
  get_remote_system_index-with_mode :
      (p : Peers) (a : Address) (i : ℕ) (mode : ConnectMode)
      → get_remote_system_index net (with_mode i mode p) a ≡ get_remote_system_index net p a
  unfolding get_remote_system_index hash_index
  get_remote_system_index-with_mode p a i mode =
      find_entry-modes p.systems (with_mode i mode p).systems a _
        (set-mode-address p.systems i mode)

  pub target_index-plain :
      (t : Target) (n : Network)
      → IsPlainAddress net t
      → target_index net k t n
        ≡ (get_remote_system_index net n.sender.peers t.address, n.sender.peers)
  unfolding target_index get_index_from_system_address hinted
  target_index-plain t n plain = rw plain.has_address (rw plain.no_hint refl)

  change_mode-sent : (c : Command) (n : Network) → (change_mode net k c n).sent ≡ n.sent
  unfolding change_mode set_connect_mode
  change_mode-sent c n =
      if_elim (λ (m : Network). m.sent ≡ n.sent) (is_no_action c.mode) (λ e. refl)
        (λ e. option_elim (λ (m : Network). m.sent ≡ n.sent) _ (λ f. refl) (λ i f. refl))

  free_unused-sent :
      (c : Command) (used : Bool) (n : Network) → (free_unused net k c used n).sent ≡ n.sent
  unfolding free_unused
  free_unused-sent c true n = refl
  free_unused-sent c false n = refl

  -- No one listens.
  send_immediate-nobody :
      (d : Command) (time : ℕ) (n : Network)
      → IsPlainAddress net d.target
      → d.broadcast ≡ false
      → unicast_list n.sender.peers (get_remote_system_index net n.sender.peers d.target.address)
        ≡ []
      → (send_immediate net k d true time n).1.sent ≡ n.sent
  unfolding send_immediate recipients deliver
  send_immediate-nobody d time n plain one nobody =
      rw (target_index-plain d.target n plain) (rw one (rw nobody refl))

  run_send-nobody :
      (d : Command) (time : ℕ) (n : Network)
      → IsPlainAddress net d.target
      → d.broadcast ≡ false
      → unicast_list n.sender.peers (get_remote_system_index net n.sender.peers d.target.address)
        ≡ []
      → (run_send net k d time n).sent ≡ n.sent
  unfolding run_send
  run_send-nobody d time n plain one nobody =
      change_mode-sent d _
      ∙ free_unused-sent d _ _
      ∙ send_immediate-nobody d time n plain one nobody

  get_remote_system-none :
      (p : Peers) (t : Target)
      → IsPlainAddress net t
      → get_remote_system_index net p t.address ≡ none
      → get_remote_system net p t.address t.guid true true ≡ none
  unfolding get_remote_system get_remote_system_from_address
  get_remote_system-none p t plain e = rw plain.no_guid (rw plain.has_address (rw e refl))

  get_remote_system-some :
      (p : Peers) (t : Target) (i : ℕ)
      → IsPlainAddress net t
      → get_remote_system_index net p t.address ≡ some i
      → get_remote_system net p t.address t.guid true true
        ≡ (if (p.systems i).is_active then some i else none)
  unfolding get_remote_system get_remote_system_from_address
  get_remote_system-some p t i plain e = rw plain.no_guid (rw plain.has_address (rw e refl))

  unicast_list-with_mode :
      (p : Peers) (i : ℕ) (mode : ConnectMode)
      → is_disconnecting mode ≡ true
      → unicast_list (with_mode i mode p) (some i) ≡ []
  unfolding unicast_list
  unicast_list-with_mode p i mode ends = elim (Bool-cases (p.systems i).is_active) [
    | inl live ↦ rw (same_self i) (rw (live, ends) refl)
    | inr idle ↦ rw (same_self i) (rw idle refl)
  ]

  unicast_list-idle :
      (p : Peers) (i : ℕ) → (p.systems i).is_active ≡ false → unicast_list p (some i) ≡ []
  unfolding unicast_list
  unicast_list-idle p i idle = rw idle refl

  unicast_list-none : (p : Peers) → unicast_list p none ≡ []
  unfolding unicast_list
  unicast_list-none p = refl

  change_mode-some :
      (c : Command) (n : Network) (r : Option ℕ)
      → is_disconnecting c.mode ≡ true
      → get_remote_system net n.sender.peers c.target.address c.target.guid true true ≡ r
      → (change_mode net k c n).sender.peers
        ≡ elim r [ none ↦ n.sender.peers | some i ↦ with_mode i c.mode n.sender.peers ]
  unfolding change_mode set_connect_mode
  change_mode-some c n none ends e = rw (is_disconnecting-acts c.mode ends) (rw e refl)
  change_mode-some c n (some i) ends e = rw (is_disconnecting-acts c.mode ends) (rw e refl)

  change_mode-nobody :
      (c : Command) (n : Network)
      → IsPlainAddress net c.target
      → is_disconnecting c.mode ≡ true
      → let p = (change_mode net k c n).sender.peers in
        unicast_list p (get_remote_system_index net p c.target.address) ≡ []
  change_mode-nobody c n plain ends =
      let p = n.sender.peers in
      elim (Option-cases (get_remote_system_index net p c.target.address)) [
        | inl e ↦
            rw (change_mode-some c n none ends (get_remote_system-none p c.target plain e))
              (rw e (unicast_list-none p))
        | inr (i, e) ↦ elim (Bool-cases (p.systems i).is_active) [
          | inl live ↦
              rw
                (change_mode-some c n (some i) ends
                  (get_remote_system-some p c.target i plain e ∙ rw live refl))
                (rw (get_remote_system_index-with_mode p c.target.address i c.mode)
                  (rw e (unicast_list-with_mode p i c.mode ends)))
          | inr idle ↦
              rw
                (change_mode-some c n none ends
                  (get_remote_system-some p c.target i plain e ∙ rw idle refl))
                (rw e (unicast_list-idle p i idle))
        ]
      ]

  -- Two commands to the same target, which has an address, no GUID and no hint: the first sets a
  -- disconnecting state of the connection, and the second is no broadcast. Then the second reaches
  -- no reliability layer.
  pub run_send-Silent :
      (c d : Command) (time later : ℕ) (n : Network)
      → IsPlainAddress net c.target
      → is_disconnecting c.mode ≡ true
      → d.broadcast ≡ false
      → d.target ≡ c.target
      → let n' = run_send net k c time n in (run_send net k d later n').sent ≡ n'.sent
  unfolding run_send
  run_send-Silent c d time later n plain ends one same =
      run_send-nobody d later (run_send net k c time n) (rw same plain) one
        (rw same (change_mode-nobody c _ plain ends))
