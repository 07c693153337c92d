-- ===== src/Sending/Recipients.antt =====
-- To which systems SendImmediate of patch/RakPeer.cpp sends, and who frees the data.
use raknet_proxy.Base.{
  ℕ, zero, suc, ◌≡◌, refl, sym, ◌∙◌, ap, ◌+◌, Bool, true, false, not, ◌&&◌, List, [], ◌∷◌, ◌++◌,
  Option, none, some, ◌==◌, if◌then◌else◌, ltb, leb, All, Bool-cases, inl, inr, arith,
}
use raknet_proxy.Systems.{RakNet, Peers, System, same_address}
use raknet_proxy.Sending.{Constants, Command}
use raknet_proxy.Sending.Delivery.{
  Delivery, Network, with_peers, is_disconnecting, is_last, is_excluded, unicast_list,
  broadcast_list, target_index, send_to, deliver, recipients, send_immediate,
}
use mathlib.Core.List.{append-nil, append_assoc}

-- How many of these calls go to a system.
abbrev pub calls_to : ℕ → List Delivery → ℕ
calls_to j [] = 0
calls_to j (d ∷ ds) = (if d.system == j then 1 else 0) + calls_to j ds

-- The calls for a list of recipients.
abbrev pub calls : Command → Bool → ℕ → List ℕ → List Delivery
calls c u time [] = []
calls c u time (i ∷ is) =
    record { system = i; command = c; copies = not (u && is_last is); time = time }
    ∷ calls c u time is

-- How often an index is in a list.
abbrev count : ℕ → List ℕ → ℕ
count j [] = 0
count j (i ∷ is) = (if i == j then 1 else 0) + count j is

calls_to-calls :
    (c : Command) (u : Bool) (time j : ℕ) (is : List ℕ)
    → calls_to j (calls c u time is) ≡ count j is
calls_to-calls c u time j [] = refl
calls_to-calls c u time j (i ∷ is) =
    ap (λ m. (if i == j then 1 else 0) + m) (calls_to-calls c u time j is)

-- The calls send this command now.
abbrev pub Sends : Command → ℕ → List Delivery → Type 0
Sends c time ds = All (λ d. (d.command ≡ c) × (d.time ≡ time)) ds

Sends-calls : (c : Command) (u : Bool) (time : ℕ) (is : List ℕ) → Sends c time (calls c u time is)
Sends-calls c u time [] = tt
Sends-calls c u time (i ∷ is) = ((refl, refl), Sends-calls c u time is)

append-eq : (a b : List Delivery) (d : Delivery) → (a ++ d ∷ []) ++ b ≡ a ++ d ∷ b
append-eq a b d = append_assoc a (d ∷ []) b

-- What a delivery adds to the calls, and that it leaves the rest.
abbrev pub Adds : List Delivery → Network → Network → Type 0
Adds ds n n' =
    (n'.sent ≡ n.sent ++ ds)
    × (n'.sender ≡ n.sender)
    × (n'.freed ≡ n.freed)
    × (n'.queries ≡ n.queries)

Adds-trans :
    (d : Delivery) (ds : List Delivery) (a b c : Network)
    → Adds (d ∷ []) a b
    → Adds ds b c
    → Adds (d ∷ ds) a c
Adds-trans d ds a b c (e1, s1, f1, q1) (e2, s2, f2, q2) =
    (e2 ∙ ap (λ l. l ++ ds) e1 ∙ append-eq a.sent ds d, s2 ∙ s1, f2 ∙ f1, q2 ∙ q1)

module _ (net : RakNet) (k : Constants) where
  send_to-Adds :
      (c : Command) (use_data : Bool) (time i : ℕ) (n : Network)
      → Adds
          (record { system = i; command = c; copies = not use_data; time = time } ∷ [])
          n
          (send_to net k c use_data time i n)
  unfolding send_to
  send_to-Adds c use_data time i n = (refl, refl, refl, refl)

  and_false : (u : Bool) → (u && false) ≡ false
  and_false true = refl
  and_false false = refl

  pub deliver-Adds :
      (c : Command) (u : Bool) (time : ℕ) (is : List ℕ) (n : Network)
      → let r = deliver net k c u time is false n in
        (r.0 ≡ (u && not (is_last is))) × Adds (calls c u time is) n r.1
  unfolding deliver
  deliver-Adds c u time [] n = (sym (and_false u), (sym (append-nil n.sent), refl, refl, refl))
  deliver-Adds c true time (i ∷ []) n = (refl, send_to-Adds c true time i n)
  deliver-Adds c false time (i ∷ []) n = (refl, send_to-Adds c false time i n)
  deliver-Adds c true time (i ∷ j ∷ is) n =
      let n1 = send_to net k c false time i n in
      let (used, adds) = deliver-Adds c true time (j ∷ is) n1 in
      (
        used,
        Adds-trans (record { system = i; command = c; copies = true; time = time })
            (calls c true time (j ∷ is)) n n1 (deliver net k c true time (j ∷ is) false n1).1
            (send_to-Adds c false time i n) adds,
      )
  deliver-Adds c false time (i ∷ j ∷ is) n =
      let n1 = send_to net k c false time i n in
      let (used, adds) = deliver-Adds c false time (j ∷ is) n1 in
      (
        used,
        Adds-trans (record { system = i; command = c; copies = true; time = time })
            (calls c false time (j ∷ is)) n n1 (deliver net k c false time (j ∷ is) false n1).1
            (send_to-Adds c false time i n) adds,
      )

  -- The system with this index gets the message: in a broadcast each active system with an
  -- address but for the target, else the target, if it is active and is not being disconnected.
  abbrev pub listens : (ℕ → System) → Option ℕ → ℕ → Bool
  listens systems target j =
      not (is_excluded target j)
      && ((systems j).is_active && not (same_address (systems j).address net.unassigned))

  abbrev pub receives : Command → Option ℕ → Peers → ℕ → Bool
  receives c target p j =
      if c.broadcast
      then ltb j p.maximum && listens p.systems target j
      else is_excluded target j
        && ((p.systems j).is_active && not (is_disconnecting (p.systems j).connect_mode))

  both_guards {ℓ} :
      {A : Type ℓ} (a b : Bool) (x y : A)
      → (if a then y else if b then x else y) ≡ (if not a && b then x else y)
  both_guards true b x y = refl
  both_guards false b x y = refl

  broadcast_list-suc :
      (systems : ℕ → System) (target : Option ℕ) (n i : ℕ)
      → broadcast_list net k systems target (suc n) i ≡ (
          if listens systems target i
          then i ∷ broadcast_list net k systems target n (suc i)
          else broadcast_list net k systems target n (suc i))
  unfolding broadcast_list
  broadcast_list-suc systems target n i = both_guards (is_excluded target i) _ _ _

  count-guarded :
      (b : Bool) (j i : ℕ) (r : List ℕ)
      → count j (if b then i ∷ r else r) ≡ (if b && (i == j) then 1 else 0) + count j r
  count-guarded true j i r = refl
  count-guarded false j i r = omega arith

  range_here : (i j n : ℕ) → (i == j) ≡ true → (leb i j && ltb j (i + suc n)) ≡ true
  range_here i j n e = ground arith

  range_before : (i j n : ℕ) → (i == j) ≡ true → (leb (suc i) j && ltb j (suc i + n)) ≡ false
  range_before i j n e = ground arith

  range_next :
      (i j n : ℕ)
      → (i == j) ≡ false
      → (leb i j && ltb j (i + suc n)) ≡ (leb (suc i) j && ltb j (suc i + n))
  range_next i j n e = ground arith

  range_none : (i j : ℕ) → (leb i j && ltb j (i + 0)) ≡ false
  range_none i j = ground arith

  range_whole : (j n : ℕ) → (leb 0 j && ltb j (0 + n)) ≡ ltb j n
  range_whole j n = ground arith

  counted : (b : Bool) → (if b && true then 1 else 0) + 0 ≡ (if b then 1 else 0)
  counted true = refl
  counted false = refl

  passed_over : (b : Bool) (m : ℕ) → (if b && false then 1 else 0) + m ≡ m
  passed_over true m = omega arith
  passed_over false m = omega arith

  count-broadcast_list-zero :
      (systems : ℕ → System) (target : Option ℕ) (j i : ℕ)
      → count j (broadcast_list net k systems target 0 i) ≡ 0
  unfolding broadcast_list
  count-broadcast_list-zero systems target j i = refl

  count-broadcast_list :
      (systems : ℕ → System) (target : Option ℕ) (j n i : ℕ)
      → count j (broadcast_list net k systems target n i)
        ≡ (if (leb i j && ltb j (i + n)) && listens systems target j then 1 else 0)
  count-broadcast_list systems target j zero i =
      rw (range_none i j) (count-broadcast_list-zero systems target j i)
  count-broadcast_list systems target j (suc n) i =
      let ih = count-broadcast_list systems target j n (suc i) in
      let rest = broadcast_list net k systems target n (suc i) in
      rw (broadcast_list-suc systems target n i) (
        count-guarded (listens systems target i) j i rest ∙ elim (Bool-cases (i == j)) [
          | inl here ↦
              let same : i ≡ j = ground (arith, here) in
              rw (here, ih, range_here i j n here, range_before i j n here, same)
                (counted (listens systems target j))
          | inr other ↦
              rw (other, ih, range_next i j n other) (passed_over (listens systems target i) _)
        ])

  count-unicast_list :
      (p : Peers) (target : Option ℕ) (j : ℕ)
      → count j (unicast_list p target) ≡ (
          if is_excluded target j
            && ((p.systems j).is_active && not (is_disconnecting (p.systems j).connect_mode))
          then 1
          else 0)
  unfolding unicast_list
  count-unicast_list p none j = refl
  count-unicast_list p (some i) j =
      let ready =
        λ (l : ℕ). (p.systems l).is_active && not (is_disconnecting (p.systems l).connect_mode) in
      count-guarded (ready i) j i [] ∙ elim (Bool-cases (j == i)) [
        | inl here ↦
            let same : j ≡ i = ground (arith, here) in
            let back : (i == j) ≡ true = ground (arith, here) in
            rw (here, back, same) (counted (ready i))
        | inr other ↦
            let back : (i == j) ≡ false = ground (arith, other) in
            rw (other, back) (passed_over (ready i) 0)
      ]

  count-recipients :
      (c : Command) (target : Option ℕ) (p : Peers) (j : ℕ)
      → count j (recipients net k c target p) ≡ (if receives c target p j then 1 else 0)
  unfolding recipients
  count-recipients c target p j = elim (Bool-cases c.broadcast) [
    | inl all ↦
        rw all
          (count-broadcast_list p.systems target j p.maximum 0 ∙ rw (range_whole j p.maximum) refl)
    | inr one ↦ rw one (count-unicast_list p target j)
  ]

  -- SendImmediate calls ReliabilityLayer::Send with the command and the time once for each system
  -- that gets the message and for no other. In a broadcast these are the active systems with an
  -- address, but for the target; else the target, if it is active and is not being
  -- disconnected. What was sent before, the queues and the freed data stay.
  pub send_immediate-Sends :
      (c : Command) (u : Bool) (time : ℕ) (n : Network)
      → let r = target_index net k c.target n in
        (ds : List Delivery) × Adds ds (with_peers r.1 n) (send_immediate net k c u time n).1
        × Sends c time ds
        × ((j : ℕ) → calls_to j ds ≡ (if receives c r.0 r.1 j then 1 else 0))
  unfolding send_immediate
  send_immediate-Sends c u time n =
      let (target, p) = target_index net k c.target n in
      let is = recipients net k c target p in
      (
        calls c u time is,
        (deliver-Adds c u time is (with_peers p n)).1,
        Sends-calls c u time is,
        λ j. calls_to-calls c u time j is ∙ count-recipients c target p j,
      )
