-- ===== src/Sending/Ownership.antt =====
-- Who owns the data of a command in patch/RakPeer.cpp: the queue, a reliability layer, or nobody
-- since it has been freed.
use raknet_proxy.Base.{
  ℕ, ◌≡◌, refl, sym, ◌∙◌, ◌+◌, Bool, true, false, not, ◌||◌, List, [], ◌∷◌, ◌++◌, Option, none,
  some, if◌then◌else◌, length, length-append, All, Bool-cases, option_elim, if_elim, inl, inr,
  arith,
}
use raknet_proxy.Systems.{RakNet}
use raknet_proxy.Systems.Operations.{change_address, get_remote_system}
use raknet_proxy.Sending.{
  Target, Constants, Command, Buffered, send_command, close_command, change_command, socket_command,
}
use raknet_proxy.Sending.Delivery.{
  Delivery, Network, with_peers, is_last, is_no_action, target_index, recipients, deliver,
  send_immediate, free_unused, change_mode, set_connect_mode, run_send,
}
use raknet_proxy.Sending.Commands.{
  close_target, close_connection_internal, run_command, run_commands,
}
use raknet_proxy.Sending.Recipients.{calls, deliver-Adds}

-- The calls that took the data instead of a copy.
abbrev pub takers : List Delivery → ℕ
takers [] = 0
takers (d ∷ ds) = (if d.copies then 0 else 1) + takers ds

takers-append : (a b : List Delivery) → takers (a ++ b) ≡ takers a + takers b
takers-append [] b = omega arith
takers-append (d ∷ a) b = omega (arith, takers-append a b)

takers-calls :
    (c : Command) (time : ℕ) (is : List ℕ)
    → takers (calls c true time is) ≡ (if not (is_last is) then 1 else 0)
takers-calls c time [] = refl
takers-calls c time (i ∷ []) = refl
takers-calls c time (i ∷ j ∷ is) = omega (arith, takers-calls c time (j ∷ is))

-- The commands whose data has left the queue, for a layer or for good.
abbrev pub settled : Network → ℕ
settled n = takers n.sent + length n.freed

-- The commands with data.
abbrev pub with_data : List Buffered → ℕ
with_data [] = 0
with_data (send_command c ∷ cs) = 1 + with_data cs
with_data (close_command t a b ∷ cs) = with_data cs
with_data (change_command g a ∷ cs) = with_data cs
with_data (socket_command t ∷ cs) = with_data cs

-- No change of address, which may find no system.
abbrev pub IsSteady : Buffered → Type 0
IsSteady (send_command c) = Unit
IsSteady (close_command t a b) = Unit
IsSteady (change_command g a) = ⊥
IsSteady (socket_command t) = Unit

-- So much data is settled if there is a result.
abbrev pub Leaves : ℕ → Option Network → Type 0
Leaves m none = Unit
Leaves m (some n) = settled n ≡ m

-- There is a result.
abbrev pub IsSome : Option Network → Type 0
IsSome none = ⊥
IsSome (some n) = Unit

zero_plus : (m : ℕ) → 0 + m ≡ m
zero_plus m = omega arith

with_data-cons :
    (c : Buffered) (cs : List Buffered) → with_data (c ∷ cs) ≡ with_data (c ∷ []) + with_data cs
with_data-cons (send_command c) cs = omega arith
with_data-cons (close_command t a b) cs = omega arith
with_data-cons (change_command g a) cs = omega arith
with_data-cons (socket_command t) cs = omega arith

module _ (net : RakNet) (k : Constants) where
  change_mode-settled : (c : Command) (n : Network) → settled (change_mode net k c n) ≡ settled n
  unfolding change_mode set_connect_mode
  change_mode-settled c n =
      if_elim (λ m. settled m ≡ settled n) (is_no_action c.mode) (λ e. refl)
        (λ e. option_elim (λ m. settled m ≡ settled n) _ (λ f. refl) (λ i f. refl))

  free_unused-settled :
      (c : Command) (used : Bool) (n : Network)
      → settled (free_unused net k c used n) ≡ (if used then 0 else 1) + settled n
  unfolding free_unused
  free_unused-settled c true n = omega arith
  free_unused-settled c false n = omega (arith, length-append n.freed (c ∷ []))

  deliver-settled :
      (c : Command) (time : ℕ) (is : List ℕ) (n : Network)
      → let r = deliver net k c true time is false n in
        (if r.0 then 0 else 1) + settled r.1 ≡ 1 + settled n
  deliver-settled c time is n =
      let (used, (sent, sender, freed, queries)) = deliver-Adds net k c true time is n in
      let all : takers (n.sent ++ calls c true time is)
          ≡ takers n.sent + takers (calls c true time is) =
        takers-append n.sent (calls c true time is) in
      rw (used, sent, freed, all, takers-calls c time is)
        (elim (Bool-cases (is_last is)) [
          | inl nobody ↦ rw nobody (omega arith)
          | inr somebody ↦ rw somebody (omega arith)
        ])

  run_send-settled :
      (c : Command) (time : ℕ) (n : Network) → settled (run_send net k c time n) ≡ 1 + settled n
  unfolding run_send send_immediate
  run_send-settled c time n =
      let (target, p) = target_index net k c.target n in
      let is = recipients net k c target p in
      let r = deliver net k c true time is false (with_peers p n) in
      change_mode-settled c (free_unused net k c r.0 r.1)
      ∙ free_unused-settled c r.0 r.1
      ∙ deliver-settled c time is (with_peers p n)

  close_connection_internal-Leaves :
      (t : Target) (channel priority time : ℕ) (n : Network)
      → let r = close_connection_internal net k t false true channel priority time n in
        Leaves (settled n) r × IsSome r
  unfolding close_connection_internal close_target
  close_connection_internal-Leaves t channel priority time n =
      if_elim (λ r. Leaves (settled n) r × IsSome r) (k.is_undefined t || n.sender.peers.ended)
        (λ e. (refl, tt)) (λ e. (refl, tt))

  run_command-Leaves :
      (c : Buffered) (time : ℕ) (n : Network)
      → let r = run_command net k c time n in
        Leaves (with_data (c ∷ []) + settled n) r × (IsSteady c → IsSome r)
  unfolding run_command
  run_command-Leaves (send_command c) time n = (run_send-settled c time n, λ h. tt)
  run_command-Leaves (close_command t channel priority) time n =
      let (same, some_n) = close_connection_internal-Leaves t channel priority time n in
      (rw (zero_plus (settled n)) same, λ h. some_n)
  run_command-Leaves (change_command g a) time n = rw (zero_plus (settled n)) (
      option_elim (λ r. Leaves (settled n) r × (⊥ → IsSome r))
        (change_address net n.sender.peers g a) (λ e. (tt, λ h. elim h [ ]))
        (λ p e. (refl, λ h. tt)))
  run_command-Leaves (socket_command t) time n = rw (zero_plus (settled n)) (
      if_elim (λ r. Leaves (settled n) r × (Unit {0} → IsSome r)) (k.is_undefined t)
        (λ e. (refl, λ h. tt))
        (λ e.
          option_elim (λ r. Leaves (settled n) r × (Unit {0} → IsSome r))
            (get_remote_system net n.sender.peers t.address t.guid true true) (λ f. (refl, λ h. tt))
            (λ i f. (refl, λ h. tt))))

  -- Of a queue of commands: if the network thread gets through it, as much data has been freed or
  -- handed to a reliability layer as there are commands with data, on top of what was before;
  -- and it gets through each queue without a change of address.
  pub run_commands-Leaves :
      (cs : List Buffered) (time : ℕ) (n : Network)
      → let r = run_commands net k cs time n in
        Leaves (with_data cs + settled n) r × (All IsSteady cs → IsSome r)
  unfolding run_commands
  run_commands-Leaves [] time n = (sym (zero_plus (settled n)), λ h. tt)
  run_commands-Leaves (c ∷ cs) time n =
      let step = run_command-Leaves c time n in
      option_elim
        (λ r. Leaves (with_data (c ∷ cs) + settled n) r × (All IsSteady (c ∷ cs) → IsSome r))
        (run_command net k c time n) (λ e. (tt, λ h. rw e at (step.1 h.0)))
        (λ n1 e.
          let ih = run_commands-Leaves cs time n1 in
          let one : settled n1 ≡ with_data (c ∷ []) + settled n = rw e at step.0 in
          let all : with_data (c ∷ cs) + settled n ≡ with_data cs + settled n1 =
            omega (arith, one, with_data-cons c cs) in
          rw all (ih.0, λ h. ih.1 h.1))
