-- ===== src/Sending/Journey.antt =====
-- A message of patch/RakPeer.cpp from Send to the reliability layer of its recipient.
use raknet_proxy.Base.{
  ℕ, ◌≡◌, refl, ◌∙◌, ap, ◌<◌, ◌*◌, ◌%◌, Bool, true, false, not, ◌&&◌, List, [], ◌∷◌, ◌++◌, some,
  ◌==◌, if◌then◌else◌, length, Bool-cases, inl, inr,
}
use raknet_proxy.Systems.{RakNet, no_action, get_remote_system_index}
use raknet_proxy.Sending.{
  Constants, Options, Sender, Command, use_receipt, is_loopback_address, push_command, cannot_send,
  send,
}
use raknet_proxy.Sending.Blocks.{
  send-checked, send_checked-sent, send_buffered-eq, is_loopback_address-use_receipt,
}
use raknet_proxy.Sending.Delivery.{
  Network, is_disconnecting, is_no_action, unicast_list, recipients, deliver, send_to,
  send_immediate, free_unused, change_mode, run_send,
}
use raknet_proxy.Sending.Commands.{run_command, run_commands, run_queue}
use raknet_proxy.Sending.Disconnecting.{IsPlainAddress, target_index-plain}

if_ready : (a b : Bool) (x y : List ℕ) → a ≡ true → b ≡ false → (if a && not b then x else y) ≡ x
if_ready true false x y e f = refl
if_ready true true x y e f = cc
if_ready false b x y e f = cc

if_first : (a : Bool) (x y : List ℕ) → a ≡ true → (if a then x else y) ≡ x
if_first true x y e = refl
if_first false x y e = cc

if_other {ℓ} :
    {A : Type ℓ} (a : Bool) {b : Bool} (x : A) {y : A} → b ≡ false → (if a && b then x else y) ≡ y
if_other true x e = rw e refl
if_other false x e = refl

module _ (net : RakNet) (k : Constants) where
  -- The command that Send leaves for the network thread.
  abbrev pub command_of : List ℕ → Options → ℕ → Command
  command_of d o receipt = record {
    bytes = d;
    bits = (length d * 8) % 4294967296;
    priority = o.priority;
    reliability = o.reliability;
    channel = o.channel;
    target = o.target;
    broadcast = o.broadcast;
    mode = no_action;
    receipt = receipt;
  }

  unicast_list-ready :
      (n : Network) (i : ℕ)
      → (n.sender.peers.systems i).is_active ≡ true
      → is_disconnecting (n.sender.peers.systems i).connect_mode ≡ false
      → unicast_list n.sender.peers (some i) ≡ i ∷ []
  unfolding unicast_list
  unicast_list-ready n i live stays = if_ready _ _ (i ∷ []) [] live stays

  recipients-one :
      (c : Command) (n : Network) (i : ℕ)
      → c.broadcast ≡ false
      → (n.sender.peers.systems i).is_active ≡ true
      → is_disconnecting (n.sender.peers.systems i).connect_mode ≡ false
      → recipients net k c (some i) n.sender.peers ≡ i ∷ []
  unfolding recipients
  recipients-one c n i one live stays =
      if_first (not c.broadcast) _ _ (ap not one) ∙ unicast_list-ready n i live stays

  deliver-one :
      (c : Command) (time i : ℕ) (n : Network)
      → deliver net k c true time (i ∷ []) false n ≡ (true, send_to net k c true time i n)
  unfolding deliver
  deliver-one c time i n = refl

  send_immediate-one :
      (c : Command) (time i : ℕ) (n : Network)
      → IsPlainAddress net c.target
      → c.broadcast ≡ false
      → get_remote_system_index net n.sender.peers c.target.address ≡ some i
      → (n.sender.peers.systems i).is_active ≡ true
      → is_disconnecting (n.sender.peers.systems i).connect_mode ≡ false
      → send_immediate net k c true time n ≡ (true, send_to net k c true time i n)
  unfolding send_immediate
  send_immediate-one c time i n plain one found live stays =
      rw (target_index-plain net k c.target n plain, found, recipients-one c n i one live stays)
        (deliver-one c time i n)

  run_send-one :
      (c : Command) (time i : ℕ) (n : Network)
      → IsPlainAddress net c.target
      → c.broadcast ≡ false
      → is_no_action c.mode ≡ true
      → get_remote_system_index net n.sender.peers c.target.address ≡ some i
      → (n.sender.peers.systems i).is_active ≡ true
      → is_disconnecting (n.sender.peers.systems i).connect_mode ≡ false
      → run_send net k c time n ≡ send_to net k c true time i n
  unfolding run_send free_unused change_mode
  run_send-one c time i n plain one still found live stays =
      rw (send_immediate-one c time i n plain one found live stays) (rw still refl)

  use_receipt-rest :
      (force : ℕ) (s : Sender)
      → ((use_receipt force s).1.peers ≡ s.peers) × ((use_receipt force s).1.commands ≡ s.commands)
  unfolding use_receipt
  use_receipt-rest force s = elim (Bool-cases (force == 0)) [
    | inl free ↦ rw free (refl, refl)
    | inr forced ↦ rw forced (refl, refl)
  ]

module _ (net : RakNet) (k : Constants)
    (bytes : (n : ℕ) → n < 536870912 → k.bits_to_bytes (n * 8) ≡ n) where
  -- Send to another system leaves one command in the queue.
  send-command :
      (d : List ℕ) (o : Options) (s : Sender)
      → length d < 536870912
      → cannot_send net k o s ≡ false
      → is_loopback_address net k s o.target true ≡ false
      → let r = use_receipt o.force_receipt s in
        send net k (some d) (length d) o s
        ≡ (r.0, push_command net k d ((length d * 8) % 4294967296) no_action o r.0 r.1)
  send-command d o s fits can other =
      let (receipt, s1) = use_receipt o.force_receipt s in
      let away : is_loopback_address net k s1 o.target true ≡ false =
        is_loopback_address-use_receipt net k bytes o.force_receipt s o.target true ∙ other in
      send-checked net k bytes d o s fits
      ∙ rw can (
          send_checked-sent net k bytes d o s
          ∙ ap (λ (x : Sender). (receipt, x))
              (if_other (not o.broadcast) _ away
                ∙ send_buffered-eq net k bytes d o receipt s1 fits))

  run_queue-one :
      (d : List ℕ) (o : Options) (receipt : ℕ) (s : Sender) (n : Network) (i time : ℕ)
      → o.broadcast ≡ false
      → IsPlainAddress net o.target
      → s.commands ≡ []
      → get_remote_system_index net s.peers o.target.address ≡ some i
      → (s.peers.systems i).is_active ≡ true
      → is_disconnecting (s.peers.systems i).connect_mode ≡ false
      → let q = push_command net k d ((length d * 8) % 4294967296) no_action o receipt s in
        run_queue net k time (record n { sender = q })
        ≡ some (
            send_to net k
              (command_of net k d o receipt)
              true
              time
              i
              (record n { sender = record q { commands = [] } }))
  unfolding run_queue run_commands run_command push_command
  run_queue-one d o receipt s n i time one plain empty found live stays =
      let q = push_command net k d ((length d * 8) % 4294967296) no_action o receipt s in
      rw empty (
        ap some (
          run_send-one net k (command_of net k d o receipt) time i
            (record n { sender = record q { commands = [] } }) plain one refl found live stays))

  -- A message to one other system, named by its address, from a peer with an empty queue: the
  -- system is found, is active and is not being disconnected. Send leaves what the network thread
  -- needs to hand the bytes, the priority, the reliability, the channel and the number that Send
  -- has returned to the reliability layer of that system, and of no other, without a copy, and
  -- the queue is empty again. BITS_TO_BYTES turns eight bits for each byte back into the bytes.
  pub send-Delivered :
      (d : List ℕ) (o : Options) (s : Sender) (n : Network) (i time : ℕ)
      → length d < 536870912
      → cannot_send net k o s ≡ false
      → o.broadcast ≡ false
      → is_loopback_address net k s o.target true ≡ false
      → IsPlainAddress net o.target
      → s.commands ≡ []
      → get_remote_system_index net s.peers o.target.address ≡ some i
      → (s.peers.systems i).is_active ≡ true
      → is_disconnecting (s.peers.systems i).connect_mode ≡ false
      → let r = send net k (some d) (length d) o s in
        (n' : Network) × (run_queue net k time (record n { sender = r.1 }) ≡ some n')
        × (n'.sent
            ≡ n.sent
              ++ record {
                system = i;
                command = command_of net k d o r.0;
                copies = false;
                time = time;
              }
                ∷ [])
        × (n'.freed ≡ n.freed)
        × (n'.sender.commands ≡ [])
  unfolding send_to push_command
  send-Delivered d o s n i time fits can one other plain empty found live stays =
      let (receipt, s1) = use_receipt o.force_receipt s in
      let (peers, commands) = use_receipt-rest net k o.force_receipt s in
      rw (send-command d o s fits can other) (
        _,
        run_queue-one d o receipt s1 n i time one plain (commands ∙ empty) (rw peers found)
            (rw peers live) (rw peers stays),
        refl,
        refl,
        refl,
      )
