-- ===== src/Proxy/Reads.antt =====
-- Which bytes of a packet the handlers of raknet_proxy.cpp read: those of the sub-messages, whose
-- length tests come before their reads.
use raknet_proxy.Base.{
  ℕ, ◌-◌, ◌≤◌, ◌≡◌, refl, Bool, true, false, Option, none, some, ltb, leb, if◌then◌else◌, arith,
}
use raknet_proxy.Wire.{Memory}
use raknet_proxy.Wire.Agreement.{Agree, slice-Agree, read_big_endian_guid-Agree, load_u32-Agree}
use raknet_proxy.Client.{Peer, Address, ClientContext}
use raknet_proxy.Args.{ProgramArgs}
use raknet_proxy.Net.{Env, History, Packet, send_slice}
use raknet_proxy.Proxy.{Proxy}
use raknet_proxy.Proxy.Register.{
  register_client, handle_client_register, handle_host_register, host_guids, enrol_online,
  handle_client_online,
}
use raknet_proxy.Proxy.Forward.{send_through, relay_to, handle_proxy_data}

-- The packet with another memory behind its data pointer.
abbrev pub over : Memory → Packet → Packet
over m packet = record packet { bytes = m }

-- Two conditionals with the same test.
pub if_agree {ℓ} :
    {A : Type ℓ} (b : Bool) {x x' y y' : A}
    → (b ≡ true → x ≡ x')
    → (b ≡ false → y ≡ y')
    → (if b then x else y) ≡ (if b then x' else y')
if_agree true f g = f refl
if_agree false f g = g refl

pub option_agree {ℓ κ} :
    {A : Type ℓ} {B : Type κ} (o : Option A) {y y' : B} {f f' : A → B}
    → y ≡ y'
    → ((x : A) → f x ≡ f' x)
    → (elim o [ none ↦ y | some x ↦ f x ]) ≡ (elim o [ none ↦ y' | some x ↦ f' x ])
option_agree none e g = e
option_agree (some x) e g = g x

module _ (env : Env) (args : ProgramArgs) (main : Peer) (m : Memory) (packet : Packet)
    (a : Agree packet.length packet.bytes m) where
  pub send_slice-over :
      (p : Peer) (i : ℕ) (target : Address) (h : History)
      → i ≤ packet.length
      → send_slice env p (over m packet) i (packet.length - i) target h
        ≡ send_slice env p packet i (packet.length - i) target h
  unfolding send_slice
  send_slice-over p i target h le =
      rw (slice-Agree packet.length (packet.length - i) i packet.bytes m a (omega arith)) refl

  pub register-over :
      (s : Proxy)
      → handle_client_register env main args (over m packet) s
        ≡ handle_client_register env main args packet s
  unfolding handle_client_register register_client
  register-over s =
      if_agree (ltb packet.length 10) (λ _. refl)
        λ long. rw (read_big_endian_guid-Agree packet.length 2 packet.bytes m a (ground arith)) refl

  -- Both GUIDs of HandleHostRegister, although nothing uses the second.
  pub host_guids-over : host_guids (over m packet) ≡ host_guids packet
  unfolding host_guids
  host_guids-over =
      if_agree (ltb packet.length 18) (λ _. refl)
        λ long.
          rw
            (
              read_big_endian_guid-Agree packet.length 2 packet.bytes m a (ground arith),
              read_big_endian_guid-Agree packet.length 10 packet.bytes m a (ground arith),
            )
            refl

  pub host-over :
      (s : Proxy)
      → handle_host_register env main (over m packet) s ≡ handle_host_register env main packet s
  unfolding handle_host_register
  host-over s = rw (handle_host_register, host_guids-over) refl

  pub online-over :
      (s : Proxy)
      → handle_client_online env main args (over m packet) s
        ≡ handle_client_online env main args packet s
  unfolding handle_client_online enrol_online
  online-over s =
      if_agree (leb 10 packet.length)
        (λ long.
          rw (read_big_endian_guid-Agree packet.length 2 packet.bytes m a (ground arith)) refl)
        (λ _. refl)

  relay_to-over :
      (k : ℕ) (s : Proxy) (o : Option ClientContext)
      → 6 ≤ packet.length
      → relay_to env args k (over m packet) s o ≡ relay_to env args k packet s o
  unfolding relay_to send_through
  relay_to-over k s none le = refl
  relay_to-over k s (some c) le =
      option_agree c.child_peer refl (λ p. rw (send_slice-over p 6 _ s.history le) refl)

  pub data-over :
      (s : Proxy)
      → handle_proxy_data env args (over m packet) s ≡ handle_proxy_data env args packet s
  unfolding handle_proxy_data
  data-over s =
      if_agree (ltb packet.length 6) (λ _. refl)
        λ long.
          rw (load_u32-Agree env.little_endian packet.length 2 packet.bytes m a (ground arith))
            (relay_to-over _ s _ (ground arith))
