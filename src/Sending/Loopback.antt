-- ===== src/Sending/Loopback.antt =====
-- What a peer of patch/RakPeer.cpp sends to itself.
use raknet_proxy.Base.{
  ℕ, zero, suc, ◌≡◌, ◌≢◌, refl, ◌∙◌, ap, ◌≤◌, ◌<◌, ◌*◌, ◌%◌, Bool, true, false, List, [], ◌∷◌, ◌++◌,
  some, leb, take, arith,
}
use raknet_proxy.Systems.{RakNet}
use raknet_proxy.Sending.{
  Target, Constants, Options, Sender, LocalPacket, is_negative, increment_next_send_receipt,
  use_receipt, receipt_bytes, is_loopback_address, get_loopback_address, send_loopback, acknowledge,
  cannot_send, send_checked, send,
}

-- The element of a list at an index, or 0.
abbrev at : List ℕ → ℕ → ℕ
at [] i = 0
at (x ∷ xs) zero = x
at (x ∷ xs) (suc i) = at xs i

receipt_bytes-ne :
    (m n : ℕ) → m < 4294967296 → n < 4294967296 → m ≢ n → receipt_bytes m ≢ receipt_bytes n
receipt_bytes-ne m n high_m high_n apart e = apart (
    omega (
      arith,
      high_m,
      high_n,
      ap (λ b. at b 0) e,
      ap (λ b. at b 1) e,
      ap (λ b. at b 2) e,
      ap (λ b. at b 3) e,
    ))

increment-ne :
    (serial : ℕ)
    → 1 ≤ serial
    → serial < 4294967296
    → ((increment_next_send_receipt serial).1 < 4294967296)
      × ((increment_next_send_receipt serial).1 ≢ serial)
unfolding increment_next_send_receipt
increment-ne serial low high = ground arith

-- A packet from the peer to itself.
abbrev pub own : RakNet → Constants → Sender → List ℕ → LocalPacket
own net k s bytes = record {
  bytes = bytes;
  address = get_loopback_address net k s;
  guid = s.my_guid;
}

module _ (net : RakNet) (k : Constants) where
  send_loopback-own :
      (d : List ℕ) (n : ℕ) (s : Sender)
      → is_negative n ≡ false
      → send_loopback net k (some d) n s
        ≡ record s { returned = s.returned ++ own net k s (take n d) ∷ [] }
  unfolding send_loopback
  send_loopback-own d n s fits = rw fits refl

  acknowledge-own :
      (reliability : ℕ) (s : Sender)
      → k.unreliable_with_ack_receipt ≤ reliability
      → acknowledge net k reliability s ≡ record s {
        returned = s.returned ++ own net k s (k.snd_receipt_acked ∷ receipt_bytes s.serial) ∷ [];
      }
  unfolding acknowledge send_loopback
  acknowledge-own reliability s asks =
      let yes_ack : leb k.unreliable_with_ack_receipt reliability ≡ true = ground (arith, asks) in
      rw yes_ack refl

  -- The sender after its data and the receipt have returned to it.
  abbrev returned_to : Sender → List ℕ → Sender
  returned_to s bytes = record s {
    returned =
        (s.returned ++ own net k s bytes ∷ [])
        ++ own net k s (k.snd_receipt_acked ∷ receipt_bytes s.serial) ∷ [];
  }

  use_receipt-free :
      (force : ℕ) (s : Sender)
      → force ≡ 0
      → use_receipt force s
        ≡ (s.serial, record s { serial = (increment_next_send_receipt s.serial).1 })
  unfolding use_receipt increment_next_send_receipt
  use_receipt-free force s free = rw free refl

  is_loopback_address-serial :
      (s : Sender) (t : Target) (match_port : Bool) (m : ℕ)
      → is_loopback_address net k (record s { serial = m }) t match_port
        ≡ is_loopback_address net k s t match_port
  unfolding is_loopback_address
  is_loopback_address-serial s t match_port m = refl

  own-serial :
      (s : Sender) (bytes : List ℕ) (m : ℕ)
      → own net k (record s { serial = m }) bytes ≡ own net k s bytes
  unfolding get_loopback_address
  own-serial s bytes m = refl

  send_checked-own :
      (d : List ℕ) (n bits : ℕ) (o : Options) (s : Sender)
      → is_negative n ≡ false
      → o.broadcast ≡ false
      → is_loopback_address net k s o.target true ≡ true
      → k.unreliable_with_ack_receipt ≤ o.reliability
      → o.force_receipt ≡ 0
      → send_checked net k d n bits o s ≡ (
        s.serial,
        returned_to (record s { serial = (increment_next_send_receipt s.serial).1 }) (take n d),
      )
  unfolding send_checked get_loopback_address
  send_checked-own d n bits o s fits one mine asks free =
      let next = (increment_next_send_receipt s.serial).1 in
      let s1 : Sender = record s { serial = next } in
      let same : is_loopback_address net k s1 o.target true ≡ true =
        is_loopback_address-serial s o.target true next ∙ mine in
      rw (use_receipt-free o.force_receipt s free) (
        rw (one, same)
          (rw (send_loopback-own d n s1 fits) (
            rw
              (acknowledge-own o.reliability
                (record s1 { returned = s1.returned ++ own net k s1 (take n d) ∷ [] }) asks)
              refl)))

-- Send to the peer itself, with a reliability that asks for a receipt and no forced receipt: two
-- packets return to the peer, the data and an ID_SND_RECEIPT_ACKED, and the receipt in the
-- second is never the one that Send returns.
pub send-own :
    (net : RakNet) (k : Constants) (d : List ℕ) (n : ℕ) (o : Options) (s : Sender)
    → 1 ≤ s.serial
    → s.serial < 4294967296
    → is_negative n ≡ false
    → cannot_send net k o s ≡ false
    → o.broadcast ≡ false
    → is_loopback_address net k s o.target true ≡ true
    → k.unreliable_with_ack_receipt ≤ o.reliability
    → o.force_receipt ≡ 0
    → let r = send net k (some d) n o s in
      (r.0 ≡ s.serial)
      × ((m : ℕ) × (r.1.returned
            ≡ (s.returned ++ own net k s (take n d) ∷ [])
              ++ own net k s (k.snd_receipt_acked ∷ receipt_bytes m) ∷ [])
          × (receipt_bytes m ≢ receipt_bytes r.0))
unfolding send
send-own net k d n o s low high fits can one mine asks free =
    let (bound, apart) = increment-ne s.serial low high in
    let m = (increment_next_send_receipt s.serial).1 in
    let e : send net k (some d) n o s
        ≡ (s.serial, returned_to net k (record s { serial = m }) (take n d)) =
      rw (fits, send)
        (rw can (send_checked-own net k d n ((n * 8) % 4294967296) o s fits one mine asks free)) in
    (
      ap (λ (r : ℕ × Sender). r.0) e,
      (
        m,
        ap (λ (r : ℕ × Sender). r.1.returned) e
            ∙ rw
                (
                  own-serial net k s (take n d) m,
                  own-serial net k s (k.snd_receipt_acked ∷ receipt_bytes m) m,
                )
                refl,
        rw e (receipt_bytes-ne m s.serial bound high apart),
      ),
    )
