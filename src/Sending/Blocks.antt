-- ===== src/Sending/Blocks.antt =====
-- SendList of patch/RakPeer.cpp, which sends several blocks of data as one.
use raknet_proxy.Base.{
  ℕ, ◌≡◌, refl, sym, ◌∙◌, ◌≤◌, ◌<◌, ◌+◌, ◌*◌, ◌%◌, Bool, true, false, not, ◌&&◌, ◌||◌, ◌⊎◌, List,
  [], ◌∷◌, some, ◌==◌, if◌then◌else◌, leb, length, length-append, take, take-length, length-take,
  All, Bool-cases, inl, inr, arith,
}
use raknet_proxy.Systems.{RakNet, no_action}
use raknet_proxy.Sending.{
  Target, Constants, Options, Sender, is_positive, is_negative, use_receipt, total_length,
  aggregate, is_loopback_address, send_loopback, acknowledge, push_command, send_buffered,
  send_buffered_list, cannot_send, send_checked, send, send_stream, send_list,
}

-- A positive length is at most that of the data.
abbrev pub IsBlock : List ℕ × ℕ → Type 0
IsBlock b = is_positive b.1 ≡ true → b.1 ≤ length b.0

total_length-eq :
    (blocks : List (List ℕ × ℕ)) (t : ℕ)
    → All IsBlock blocks
    → t + length (aggregate blocks) < 4294967296
    → total_length blocks t ≡ t + length (aggregate blocks)
unfolding total_length aggregate
total_length-eq [] t valid fits = omega arith
total_length-eq ((d, n) ∷ blocks) t (valid, rest) fits = elim (Bool-cases (is_positive n)) [
  | inl counts ↦
      let size = length-append (take n d) (aggregate blocks) in
      let this = length-take n d (valid counts) in
      let below = rw counts at fits in
      rw counts (
        let whole : (t + n) % 4294967296 ≡ t + n = omega arith in
        rw whole (total_length-eq blocks (t + n) rest (omega arith) ∙ omega arith))
  | inr skipped ↦ rw skipped (total_length-eq blocks t rest (rw skipped at fits))
]

-- Two guards in a row are one.
if-or {ℓ} :
    {A : Type ℓ} (a b : Bool) (x : A) {y z : A}
    → y ≡ z
    → (if a then x else if b then x else y) ≡ (if a || b then x else z)
if-or true b x e = refl
if-or false true x e = refl
if-or false false x e = e

module _ (net : RakNet) (k : Constants)
    (bytes : (n : ℕ) → n < 536870912 → k.bits_to_bytes (n * 8) ≡ n) where
  pub send_buffered-eq :
      (d : List ℕ) (o : Options) (receipt : ℕ) (s : Sender)
      → length d < 536870912
      → send_buffered net k d ((length d * 8) % 4294967296) no_action o receipt s
        ≡ push_command net k d ((length d * 8) % 4294967296) no_action o receipt s
  unfolding send_buffered
  send_buffered-eq d o receipt s fits =
      let bits : (length d * 8) % 4294967296 ≡ length d * 8 = omega arith in
      rw (bits, bytes (length d) fits, take-length d) refl

  -- No ID_SND_RECEIPT_ACKED is due.
  abbrev pub IsPlain : Options → Sender → Type 0
  IsPlain o s =
      (o.broadcast ≡ true)
      ⊎ ((is_loopback_address net k s o.target true ≡ false)
          ⊎ (o.reliability < k.unreliable_with_ack_receipt))

  acknowledge-none :
      (reliability : ℕ) (s : Sender)
      → reliability < k.unreliable_with_ack_receipt
      → acknowledge net k reliability s ≡ s
  unfolding acknowledge
  acknowledge-none reliability s low =
      let no_ack : leb k.unreliable_with_ack_receipt reliability ≡ false = ground arith in
      rw no_ack refl

  IsPlain-own :
      (o : Options) (s : Sender)
      → IsPlain o s
      → (not o.broadcast && is_loopback_address net k s o.target true) ≡ true
      → o.reliability < k.unreliable_with_ack_receipt
  IsPlain-own o s plain own = elim plain [
    | inl all ↦ absurd (ground (arith, all, own))
    | inr (inl other) ↦ absurd (ground (arith, other, own))
    | inr (inr low) ↦ low
  ]

  pub is_loopback_address-use_receipt :
      (force : ℕ) (s : Sender) (t : Target) (match_port : Bool)
      → is_loopback_address net k (use_receipt force s).1 t match_port
        ≡ is_loopback_address net k s t match_port
  unfolding use_receipt is_loopback_address
  is_loopback_address-use_receipt force s t match_port = elim (Bool-cases (force == 0)) [
    | inl free ↦ rw free refl
    | inr forced ↦ rw forced refl
  ]

  -- Either form of Send, after its tests.
  abbrev pub sent : List ℕ → Options → ℕ → Sender → Sender
  sent d o receipt s =
      if not o.broadcast && is_loopback_address net k s o.target true
      then acknowledge net k o.reliability (send_loopback net k (some d) (length d) s)
      else send_buffered net k d ((length d * 8) % 4294967296) no_action o receipt s

  send_buffered_list-eq :
      (blocks : List (List ℕ × ℕ)) (o : Options) (receipt : ℕ) (s : Sender)
      → All IsBlock blocks
      → 0 < length (aggregate blocks)
      → length (aggregate blocks) < 536870912
      → IsPlain o s
      → send_buffered_list net k blocks o receipt s ≡ sent (aggregate blocks) o receipt s
  unfolding send_buffered_list
  send_buffered_list-eq blocks o receipt s valid has_data fits plain =
      let size : total_length blocks 0 ≡ length (aggregate blocks) =
        total_length-eq blocks 0 valid (omega arith) ∙ omega arith in
      let more : (length (aggregate blocks) == 0) ≡ false = ground (arith, has_data) in
      rw (size, more)
        (elim (Bool-cases (not o.broadcast && is_loopback_address net k s o.target true)) [
          | inl own ↦ rw own (sym (acknowledge-none o.reliability _ (IsPlain-own o s plain own)))
          | inr other ↦ rw other (sym (send_buffered-eq (aggregate blocks) o receipt s fits))
        ])

  pub send_checked-sent :
      (d : List ℕ) (o : Options) (s : Sender)
      → let r = use_receipt o.force_receipt s in
        send_checked net k d (length d) ((length d * 8) % 4294967296) o s ≡ (r.0, sent d o r.0 r.1)
  unfolding send_checked
  send_checked-sent d o s = refl

  length-ne_zero :
      (blocks : List (List ℕ × ℕ)) → 0 < length (aggregate blocks) → (length blocks == 0) ≡ false
  unfolding aggregate
  length-ne_zero [] has_data = elim has_data [ ]
  length-ne_zero (b ∷ blocks) has_data = ground arith

  pub send-checked :
      (d : List ℕ) (o : Options) (s : Sender)
      → length d < 536870912
      → send net k (some d) (length d) o s ≡ (
          if cannot_send net k o s
          then (0, s)
          else send_checked net k d (length d) ((length d * 8) % 4294967296) o s)
  unfolding send
  send-checked d o s fits =
      let small : is_negative (length d) ≡ false = ground (arith, fits) in rw small refl

  send_stream-Send :
      (d : List ℕ) (o : Options) (s : Sender)
      → 0 < length d
      → length d < 536870912
      → send_stream net k d (length d * 8) o s ≡ send net k (some d) (length d) o s
  unfolding send_stream
  send_stream-Send d o s has_data fits =
      let some_bytes : (length d == 0) ≡ false = ground (arith, has_data) in
      let bits : (length d * 8) % 4294967296 ≡ length d * 8 = omega arith in
      rw (bytes (length d) fits, some_bytes, send-checked d o s fits, bits) refl

  send_list-data :
      (blocks : List (List ℕ × ℕ)) (o : Options) (s : Sender)
      → All IsBlock blocks
      → 0 < length (aggregate blocks)
      → length (aggregate blocks) < 536870912
      → IsPlain o s
      → send_list net k (some blocks) o s
        ≡ send net k (some (aggregate blocks)) (length (aggregate blocks)) o s
  unfolding send_list cannot_send
  send_list-data blocks o s valid has_data fits plain =
      let d = aggregate blocks in
      let (receipt, s1) = use_receipt o.force_receipt s in
      let plain' : IsPlain o s1 =
        rw (is_loopback_address-use_receipt o.force_receipt s o.target true) plain in
      let e : (receipt, send_buffered_list net k blocks o receipt s1)
          ≡ send_checked net k d (length d) ((length d * 8) % 4294967296) o s =
        rw (send_buffered_list-eq blocks o receipt s1 valid has_data fits plain')
          (sym (send_checked-sent d o s)) in
      rw (length-ne_zero blocks has_data, send-checked d o s fits)
        (if-or s.peers.ended (not o.broadcast && k.is_undefined o.target) (0, s) e)

  -- SendList of valid blocks with fewer than 2^29 bytes, and at least one, does and returns the
  -- same as each form of Send of the bytes of the blocks with a positive length in a row. If the
  -- message goes to the peer itself, its reliability asks for no receipt. BITS_TO_BYTES turns
  -- eight bits for each byte back into the bytes.
  pub send_list-Send :
      (blocks : List (List ℕ × ℕ)) (o : Options) (s : Sender)
      → All IsBlock blocks
      → 0 < length (aggregate blocks)
      → length (aggregate blocks) < 536870912
      → IsPlain o s
      → let d = aggregate blocks in
        (send_list net k (some blocks) o s ≡ send net k (some d) (length d) o s)
        × (send_list net k (some blocks) o s ≡ send_stream net k d (length d * 8) o s)
  send_list-Send blocks o s valid has_data fits plain =
      let same = send_list-data blocks o s valid has_data fits plain in
      (same, same ∙ sym (send_stream-Send (aggregate blocks) o s has_data fits))
