-- ===== src/Sending/Sends.antt =====
-- Send and SendList of patch/RakPeer.cpp.
use raknet_proxy.Base.{
  ℕ, ◌≡◌, ◌≢◌, refl, ap, ◌≤◌, true, false, ◌↔◌, ◌⊎◌, List, Option, none, some, ◌==◌, Bool-cases,
  inl, inr, arith,
}
use raknet_proxy.Systems.{RakNet}
use raknet_proxy.Sending.{
  Constants, Options, Sender, is_negative, increment_next_send_receipt, use_receipt, cannot_send,
  send_checked, send,
}

module _ (net : RakNet) (k : Constants) where
  -- A receipt that is used is not 0.
  use_receipt-ne_zero : (force : ℕ) (s : Sender) → 1 ≤ s.serial → (use_receipt force s).0 ≢ 0
  unfolding use_receipt increment_next_send_receipt
  use_receipt-ne_zero force s low = elim (Bool-cases (force == 0)) [
    | inl zero_force ↦ rw zero_force (λ e. omega (arith, low, e))
    | inr forced ↦ rw forced (λ e. ground (arith, forced, e))
  ]

  -- The reasons for which Send refuses.
  abbrev pub IsRefused : Option (List ℕ) → ℕ → Options → Sender → Type 0
  IsRefused d n o s =
      (d ≡ none)
      ⊎ ((is_negative n ≡ true)
          ⊎ ((s.peers.ended ≡ true) ⊎ ((o.broadcast ≡ false) × (k.is_undefined o.target ≡ true))))

  cannot_send-cases :
      (o : Options) (s : Sender)
      → ((cannot_send net k o s ≡ true)
          × ((s.peers.ended ≡ true) ⊎ ((o.broadcast ≡ false) × (k.is_undefined o.target ≡ true))))
        ⊎ ((cannot_send net k o s ≡ false)
            × (s.peers.ended ≡ false)
            × ((o.broadcast ≡ true) ⊎ (k.is_undefined o.target ≡ false)))
  unfolding cannot_send
  cannot_send-cases o s = elim (Bool-cases s.peers.ended) [
    | inl stopped ↦ inl (rw stopped refl, inl stopped)
    | inr runs ↦ elim (Bool-cases o.broadcast) [
      | inl all ↦ inr (rw (runs, all) refl, runs, inl all)
      | inr one ↦ elim (Bool-cases (k.is_undefined o.target)) [
        | inl unknown ↦ inl (rw (runs, one, unknown) refl, inr (one, unknown))
        | inr known ↦ inr (rw (runs, one, known) refl, runs, inr known)
      ]
    ]
  ]

  send_outcome :
      (d : Option (List ℕ)) (n : ℕ) (o : Options) (s : Sender)
      → 1 ≤ s.serial
      → (IsRefused d n o s × (send net k d n o s ≡ (0, s)))
        ⊎ ((IsRefused d n o s → ⊥) × ((send net k d n o s).0 ≢ 0))
  unfolding send send_checked
  send_outcome none n o s low = inl (inl refl, refl)
  send_outcome (some d) n o s low = elim (Bool-cases (is_negative n)) [
    | inl negative ↦ inl (inr (inl negative), rw (negative, send) refl)
    | inr fits ↦ elim (cannot_send-cases o s) [
      | inl (cannot, why) ↦ inl (inr (inr why), rw (fits, send) (rw cannot refl))
      | inr (can, runs, aim) ↦ inr (
        λ h. ground (arith, fits, runs, aim, h),
        rw (fits, send) (rw can (use_receipt-ne_zero o.force_receipt s low)),
      )
    ]
  ]

  -- Send returns 0 exactly if it is given no data, a negative length, or, without broadcast, an
  -- undefined target, or if the peer is not running; and then nothing has changed. The serial
  -- number is not 0.
  pub send_iff :
      (d : Option (List ℕ)) (n : ℕ) (o : Options) (s : Sender)
      → 1 ≤ s.serial
      → (((send net k d n o s).0 ≡ 0) ↔ IsRefused d n o s)
        × ((send net k d n o s).0 ≡ 0 → (send net k d n o s).1 ≡ s)
  send_iff d n o s low = elim (send_outcome d n o s low) [
    | inl (why, e) ↦ ((λ z. why, λ h. ap (λ r. r.0) e), λ z. ap (λ r. r.1) e)
    | inr (no_reason, sent) ↦
        ((λ z. elim (sent z) [ ], λ h. elim (no_reason h) [ ]), λ z. elim (sent z) [ ])
  ]
