-- ===== src/Proxy/Kinds.antt =====
-- The chain of tests on the identifier of a child peer's packet: raknet_proxy.cpp, the loop over
-- the clients in main.
use raknet_proxy.Base.{ℕ, ◌≡◌, ◌≢◌, ◌⊎◌, inl, inr, false, ◌==◌, Bool-cases, arith}
use raknet_proxy.Net.{MessageIds}
use raknet_proxy.Proxy.Poll.{accepted, gone, passed, child_kind_of}

-- The three messages that end the connection to a target, or the attempt.
abbrev pub IsTargetLost : MessageIds → ℕ → Type 0
IsTargetLost ids id =
    (id ≡ ids.connection_attempt_failed)
    ⊎ ((id ≡ ids.disconnection_notification) ⊎ (id ≡ ids.connection_lost))

-- In MessageIdentifiers.h these have values of their own.
pub record IsDistinct (ids : MessageIds) : Type 0 where
  pub failed_accepted : ids.connection_attempt_failed ≢ ids.connection_request_accepted
  pub ended_accepted : ids.disconnection_notification ≢ ids.connection_request_accepted
  pub lost_accepted : ids.connection_lost ≢ ids.connection_request_accepted
  pub ended_incoming : ids.disconnection_notification ≢ ids.new_incoming_connection
  pub lost_incoming : ids.connection_lost ≢ ids.new_incoming_connection

module _ (ids : MessageIds) (apart : IsDistinct ids) where
  pub child_kind_of-gone : (id : ℕ) → IsTargetLost ids id → child_kind_of ids id ≡ gone
  unfolding child_kind_of
  child_kind_of-gone id (inl failed) = ground (arith, failed, apart.failed_accepted)
  child_kind_of-gone id (inr (inl ended)) =
      ground (arith, ended, apart.ended_accepted, apart.ended_incoming)
  child_kind_of-gone id (inr (inr lost)) =
      ground (arith, lost, apart.lost_accepted, apart.lost_incoming)

pub child_kind_of-passed :
    (ids : MessageIds) (id : ℕ)
    → id ≢ ids.connection_request_accepted
    → ¬ IsTargetLost ids id
    → child_kind_of ids id ≡ passed
unfolding child_kind_of
child_kind_of-passed ids id not_accepted stays =
    let failed : (id == ids.connection_attempt_failed) ≡ false = ground (arith, stays) in
    ground (arith, not_accepted, stays)

pub child_kind_of-accepted :
    (ids : MessageIds) (id : ℕ)
    → id ≡ ids.connection_request_accepted
    → child_kind_of ids id ≡ accepted
unfolding child_kind_of
child_kind_of-accepted ids id same = ground (arith, same)

pub classify :
    (ids : MessageIds) (id : ℕ)
    → (id ≡ ids.connection_request_accepted)
      ⊎ (IsTargetLost ids id ⊎ ((id ≢ ids.connection_request_accepted) × (¬ IsTargetLost ids id)))
classify ids id = elim (Bool-cases (id == ids.connection_request_accepted)) [
  | inl a ↦ inl (ground (arith, a))
  | inr not_a ↦ elim (Bool-cases (id == ids.connection_attempt_failed)) [
    | inl f ↦ inr (inl (inl (ground (arith, f))))
    | inr not_f ↦ elim (Bool-cases (id == ids.disconnection_notification)) [
      | inl d ↦ inr (inl (inr (inl (ground (arith, d)))))
      | inr not_d ↦ elim (Bool-cases (id == ids.connection_lost)) [
        | inl l ↦ inr (inl (inr (inr (ground (arith, l)))))
        | inr not_l ↦ inr (
            inr (
              λ e. ground (arith, e, not_a),
              λ e. elim e [
                | inl f ↦ ground (arith, f, not_f)
                | inr (inl d) ↦ ground (arith, d, not_d)
                | inr (inr l) ↦ ground (arith, l, not_l)
              ],
            ))
      ]
    ]
  ]
]
