-- ===== src/Sending/Receipts.antt =====
-- The send receipts of patch/RakPeer.cpp: IncrementNextSendReceipt called again and again.
use raknet_proxy.Base.{ℕ, zero, suc, ◌≡◌, ◌≢◌, ◌∙◌, ◌≤◌, ◌<◌, ◌+◌, ◌-◌, ◌%◌, arith}
use raknet_proxy.Sending.{increment_next_send_receipt}

-- The serial number after some calls.
abbrev pub serial_after : ℕ → ℕ → ℕ
serial_after zero s = s
serial_after (suc n) s = (increment_next_send_receipt (serial_after n s)).1

increment_next_send_receipt-eq :
    (s : ℕ) → 1 ≤ s → s < 4294967296 → (increment_next_send_receipt s).1 ≡ 1 + s % 4294967295
unfolding increment_next_send_receipt
increment_next_send_receipt-eq s low high = ground arith

serial_after-eq :
    (n s : ℕ) → 1 ≤ s → s < 4294967296 → serial_after n s ≡ 1 + (s - 1 + n) % 4294967295
serial_after-eq zero s low high = omega arith
serial_after-eq (suc n) s low high =
    let ih = serial_after-eq n s low high in
    increment_next_send_receipt-eq (serial_after n s) (omega (arith, ih)) (omega (arith, ih))
    ∙ omega (arith, ih)

-- From a serial number between 1 and 2^32 - 1, as ResetSendReceipt sets it: every receipt is in
-- that range, so none is 0, and of fewer than 2^32 - 1 calls in a row no two give the same.
pub increment_next_send_receipt-Distinct :
    (s i j : ℕ)
    → 1 ≤ s
    → s < 4294967296
    → i < j
    → j < i + 4294967295
    → let receipt = λ (n : ℕ). (increment_next_send_receipt (serial_after n s)).0 in
      (1 ≤ receipt i) × (receipt i < 4294967296) × (receipt i ≢ receipt j)
unfolding increment_next_send_receipt
increment_next_send_receipt-Distinct s i j low high less near =
    let at_i = serial_after-eq i s low high in
    let at_j = serial_after-eq j s low high in
    (omega (arith, at_i), omega (arith, at_i), λ e. omega (arith, at_i, at_j, e))
