-- ===== src/Access/Password.antt =====
-- The password for incoming connections of patch/RakPeer.cpp: what SetIncomingPassword sets is
-- what GetIncomingPassword gives, and what a connection request must have.
use raknet_proxy.Base.{
  ℕ, zero, suc, ◌≤◌, ◌<◌, ◌≡◌, ◌↔◌, refl, sym, ap, ◌∙◌, true, List, [], ◌∷◌, some, length, take,
  length-take, take-take, ltb, if◌then◌else◌, Bool-cases, inl, inr, arith,
}
use raknet_proxy.Sending.{is_positive}
use raknet_proxy.Access.{
  IncomingPassword, overwrite, same_bytes, at_most, set_incoming_password, get_incoming_password,
  has_password,
}

-- The smaller of two numbers.
abbrev pub min : ℕ → ℕ → ℕ
min b a = if ltb b a then b else a

at_most-min : (b a : ℕ) → a < 2147483648 → at_most b a ≡ min b a
unfolding at_most
at_most-min b a small = ground arith

if_positive :
    (n : ℕ) (bs : List ℕ) → n < 256 → (if is_positive n then take n bs else []) ≡ take n bs
if_positive zero bs few = refl
if_positive (suc n) bs few =
    let counts : is_positive (suc n) ≡ true = ground (arith, few) in rw counts refl

take-overwrite :
    (m : ℕ) (bs old : List ℕ)
    → m ≤ length bs
    → length bs ≤ length old
    → take m (overwrite bs old) ≡ take m bs
unfolding overwrite
take-overwrite zero bs old less fits = refl
take-overwrite (suc m) [] old less fits = absurd (omega arith)
take-overwrite (suc m) (b ∷ bs) [] less fits = absurd (omega arith)
take-overwrite (suc m) (b ∷ bs) (o ∷ old) less fits =
    ap (λ ys. b ∷ ys) (take-overwrite m bs old (omega arith) (omega arith))

same_bytes_iff :
    (n : ℕ) (xs ys : List ℕ)
    → length xs ≡ n
    → n ≤ length ys
    → (same_bytes n xs ys ≡ true) ↔ (xs ≡ take n ys)
unfolding same_bytes
same_bytes_iff zero [] ys size fits = (λ e. refl, λ e. refl)
same_bytes_iff zero (x ∷ xs) ys size fits = absurd (omega arith)
same_bytes_iff (suc n) [] ys size fits = absurd (omega arith)
same_bytes_iff (suc n) (x ∷ xs) [] size fits = absurd (omega arith)
same_bytes_iff (suc n) (x ∷ xs) (y ∷ ys) size fits =
    let ih = same_bytes_iff n xs ys (omega arith) (omega arith) in
    (
      λ e.
          let tail : xs ≡ take n ys = ih.0 (ground (arith, e)) in
          let head : x ≡ y = ground (arith, e) in cc,
      λ e.
          let head : x ≡ y = cc in
          let tail : xs ≡ take n ys = cc in let rest = ih.1 tail in ground (arith, head, rest),
    )

set_incoming_password-size :
    (d : List ℕ) (n : ℕ) (w : IncomingPassword)
    → n < 2147483648
    → (set_incoming_password (some d) n w).size ≡ min 255 n
unfolding set_incoming_password
set_incoming_password-size d n w small = rw (at_most-min 255 n small) (ground arith)

take-set_incoming_password :
    (d : List ℕ) (n j : ℕ) (w : IncomingPassword)
    → n < 2147483648
    → n ≤ length d
    → length w.bytes ≡ 256
    → j ≤ min 255 n
    → take j (set_incoming_password (some d) n w).bytes ≡ take j d
unfolding set_incoming_password
take-set_incoming_password d n zero w small fits room low = refl
take-set_incoming_password d n (suc j) w small fits room low =
    let size = min 255 n in
    let low' : size ≤ n = ground arith in
    let high : size ≤ 255 = ground arith in
    let counts : is_positive size ≡ true = ground (arith, low, high) in
    let taken : length (take size d) ≡ size = length-take size d (omega (arith, low')) in
    rw (at_most-min 255 n small, counts)
      (take-overwrite (suc j) (take size d) w.bytes (omega (arith, taken)) (omega (arith, taken))
        ∙ take-take (suc j) size d low)

length-overwrite : (bs old : List ℕ) → length (overwrite bs old) ≡ length old
unfolding overwrite
length-overwrite [] old = refl
length-overwrite (b ∷ bs) [] = refl
length-overwrite (b ∷ bs) (o ∷ old) = ap suc (length-overwrite bs old)

length-set_incoming_password :
    (d : List ℕ) (n : ℕ) (w : IncomingPassword)
    → length (set_incoming_password (some d) n w).bytes ≡ length w.bytes
unfolding set_incoming_password
length-set_incoming_password d n w = elim (Bool-cases (is_positive (at_most 255 n))) [
  | inl counts ↦ rw counts (length-overwrite (take (at_most 255 n) d) w.bytes)
  | inr skipped ↦ rw skipped refl
]

has_password_iff :
    (given : List ℕ) (w : IncomingPassword)
    → w.size ≤ length w.bytes
    → (has_password given w ≡ true) ↔ (given ≡ take w.size w.bytes)
unfolding has_password
has_password_iff given w fits = (
  λ e.
      let size : length given ≡ w.size = ground (arith, e) in
      (same_bytes_iff w.size given w.bytes size fits).0 (ground (arith, e)),
  λ e.
      let size : length given ≡ w.size = ap length e ∙ length-take w.size w.bytes fits in
      let same = (same_bytes_iff w.size given w.bytes size fits).1 e in ground (arith, size, same),
)

get_incoming_password-take :
    (m : ℕ) (w : IncomingPassword)
    → m < 2147483648
    → w.size < 256
    → get_incoming_password (some m) w ≡ (take (min w.size m) w.bytes, min w.size m)
unfolding get_incoming_password
get_incoming_password-take m w small fits =
    let few : min w.size m < 256 = ground (arith, fits) in
    rw (at_most-min w.size m small) (ap (λ bs. (bs, min w.size m)) (if_positive _ w.bytes few))

-- After SetIncomingPassword of a password whose length is at most that of the data: a connection
-- request has the password exactly if its bytes are the first of the data, up to 255 of them, and
-- GetIncomingPassword into room for m bytes gives those of them that fit and their number.
pub has_password-set_incoming_password :
    (d : List ℕ) (n m : ℕ) (w : IncomingPassword) (given : List ℕ)
    → n ≤ length d
    → n < 2147483648
    → m < 2147483648
    → length w.bytes ≡ 256
    → let w' = set_incoming_password (some d) n w in
      ((has_password given w' ≡ true) ↔ (given ≡ take (min 255 n) d))
      × (get_incoming_password (some m) w' ≡ (take (min (min 255 n) m) d, min (min 255 n) m))
has_password-set_incoming_password d n m w given fits small room_small room =
    let w' = set_incoming_password (some d) n w in
    let size = set_incoming_password-size d n w small in
    let bytes =
      λ (j : ℕ) (low : j ≤ min 255 n). take-set_incoming_password d n j w small fits room low in
    let few : min 255 n < 256 = ground arith in
    let fits' = length-set_incoming_password d n w in
    let given' = has_password_iff given w' (omega (arith, size, few, fits', room)) in
    let whole : take w'.size w'.bytes ≡ take (min 255 n) d =
      rw size (bytes (min 255 n) (omega arith)) in
    let low : min (min 255 n) m ≤ min 255 n = ground arith in
    (
      (λ e. given'.0 e ∙ whole, λ e. given'.1 (e ∙ sym whole)),
      get_incoming_password-take m w' room_small (omega (arith, size, few))
          ∙ rw size (ap (λ bs. (bs, min (min 255 n) m)) (bytes _ low)),
    )
