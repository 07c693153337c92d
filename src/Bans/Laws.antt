-- ===== src/Bans/Laws.antt =====
-- What IsBanned of patch/RakPeer.cpp answers, and what the two other functions do to the answer.
use raknet_proxy.Base.{
  ℕ, zero, suc, ◌≤◌, ◌≡◌, refl, sym, ap, ◌∙◌, ◌≢◌, ◌⊎◌, inl, inr, ◌↔◌, Bool, true, false, not, ◌&&◌,
  ◌||◌, List, [], ◌∷◌, ◌++◌, some, ◌==◌, length, Bool-cases, arith,
}
use raknet_proxy.Bans.{
  Ban, same_text, is_unusable, last_of, before_last, fill_from_last, remove_first,
  remove_from_ban_list, matches, is_expired, scan, is_banned,
}

-- The text is the address, or has a star where the address has another character, and agrees with
-- it up to there.
abbrev pub Covers : List ℕ → List ℕ → Type 0
Covers text ip =
    (text ≡ ip)
    ⊎ ((front : List ℕ) × (c : ℕ) × (rest : List ℕ) × (behind : List ℕ) × (text
          ≡ front ++ (b'*' ∷ behind))
        × (ip ≡ front ++ (c ∷ rest))
        × (c ≢ b'*'))

abbrev pub any {ℓ} : {A : Type ℓ} → (A → Bool) → List A → Bool
any p [] = false
any p (b ∷ bs) = p b || any p bs

-- An entry that has not expired covers the address.
abbrev pub applies : ℕ → List ℕ → Ban → Bool
applies now ip b = not (is_expired now b) && matches b.ip ip

any-before_last {ℓ} :
    {A : Type ℓ} (p : A → Bool) (b : A) (bs : List A)
    → (p (last_of b bs) || any p (before_last b bs)) ≡ (p b || any p bs)
any-before_last p b [] = refl
any-before_last p b (c ∷ cs) = ground (arith, any-before_last p c cs)

pub any-fill_from_last {ℓ} :
    {A : Type ℓ} (p : A → Bool) (bs : List A) → any p (fill_from_last bs) ≡ any p bs
unfolding fill_from_last
any-fill_from_last p [] = refl
any-fill_from_last p (b ∷ bs) = any-before_last p b bs

length-before_last {ℓ} : {A : Type ℓ} (b : A) (bs : List A) → length (before_last b bs) ≡ length bs
length-before_last b [] = refl
length-before_last b (c ∷ cs) = ap suc (length-before_last c cs)

pub length-fill_from_last {ℓ} : {A : Type ℓ} (bs : List A) → length (fill_from_last bs) ≡ length bs
unfolding fill_from_last
length-fill_from_last [] = refl
length-fill_from_last (b ∷ bs) = ap suc (length-before_last b bs)

scan_lem :
    (fuel now : ℕ) (ip : List ℕ) (bans : List Ban)
    → length bans ≤ fuel
    → (scan fuel now ip bans).0 ≡ any (applies now ip) bans
unfolding scan
scan_lem zero now ip [] le = refl
scan_lem zero now ip (b ∷ bs) le = absurd (omega arith)
scan_lem (suc fuel) now ip [] le = refl
scan_lem (suc fuel) now ip (b ∷ bs) le =
    let here = scan_lem fuel now ip bs (omega arith) in
    let filled =
      scan_lem fuel now ip (fill_from_last bs) (omega (arith, length-fill_from_last bs)) in
    ground (arith, here, filled, any-fill_from_last (applies now ip) bs)

-- IsBanned finds a ban exactly if the address is usable and some entry that has not expired covers
-- it, whatever the order of the entries; the deletions on the way, which move entries about, hide
-- none.
pub is_banned_lem :
    (now : ℕ) (ip : List ℕ) (bans : List Ban)
    → (is_banned now (some ip) bans).0 ≡ (not (is_unusable ip) && any (applies now ip) bans)
unfolding is_banned
is_banned_lem now ip bans = ground (arith, scan_lem (length bans) now ip bans (omega arith))

matches-Covers : (text ip : List ℕ) → matches text ip ≡ true → Covers text ip
unfolding matches
matches-Covers [] [] e = inl refl
matches-Covers [] (c ∷ cs) e = cc
matches-Covers (p ∷ ps) [] e = cc
matches-Covers (p ∷ ps) (c ∷ cs) e = elim (Bool-cases (p == c)) [
  | inl equal ↦
      let same : p ≡ c = ground arith in
      elim (matches-Covers ps cs (ground (arith, equal))) [
        | inl whole ↦ inl (rw same (rw whole refl))
        | inr (front, d, rest, behind, e1, e2, ne) ↦
            inr (p ∷ front, d, rest, behind, ap (◌∷◌ p) e1, rw same (ap (◌∷◌ c) e2), ne)
      ]
  | inr differ ↦
      let star : p ≡ b'*' = ground (arith, differ) in
      inr ([], c, cs, ps, ap (λ x. x ∷ ps) star, refl, λ d. ground (arith, differ))
]

matches_self : (text : List ℕ) → matches text text ≡ true
unfolding matches
matches_self [] = refl
matches_self (c ∷ cs) = ground (arith, matches_self cs)

matches_star :
    (front : List ℕ) (c : ℕ) (rest behind : List ℕ)
    → c ≢ b'*'
    → matches (front ++ (b'*' ∷ behind)) (front ++ (c ∷ rest)) ≡ true
unfolding matches
matches_star [] c rest behind ne = ground (arith, ne)
matches_star (p ∷ front) c rest behind ne = ground (arith, matches_star front c rest behind ne)

-- The comparison of IsBanned accepts exactly the texts that cover the address. What stands behind
-- a star is not looked at.
pub matches_iff : (text ip : List ℕ) → (matches text ip ≡ true) ↔ Covers text ip
unfolding matches
matches_iff text ip = (
  matches-Covers text ip,
  λ covers. elim covers [
    | inl same ↦ rw same (matches_self ip)
    | inr (front, c, rest, behind, e1, e2, ne) ↦ rw e1 (rw e2 (matches_star front c rest behind ne))
  ],
)

same_text-eq : (a b : List ℕ) → same_text a b ≡ true → a ≡ b
same_text-eq [] [] e = refl
same_text-eq [] (c ∷ cs) e = cc
same_text-eq (p ∷ ps) [] e = cc
same_text-eq (p ∷ ps) (c ∷ cs) e =
    let first : p ≡ c = ground arith in
    let rest = same_text-eq ps cs (ground arith) in rw first (rw rest refl)

any-remove_first :
    (p : Ban → Bool) (ip : List ℕ) (bans : List Ban)
    → ((b : Ban) → b.ip ≡ ip → p b ≡ false)
    → any p (remove_first ip bans) ≡ any p bans
unfolding remove_first
any-remove_first p ip [] f = refl
any-remove_first p ip (b ∷ bs) f = elim (Bool-cases (same_text ip b.ip)) [
  | inl same ↦
      let no = f b (sym (same_text-eq ip b.ip same)) in
      rw same (any-fill_from_last p bs ∙ rw no refl)
  | inr other ↦ rw other (ap (◌||◌ (p b)) (any-remove_first p ip bs f))
]

-- RemoveFromBanList changes no answer that does not rest on the removed text: an address that the
-- text does not cover is banned afterwards exactly if it was before, although the last entry takes
-- the removed one's place.
pub is_banned-remove_from_ban_list :
    (now : ℕ) (text ip : List ℕ) (bans : List Ban)
    → matches text ip ≡ false
    → (is_banned now (some ip) (remove_from_ban_list (some text) bans)).0
      ≡ (is_banned now (some ip) bans).0
unfolding remove_from_ban_list
is_banned-remove_from_ban_list now text ip bans uncovered = elim (Bool-cases (is_unusable text)) [
  | inl bad ↦ rw bad refl
  | inr fine ↦
      let none_applies : (b : Ban) → b.ip ≡ text → applies now ip b ≡ false = λ b e.
        let uncovered' : matches b.ip ip ≡ false = rw e uncovered in ground (arith, uncovered') in
      rw fine (
        is_banned_lem now ip (remove_first text bans)
        ∙ rw (any-remove_first (applies now ip) text bans none_applies)
            (sym (is_banned_lem now ip bans)))
]
