-- ===== src/Access/Exceptions.antt =====
-- The security exception list of patch/RakPeer.cpp: what is in it after entries were removed.
use raknet_proxy.Base.{
  ℕ, zero, suc, ◌≤◌, ◌≡◌, refl, ◌∙◌, Bool, false, not, ◌&&◌, List, [], ◌∷◌, some, length, ◌==◌,
  Bool-cases, inl, inr, arith,
}
use raknet_proxy.Bans.{fill_from_last}
use raknet_proxy.Bans.Laws.{any, any-fill_from_last, length-fill_from_last}
use raknet_proxy.Access.{
  remove_matching, remove_from_security_exception_list, has_match, is_in_security_exception_list,
}

length-ne_zero : (e : List ℕ) (es : List (List ℕ)) → (length (e ∷ es) == 0) ≡ false
length-ne_zero e es = ground arith

module _ (address_match : List ℕ → List ℕ → Bool) where
  any-remove_matching :
      (p : List ℕ → Bool) (fuel : ℕ) (ip : List ℕ) (es : List (List ℕ))
      → length es ≤ fuel
      → any p (remove_matching address_match fuel ip es)
        ≡ any (λ e. not (address_match e ip) && p e) es
  unfolding remove_matching
  any-remove_matching p zero ip [] le = refl
  any-remove_matching p zero ip (e ∷ es) le = absurd (omega arith)
  any-remove_matching p (suc fuel) ip [] le = refl
  any-remove_matching p (suc fuel) ip (e ∷ es) le = elim (Bool-cases (address_match e ip)) [
    | inl hit ↦ rw hit (
        any-remove_matching p fuel ip (fill_from_last es) (omega (arith, length-fill_from_last es))
        ∙ any-fill_from_last (λ e. not (address_match e ip) && p e) es)
    | inr miss ↦ let rest = any-remove_matching p fuel ip es (omega arith) in rw (miss, rest) refl
  ]

  has_match-any :
      (ip : List ℕ) (es : List (List ℕ))
      → has_match address_match ip es ≡ any (λ e. address_match e ip) es
  unfolding has_match
  has_match-any ip [] = refl
  has_match-any ip (e ∷ es) = elim (Bool-cases (address_match e ip)) [
    | inl hit ↦ rw hit refl
    | inr miss ↦ rw miss (has_match-any ip es)
  ]

  is_in_security_exception_list-any :
      (ip : List ℕ) (es : List (List ℕ))
      → is_in_security_exception_list address_match ip es ≡ any (λ e. address_match e ip) es
  unfolding is_in_security_exception_list
  is_in_security_exception_list-any ip [] = refl
  is_in_security_exception_list-any ip (e ∷ es) =
      rw (length-ne_zero e es) (has_match-any ip (e ∷ es))

  remove-any :
      (p : List ℕ → Bool) (ip : List ℕ) (es : List (List ℕ))
      → any p (remove_from_security_exception_list address_match (some ip) es)
        ≡ any (λ e. not (address_match e ip) && p e) es
  unfolding remove_from_security_exception_list
  remove-any p ip [] = refl
  remove-any p ip (e ∷ es) =
      rw (length-ne_zero e es) (any-remove_matching p (length (e ∷ es)) ip (e ∷ es) (omega arith))

  any-none : (p : List ℕ → Bool) (es : List (List ℕ)) → any (λ e. not (p e) && p e) es ≡ false
  any-none p [] = refl
  any-none p (e ∷ es) = ground (arith, any-none p es)

  -- After RemoveFromSecurityExceptionList of an address, an address is in the list exactly if an
  -- entry matches it that does not match the removed one, although the last entry takes the place
  -- of each that goes. So the removed address itself is not in it.
  pub is_in_security_exception_list-remove :
      (ip other : List ℕ) (es : List (List ℕ))
      → let left = remove_from_security_exception_list address_match (some ip) es in
        (is_in_security_exception_list address_match other left
          ≡ any (λ e. not (address_match e ip) && address_match e other) es)
        × (is_in_security_exception_list address_match ip left ≡ false)
  is_in_security_exception_list-remove ip other es =
      let left = remove_from_security_exception_list address_match (some ip) es in
      (
        is_in_security_exception_list-any other left
            ∙ remove-any (λ e. address_match e other) ip es,
        is_in_security_exception_list-any ip left
            ∙ remove-any (λ e. address_match e ip) ip es
            ∙ any-none (λ e. address_match e ip) es,
      )
