-- ===== src/Plugins/Attached.antt =====
-- The plugins of patch/RakPeer.cpp after any calls of AttachPlugin and DetachPlugin.
use raknet_proxy.Base.{
  ℕ, ◌≡◌, ◌+◌, ◌-◌, refl, sym, ap, ◌∙◌, Bool, true, false, not, ◌&&◌, List, [], ◌∷◌, ◌++◌, Option,
  none, some, ◌==◌, if◌then◌else◌, Bool-cases, inl, inr, arith,
}
use raknet_proxy.Bans.{fill_from_last, last_of, before_last}
use raknet_proxy.Plugins.{Plugins, is_listed, remove_plugin, attach_plugin, detach_plugin}

abbrev pub count : ℕ → List ℕ → ℕ
count p [] = 0
count p (q ∷ qs) = (if q == p then 1 else 0) + count p qs

-- A call of the user.
pub data Operation : Type 0 where
  attach : ℕ → Operation
  detach : Option ℕ → Operation

-- The last call for a plugin was AttachPlugin; the newest call stands first.
abbrev pub is_attached : ℕ → List Operation → Bool
is_attached p [] = false
is_attached p (attach q ∷ ops) = if q == p then true else is_attached p ops
is_attached p (detach none ∷ ops) = is_attached p ops
is_attached p (detach (some q) ∷ ops) = if q == p then false else is_attached p ops

abbrev pub one_if : Bool → ℕ
one_if true = 1
one_if false = 0

count-before_last :
    (p b : ℕ) (bs : List ℕ)
    → (if last_of b bs == p then 1 else 0) + count p (before_last b bs)
      ≡ (if b == p then 1 else 0) + count p bs
count-before_last p b [] = refl
count-before_last p b (c ∷ cs) = omega (arith, count-before_last p c cs)

count-fill_from_last : (p : ℕ) (qs : List ℕ) → count p (fill_from_last qs) ≡ count p qs
unfolding fill_from_last
count-fill_from_last p [] = refl
count-fill_from_last p (q ∷ qs) = count-before_last p q qs

count-append :
    (p q : ℕ) (qs : List ℕ) → count p (qs ++ q ∷ []) ≡ count p qs + (if q == p then 1 else 0)
count-append p q [] = omega arith
count-append p q (r ∷ qs) = omega (arith, count-append p q qs)

is_listed-count : (p : ℕ) (qs : List ℕ) → is_listed p qs ≡ not (count p qs == 0)
unfolding is_listed
is_listed-count p [] = ground arith
is_listed-count p (q ∷ qs) = elim (Bool-cases (q == p)) [
  | inl same ↦ rw same (ground arith)
  | inr other ↦ rw other (ground (arith, is_listed-count p qs))
]

count-remove_plugin :
    (p q : ℕ) (qs : List ℕ)
    → count p (remove_plugin q qs) ≡ (if q == p then count p qs - 1 else count p qs)
unfolding remove_plugin
count-remove_plugin p q [] = ground arith
count-remove_plugin p q (r ∷ qs) =
    let filled = count-fill_from_last p qs in
    let rest = count-remove_plugin p q qs in
    elim (Bool-cases (r == q)) [
      | inl same ↦ rw same (ground (arith, same, filled))
      | inr other ↦ rw other (ground (arith, other, rest))
    ]

-- The list after AttachPlugin, if it is the one for the plugin.
abbrev with_plugin : Bool → ℕ → List ℕ → List ℕ
with_plugin uses q qs = if uses then (if is_listed q qs then qs else qs ++ q ∷ []) else qs

abbrev without_plugin : Bool → ℕ → List ℕ → List ℕ
without_plugin uses q qs = if uses then remove_plugin q qs else qs

count-with_plugin :
    (p q : ℕ) (uses : Bool) (qs : List ℕ)
    → count p (with_plugin uses q qs)
      ≡ (if uses && (q == p) then (if count p qs == 0 then 1 else count p qs) else count p qs)
count-with_plugin p q false qs = refl
count-with_plugin p q true qs = elim (Bool-cases (is_listed q qs)) [
  | inl listed ↦ rw listed (elim (Bool-cases (q == p)) [
    | inl same ↦
        let e : q ≡ p = ground (arith, same) in
        let some_p : not (count p qs == 0) ≡ true =
          sym (is_listed-count p qs) ∙ ap (λ r. is_listed r qs) (sym e) ∙ listed in
        rw same (ground (arith, some_p))
    | inr other ↦ rw other refl
  ])
  | inr new ↦ rw new (elim (Bool-cases (q == p)) [
    | inl same ↦
        let e : q ≡ p = ground (arith, same) in
        let no_p : not (count p qs == 0) ≡ false =
          sym (is_listed-count p qs) ∙ ap (λ r. is_listed r qs) (sym e) ∙ new in
        rw same (ground (arith, same, no_p, count-append p q qs))
    | inr other ↦ rw other (ground (arith, other, count-append p q qs))
  ])
]

count-without_plugin :
    (p q : ℕ) (uses : Bool) (qs : List ℕ)
    → count p (without_plugin uses q qs) ≡ (if uses && (q == p) then count p qs - 1 else count p qs)
count-without_plugin p q false qs = refl
count-without_plugin p q true qs = count-remove_plugin p q qs

count-attach :
    (p q : ℕ) (uses : ℕ → Bool) (before : Bool) (qs : List ℕ)
    → count p qs ≡ one_if (uses p && before)
    → count p (with_plugin (uses q) q qs) ≡ one_if (uses p && (if q == p then true else before))
count-attach p q uses before qs one =
    count-with_plugin p q (uses q) qs ∙ elim (Bool-cases (q == p)) [
      | inl same ↦
          let e : uses q ≡ uses p = ap uses (ground (arith, same)) in
          rw (same, e) (ground (arith, one))
      | inr other ↦ rw other (ground (arith, one))
    ]

count-detach :
    (p q : ℕ) (uses : ℕ → Bool) (before : Bool) (qs : List ℕ)
    → count p qs ≡ one_if (uses p && before)
    → count p (without_plugin (uses q) q qs) ≡ one_if (uses p && (if q == p then false else before))
count-detach p q uses before qs one =
    count-without_plugin p q (uses q) qs ∙ elim (Bool-cases (q == p)) [
      | inl same ↦
          let e : uses q ≡ uses p = ap uses (ground (arith, same)) in
          rw (same, e) (ground (arith, one))
      | inr other ↦ rw other (ground (arith, one))
    ]

module _ (uses_reliability_layer : ℕ → Bool) where
  -- The lists after calls.
  abbrev pub run : List Operation → Plugins
  run [] = record { not_threadsafe = []; threadsafe = []; calls = [] }
  run (attach q ∷ ops) = attach_plugin uses_reliability_layer q (run ops)
  run (detach q ∷ ops) = detach_plugin uses_reliability_layer q (run ops)

  attach_plugin-lists :
      (q : ℕ) (s : Plugins)
      → let s' = attach_plugin uses_reliability_layer q s in
        let uses = uses_reliability_layer q in
        (s'.not_threadsafe ≡ with_plugin uses q s.not_threadsafe)
        × (s'.threadsafe ≡ with_plugin (not uses) q s.threadsafe)
  unfolding attach_plugin
  attach_plugin-lists q s = elim (Bool-cases (uses_reliability_layer q)) [
    | inl uses ↦ rw uses (elim (Bool-cases (is_listed q s.not_threadsafe)) [
      | inl listed ↦ rw listed (refl, refl)
      | inr new ↦ rw new (refl, refl)
    ])
    | inr avoids ↦ rw avoids (elim (Bool-cases (is_listed q s.threadsafe)) [
      | inl listed ↦ rw listed (refl, refl)
      | inr new ↦ rw new (refl, refl)
    ])
  ]

  detach_plugin-lists :
      (q : ℕ) (s : Plugins)
      → let s' = detach_plugin uses_reliability_layer (some q) s in
        let uses = uses_reliability_layer q in
        (s'.not_threadsafe ≡ without_plugin uses q s.not_threadsafe)
        × (s'.threadsafe ≡ without_plugin (not uses) q s.threadsafe)
  unfolding detach_plugin
  detach_plugin-lists q s = elim (Bool-cases (uses_reliability_layer q)) [
    | inl uses ↦ rw uses (refl, refl)
    | inr avoids ↦ rw avoids (refl, refl)
  ]

  detach_plugin-none : (s : Plugins) → detach_plugin uses_reliability_layer none s ≡ s
  unfolding detach_plugin
  detach_plugin-none s = refl

  -- After any calls of AttachPlugin and DetachPlugin, a plugin is once in the list that
  -- UsesReliabilityLayer chooses if the last call for it was AttachPlugin, else not at all, and
  -- never in the other list; although a detached plugin's place is taken by the last one.
  pub run-is_attached :
      (ops : List Operation) (p : ℕ)
      → let uses = uses_reliability_layer p in
        (count p (run ops).not_threadsafe ≡ one_if (uses && is_attached p ops))
        × (count p (run ops).threadsafe ≡ one_if (not uses && is_attached p ops))
  run-is_attached [] p = ground arith
  run-is_attached (attach q ∷ ops) p =
      let (ih, ih') = run-is_attached ops p in
      let (nts, ts) = attach_plugin-lists q (run ops) in
      (
        ap (count p) nts ∙ count-attach p q uses_reliability_layer (is_attached p ops) _ ih,
        ap (count p) ts
            ∙ count-attach p q (λ r. not (uses_reliability_layer r)) (is_attached p ops) _ ih',
      )
  run-is_attached (detach none ∷ ops) p = rw (detach_plugin-none (run ops)) (run-is_attached ops p)
  run-is_attached (detach (some q) ∷ ops) p =
      let (ih, ih') = run-is_attached ops p in
      let (nts, ts) = detach_plugin-lists q (run ops) in
      (
        ap (count p) nts ∙ count-detach p q uses_reliability_layer (is_attached p ops) _ ih,
        ap (count p) ts
            ∙ count-detach p q (λ r. not (uses_reliability_layer r)) (is_attached p ops) _ ih',
      )
