-- ===== src/Markers/Kept.antt =====
-- core/replication/replication_registry.rs: what each registration keeps of the registry.
use bevy_mod_replication.Common.{
  ℕ, zero, suc, ◌≤◌, ◌<◌, ◌≡◌, refl, sym, ap, ◌∙◌, subst, Bool, ◌==◌, Option, none, some, List, [],
  ◌∷◌, ◌++◌, length, All, get_elem?, if◌then◌else◌, Outcome, ok, arith, Bool-cases, Option-cases,
  inl, inr, length-append, length-set, length-replicate, debug_assert, ==→eq, >>=-ok, expect,
  expect-ok, set,
}
use bevy_mod_replication.Markers.{marker_id}
use bevy_mod_replication.Markers.Fns.{
  ComponentFns, set_slot, set_marker_fns, set_command_fns, new, is_none,
}
use bevy_mod_replication.Markers.Registry.{
  ReplicationRegistry, after_first, position, or_insert, init_component_fns, update_at,
  register_rule_fns,
}
use bevy_mod_replication.Markers.Aligned.{get_elem?-All}

-- What holds of the registry, with so many markers.
abbrev pub IsRegistry : {F R : Type 0} → ℕ → ReplicationRegistry F R → Type 0
IsRegistry n registry =
    (registry.marker_slots ≡ n)
    × All (λ c. length c.1.markers ≡ n) registry.components
    × All (λ r. r.1 < length registry.components) registry.rules

All-append : {A : Type 0} (P : A → Type 0) (xs ys : List A) → All P xs → All P ys → All P (xs ++ ys)
All-append P [] ys h k = k
All-append P (x ∷ xs) ys h k = (h.0, All-append P xs ys h.1 k)

All-set :
    {A : Type 0} (P : A → Type 0) (xs : List A) (i : ℕ) (a : A)
    → All P xs
    → P a
    → All P (set xs i a)
All-set P [] i a h p = tt
All-set P (x ∷ xs) zero a h p = (p, h.1)
All-set P (x ∷ xs) (suc i) a h p = (h.0, All-set P xs i a h.1 p)

below_more :
    {R : Type 0} (m n : ℕ) (rules : List (R × ℕ))
    → m ≤ n
    → All (λ r. r.1 < m) rules
    → All (λ r. r.1 < n) rules
below_more m n [] h k = tt
below_more m n (r ∷ rules) h k = (omega (arith, h, k.0), below_more m n rules h k.1)

get_elem?-last :
    {A : Type 0} (xs : List A) (a : A) → get_elem? (xs ++ (a ∷ [])) (length xs) ≡ some a
get_elem?-last [] a = refl
get_elem?-last (x ∷ xs) a = get_elem?-last xs a

get_elem?-less :
    {A : Type 0} (xs : List A) (i : ℕ) (a : A) → get_elem? xs i ≡ some a → i < length xs
get_elem?-less [] i a e = absurd cc
get_elem?-less (x ∷ xs) zero a e = omega arith
get_elem?-less (x ∷ xs) (suc i) a e = let h = get_elem?-less xs i a e in omega (arith, h)

module _ {F : Type 0} where
  get_elem?-position :
      (component_id : ℕ) (components : List (ℕ × ComponentFns F)) (i : ℕ)
      → position component_id components ≡ some i
      → (fns : ComponentFns F) × (get_elem? components i ≡ some (component_id, fns))
  unfolding position
  get_elem?-position component_id [] i e = absurd cc
  get_elem?-position component_id ((id, fns) ∷ rest) i e = elim (Bool-cases (id == component_id)) [
    | inl here ↦
        let same : id ≡ component_id = ==→eq id component_id here in
        let first : some zero ≡ some i =
          sym (
            subst (λ b. (if b then some 0 else after_first (position component_id rest)) ≡ some 0)
              (sym here) refl)
          ∙ e in
        let at : zero ≡ i = cc in
        (
          fns,
          subst (λ j. get_elem? ((id, fns) ∷ rest) j ≡ some (component_id, fns)) at
              (ap (λ (n : ℕ). some (n, fns)) same),
        )
    | inr other ↦
        let next : after_first (position component_id rest) ≡ some i =
          sym (
            subst
              (λ b.
                (if b then some 0 else after_first (position component_id rest))
                ≡ after_first (position component_id rest))
              (sym other) refl)
          ∙ e in
        elim (Option-cases (position component_id rest)) [
          | inl gone ↦ let nothing : none ≡ some i = ap after_first (sym gone) ∙ next in absurd cc
          | inr (j, there) ↦
              let found : some (suc j) ≡ some i = ap after_first (sym there) ∙ next in
              let at : suc j ≡ i = cc in
              let (fns', e') = get_elem?-position component_id rest j there in
              (fns', subst (λ k. get_elem? ((id, fns) ∷ rest) k ≡ some (component_id, fns')) at e')
        ]
  ]

module _ {F : Type 0} where
  set_slot-length :
      (checks : Bool) (marker_id : ℕ) (command_fns : F) (markers markers' : List (Option F))
      (slot : Option (Option F))
      → set_slot checks marker_id command_fns markers slot ≡ ok markers'
      → length markers' ≡ length markers
  unfolding set_slot
  set_slot-length checks marker_id command_fns markers markers' none run = absurd cc
  set_slot-length checks marker_id command_fns markers markers' (some fns) run =
      let (u, asserted, e) = >>=-ok (debug_assert checks (is_none fns)) _ markers' run in
      let same : set markers marker_id (some command_fns) ≡ markers' = cc in
      ap length (sym same) ∙ length-set markers marker_id (some command_fns)

  pub set_marker_fns-length :
      (checks : Bool) (marker_id : ℕ) (command_fns : F) (fns fns' : ComponentFns F)
      → set_marker_fns checks fns marker_id command_fns ≡ ok fns'
      → length fns'.markers ≡ length fns.markers
  unfolding set_marker_fns
  set_marker_fns-length checks marker_id command_fns fns fns' run =
      let (markers, slot_set, e) =
        >>=-ok (set_slot checks marker_id command_fns fns.markers (get_elem? fns.markers marker_id))
          _ fns' run in
      let same : ◌≡◌ {A = ComponentFns F} (record fns { markers = markers }) fns' = cc in
      let kept =
        set_slot-length checks marker_id command_fns fns.markers markers
          (get_elem? fns.markers marker_id) slot_set in
      ap (λ (x : ComponentFns F). length x.markers) (sym same) ∙ kept

module _ {F R : Type 0} where
  pub init_component_fns-IsRegistry :
      (n : ℕ) (registry : ReplicationRegistry F R) (default_fns : F) (component_id : ℕ)
      → IsRegistry n registry
      → let r = init_component_fns registry default_fns component_id in
        IsRegistry n r.0
        × (r.0.rules ≡ registry.rules)
        × ((fns : ComponentFns F) × (get_elem? r.0.components r.1 ≡ some (component_id, fns)))
  unfolding init_component_fns or_insert new
  init_component_fns-IsRegistry n registry default_fns component_id (slots, aligned, rules) =
      elim (Option-cases (position component_id registry.components)) [
        | inl gone ↦ rw gone (
          (
            slots,
            All-append (λ c. length c.1.markers ≡ n) registry.components _ aligned
                (length-replicate registry.marker_slots none ∙ slots, tt),
            below_more (length registry.components) _ registry.rules
                (omega (
                  arith,
                  length-append registry.components
                      ((component_id, new default_fns registry.marker_slots) ∷ []),
                ))
                rules,
          ),
          refl,
          (
            new default_fns registry.marker_slots,
            get_elem?-last registry.components
                (component_id, new default_fns registry.marker_slots),
          ),
        )
        | inr (i, there) ↦ rw there (
          (slots, aligned, rules),
          refl,
          get_elem?-position component_id registry.components i there,
        )
      ]

  pub update_at-IsRegistry :
      (f : ComponentFns F → Outcome (ComponentFns F))
      → ((fns fns' : ComponentFns F) → f fns ≡ ok fns' → length fns'.markers ≡ length fns.markers)
      → (n i : ℕ) (registry registry' : ReplicationRegistry F R) → IsRegistry n registry
      → update_at f i registry ≡ ok registry'
      → IsRegistry n registry'
  unfolding update_at
  update_at-IsRegistry f keeps n i registry registry' (slots, aligned, rules) run =
      let (c, found, then_f) = >>=-ok (expect (get_elem? registry.components i)) _ registry' run in
      let (fns, ran, then_set) = >>=-ok (f c.1) _ registry' then_f in
      let there = expect-ok (get_elem? registry.components i) c found in
      let changed : ReplicationRegistry F R = record registry {
        components = set registry.components i (c.0, fns);
      } in
      let same : changed ≡ registry' = cc in
      subst (IsRegistry n) same (
        slots,
        All-set (λ x. length x.1.markers ≡ n) registry.components i (c.0, fns) aligned
            (keeps c.1 fns ran
              ∙ get_elem?-All (λ x. length x.1.markers ≡ n) registry.components i c aligned there),
        rw (length-set registry.components i (c.0, fns)) rules,
      )

  -- Registering the functions of a rule.
  pub register_rule_fns-IsRegistry :
      (n : ℕ) (registry : ReplicationRegistry F R) (default_fns : F) (component_id : ℕ)
      (rule_fns : R)
      → IsRegistry n registry
      → IsRegistry n (register_rule_fns registry default_fns component_id rule_fns).0
  unfolding register_rule_fns
  register_rule_fns-IsRegistry n registry default_fns component_id rule_fns h =
      let r = init_component_fns registry default_fns component_id in
      let (known, same, (fns, there)) =
        init_component_fns-IsRegistry n registry default_fns component_id h in
      (
        known.0,
        known.1,
        All-append (λ x. x.1 < length r.0.components) r.0.rules _ known.2
            (get_elem?-less r.0.components r.1 (component_id, fns) there, tt),
      )

module _ {F : Type 0} where
  pub command_fns-length :
      (command_fns : F) (fns fns' : ComponentFns F)
      → ◌≡◌ {A = Outcome (ComponentFns F)} (ok (set_command_fns fns command_fns)) (ok fns')
      → length fns'.markers ≡ length fns.markers
  unfolding set_command_fns
  command_fns-length command_fns fns fns' e =
      let same : set_command_fns fns command_fns ≡ fns' = cc in
      ap (λ (x : ComponentFns F). length x.markers) (sym same)
