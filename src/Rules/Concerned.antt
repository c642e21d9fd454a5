-- ===== src/Rules/Concerned.antt =====
-- server/removal_buffer.rs and core/replication/replication_rules.rs: which rules a removal concerns.
use bevy_mod_replication.Common.{
  ℕ, ◌≡◌, refl, Bool, true, false, ◌&&◌, ◌||◌, any, List, [], ◌∷◌, all, Bool-cases, inl, inr,
}
use bevy_mod_replication.Common.Maps.{contains}
use bevy_mod_replication.Rules.{ReplicationRule, matches_from, matches_removals}

-- Whether a removal concerns a rule: something that the rule names is removed, and the archetype has the
-- rest of what it names.
unfoldable pub concerns : (ℕ → Bool) → List ℕ → ReplicationRule → Bool
concerns archetype removed rule =
    any (λ c. contains c.0 removed) rule.components
    && all (λ c. contains c.0 removed || archetype c.0) rule.components

-- `found` says whether something was found to be removed before.
matches_from-concerns :
    (archetype : ℕ → Bool) (removed : List ℕ) (found : Bool) (cs : List (ℕ × ℕ))
    → matches_from archetype removed found cs ≡ (
        (found || any (λ c. contains c.0 removed) cs)
        && all (λ c. contains c.0 removed || archetype c.0) cs)
unfolding matches_from
matches_from-concerns archetype removed true [] = refl
matches_from-concerns archetype removed false [] = refl
matches_from-concerns archetype removed found (c ∷ cs) = elim (Bool-cases (contains c.0 removed)) [
  | inl gone ↦ rw (gone, matches_from-concerns archetype removed true cs) (with_found found _)
  | inr kept ↦ elim (Bool-cases (archetype c.0)) [
    | inl there ↦ rw (kept, there, matches_from-concerns archetype removed found cs) refl
    | inr lost ↦ rw (kept, lost) (never (found || _))
  ]
]
  where
    with_found : (b d : Bool) → d ≡ ((b || true) && d)
    with_found true d = refl
    with_found false d = refl

    never : (b : Bool) → false ≡ (b && false)
    never true = refl
    never false = refl

pub matches_removals-concerns :
    (archetype : ℕ → Bool) (removed : List ℕ) (rule : ReplicationRule)
    → matches_removals archetype removed rule ≡ concerns archetype removed rule
unfolding matches_removals concerns
matches_removals-concerns archetype removed rule =
    matches_from-concerns archetype removed false rule.components
