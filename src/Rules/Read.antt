-- ===== src/Rules/Read.antt =====
-- server/removal_buffer.rs: which removals the reader gives.
use bevy_mod_replication.Common.{
  ℕ, ◌≡◌, refl, sym, ap, ◌∙◌, Bool, true, false, ◌&&◌, ◌||◌, List, [], ◌∷◌, ◌==◌, if◌then◌else◌,
  Bool-cases, inl, inr, ==→eq, ==_self, subst,
}
use bevy_mod_replication.Common.Maps.{
  lookup, insert, contains, set_insert, lookup-insert, contains-insert,
}
use bevy_mod_replication.Rules.Reader.{
  RemovalReader, or_empty, or_default, clear, read_entities, read_events, read,
}

-- Whether the removals have the component of the entity.
abbrev pub has : List (ℕ × List ℕ) → ℕ → ℕ → Bool
has removals entity component_id = contains component_id (or_empty (lookup entity removals))

has-insert :
    (removals : List (ℕ × List ℕ)) (x e id c : ℕ)
    → has (insert x (set_insert id (or_empty (lookup x removals))) removals) e c
      ≡ (if x == e then id == c || has removals e c else has removals e c)
has-insert removals x e id c = elim (Bool-cases (x == e)) [
  | inl same ↦
      subst
        (λ n.
          has (insert n (set_insert id (or_empty (lookup n removals))) removals) e c
          ≡ (if n == e then id == c || has removals e c else has removals e c))
        (sym (==→eq x e same))
        (rw
          (
            lookup-insert e e (set_insert id (or_empty (lookup e removals))) removals,
            ==_self e,
            contains-insert id c (or_empty (lookup e removals)),
          )
          (if-or (id == c) _))
  | inr other ↦
      rw (lookup-insert x e (set_insert id (or_empty (lookup x removals))) removals, other) refl
]
  where
    if-or : (b d : Bool) → (if b then true else d) ≡ (b || d)
    if-or true d = refl
    if-or false d = refl

or-and :
    (a r i x m : Bool) → ((a || (r && (i && x))) || (r && (i && m))) ≡ (a || (r && (i && (x || m))))
or-and true r i x m = refl
or-and false false i x m = refl
or-and false true false x m = refl
or-and false true true x m = refl

or-false : (a i : Bool) → a ≡ (a || (i && false))
or-false true i = refl
or-false false true = refl
or-false false false = refl

nothing-new : (a r i : Bool) → a ≡ (a || (r && (i && false)))
nothing-new true r i = refl
nothing-new false false i = refl
nothing-new false true false = refl
nothing-new false true true = refl

or-last : (a i : Bool) → (i || a) ≡ (a || (i && true))
or-last true true = refl
or-last true false = refl
or-last false true = refl
or-last false false = refl

or-none : (a : Bool) → a ≡ (a || false)
or-none true = refl
or-none false = refl

insert_event : (ℕ → Bool) → ℕ → ℕ → List (ℕ × List ℕ) → List (ℕ × List ℕ)
insert_event replicated id x removals =
    if replicated x
    then insert x (set_insert id (or_empty (lookup x removals))) removals
    else removals

has-insert_event :
    (replicated : ℕ → Bool) (removals : List (ℕ × List ℕ)) (x e id c : ℕ)
    → has (insert_event replicated id x removals) e c
      ≡ (has removals e c || (replicated e && (id == c && x == e)))
unfolding insert_event
has-insert_event replicated removals x e id c = elim (Bool-cases (x == e)) [
  | inl same ↦
      let at : replicated x ≡ replicated e = ap replicated (==→eq x e same) in
      elim (Bool-cases (replicated e)) [
        | inl there ↦
            rw (at, there, has-insert removals x e id c, same)
              (or-last (has removals e c) (id == c))
        | inr gone ↦ rw (at, gone) (or-none (has removals e c))
      ]
  | inr other ↦ elim (Bool-cases (replicated x)) [
    | inl there ↦
        rw (there, has-insert removals x e id c, other)
          (nothing-new (has removals e c) (replicated e) (id == c))
    | inr gone ↦ rw (gone, other) (nothing-new (has removals e c) (replicated e) (id == c))
  ]
]

read_entities-has :
    (replicated : ℕ → Bool) (e id c : ℕ) (entities : List ℕ) (removals : List (ℕ × List ℕ))
    → has (read_entities replicated id entities removals) e c
      ≡ (has removals e c || (replicated e && (id == c && contains e entities)))
unfolding read_entities insert_event contains
read_entities-has replicated e id c [] removals =
    nothing-new (has removals e c) (replicated e) (id == c)
read_entities-has replicated e id c (x ∷ entities) removals =
    read_entities-has replicated e id c entities (insert_event replicated id x removals)
    ∙ ap (λ b. b || (replicated e && (id == c && contains e entities)))
        (has-insert_event replicated removals x e id c)
    ∙ or-and (has removals e c) (replicated e) (id == c) (x == e) (contains e entities)

-- A test that the reader makes, and that what it is told makes too.
by_test :
    {A : Type 0} (b : Bool) (f : A → Bool) {x y : A} (a r t u : Bool)
    → f x ≡ (a || (r && t))
    → f y ≡ (a || (r && u))
    → f (if b then x else y) ≡ (a || (r && (if b then t else u)))
by_test true f a r t u told skipped = told
by_test false f a r t u told skipped = skipped

module _ {Cursor : Type 0} {Events : Type 0} (start : Cursor)
    (read_new : Cursor → Events → List ℕ × Cursor) (components : List ℕ) (e c : ℕ) where
  -- Whether an event of a component of some rule, new to the component's cursor, names `e` and `c`.
  unfoldable pub is_told : List (ℕ × Cursor) → List (ℕ × Events) → Bool
  is_told readers [] = false
  is_told readers (event ∷ remove_events) =
      let new = read_new (or_default start (lookup event.0 readers)) event.1 in
      let skipped = is_told readers remove_events in
      let told =
        (event.0 == c && contains e new.0)
        || is_told (insert event.0 new.1 readers) remove_events in
      if contains event.0 components then told else skipped

  or-told : (a r x t : Bool) → ((a || (r && x)) || (r && t)) ≡ (a || (r && (x || t)))
  or-told true r x t = refl
  or-told false false x t = refl
  or-told false true x t = refl

  read_events-has :
      (replicated : ℕ → Bool) (readers : List (ℕ × Cursor)) (removals : List (ℕ × List ℕ))
      (remove_events : List (ℕ × Events))
      → has
          (read_events start read_new replicated
            (record { components = components; readers = readers; removals = removals })
            remove_events).removals
          e
          c
        ≡ (has removals e c || (replicated e && is_told readers remove_events))
  unfolding read_events is_told
  read_events-has replicated readers removals [] =
      nothing-new (has removals e c) (replicated e) true
  read_events-has replicated readers removals (event ∷ remove_events) =
      let new = read_new (or_default start (lookup event.0 readers)) event.1 in
      by_test (contains event.0 components)
        (λ r. has (read_events start read_new replicated r remove_events).removals e c) _ _ _ _
        (read_events-has replicated (insert event.0 new.1 readers)
            (read_entities replicated event.0 new.0 removals) remove_events
          ∙ ap (λ b. b || (replicated e && is_told (insert event.0 new.1 readers) remove_events))
              (read_entities-has replicated e event.0 c new.0 removals)
          ∙ or-told (has removals e c) (replicated e) (event.0 == c && contains e new.0)
              (is_told (insert event.0 new.1 readers) remove_events))
        (read_events-has replicated readers removals remove_events)

-- After `read`, the removals of an entity have a component if and only if the entity is replicated and an
-- event that is new to the component's cursor names both, the component being one of the reader's.
pub read-has :
    {Cursor : Type 0} {Events : Type 0} (start : Cursor)
    (read_new : Cursor → Events → List ℕ × Cursor) (replicated : ℕ → Bool)
    (r : RemovalReader Cursor) (remove_events : List (ℕ × Events)) (e c : ℕ)
    → has (read start read_new replicated r remove_events).removals e c
      ≡ (replicated e && is_told start read_new r.components e c r.readers remove_events)
unfolding read clear lookup contains
read-has start read_new replicated r remove_events e c =
    read_events-has start read_new r.components e c replicated r.readers [] remove_events
