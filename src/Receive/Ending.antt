-- ===== src/Receive/Ending.antt =====
-- client.rs: actions that end: the loops have enough fuel where each item takes a byte at least.
use bevy_mod_replication.Common.{
  ℕ, zero, suc, ◌+◌, ◌%◌, ◌<◌, ◌≤◌, ◌≡◌, refl, Bool, true, false, [], ◌∷◌, length, ◌==◌, Outcome,
  ok, panic, arith, if◌then◌else◌,
}
use bevy_mod_replication.Common.Bits.{bit_and}
use bevy_mod_replication.Backend.Server.{Bytes}
use bevy_mod_replication.Wire.{Wire, IsReader, Reader, Decoded, value, error, panicked, ◌>>=◌}
use bevy_mod_replication.Wire.Entities.{deserialize_entity, from_parts}
use bevy_mod_replication.Receive.Steps.{
  Action, ArrayKind, Step, done, failed, panicked_at, unfinished, resume, settle, after, read, run,
  change, pure, repeat, until_end, apply_array, ◌>>=◌ as bind,
}

-- A step that ends, with fewer bytes left than the given number.
unfoldable pub Within : {S A : Type 0} → ℕ → Step S A → Type 0
Within n (done t a rest) = length rest < n
Within n (failed t) = Unit
Within n panicked_at = Unit
Within n unfinished = ⊥

-- The same for a read.
unfoldable pub Leaves : {A : Type 0} → ℕ → Decoded A → Type 0
Leaves n (value a rest) = length rest < n
Leaves n error = Unit
Leaves n panicked = Unit

-- An action that ends and leaves no more bytes than there were; one that takes a byte at least.
abbrev pub IsEnding : {S A : Type 0} → Action S A → Type 0
IsEnding f = (t : _) (bytes : Bytes) → Within (suc (length bytes)) (f t bytes)

abbrev pub IsTaking : {S A : Type 0} → Action S A → Type 0
IsTaking f = (t : _) (bytes : Bytes) → Within (length bytes) (f t bytes)

pub weaken-Within : {S A : Type 0} (m n : ℕ) (s : Step S A) → m ≤ n → Within m s → Within n s
unfolding Within
weaken-Within m n (done t a rest) l h = omega (arith, l, h)
weaken-Within m n (failed t) l h = tt
weaken-Within m n panicked_at l h = tt
weaken-Within m n unfinished l h = h

pub resume-Within :
    {S A B : Type 0} (m n : ℕ) (s : Step S A) (k : A → Action S B)
    → Within m s
    → ((t : S) (a : A) (rest : Bytes) → length rest < m → Within n (k a t rest))
    → Within n (resume s k)
unfolding Within
resume-Within m n (done t a rest) k h j = j t a rest h
resume-Within m n (failed t) k h j = tt
resume-Within m n panicked_at k h j = tt
resume-Within m n unfinished k h j = elim h [ ]

pub if-Within :
    {S A : Type 0} (n : ℕ) (b : Bool) (x y : Step S A)
    → Within n x
    → Within n y
    → Within n (if b then x else y)
if-Within n true x y h k = h
if-Within n false x y h k = k

settle-Within : {S A : Type 0} (n : ℕ) (t : S) (d : Decoded A) → Leaves n d → Within n (settle t d)
unfolding Within Leaves
settle-Within n t (value a rest) h = h
settle-Within n t error h = tt
settle-Within n t panicked h = tt

pub read-IsTaking :
    {S A : Type 0} (r : Reader A)
    → ((bytes : Bytes) → Leaves (length bytes) (r bytes))
    → IsTaking (read {S = S} r)
unfolding read
read-IsTaking r h t bytes = settle-Within (length bytes) t (r bytes) (h bytes)

pub read-IsEnding :
    {S A : Type 0} (r : Reader A)
    → ((bytes : Bytes) → Leaves (suc (length bytes)) (r bytes))
    → IsEnding (read {S = S} r)
unfolding read
read-IsEnding r h t bytes = settle-Within (suc (length bytes)) t (r bytes) (h bytes)

pub bind-IsTaking :
    {S A B : Type 0} (m : Action S A) (k : A → Action S B)
    → IsTaking m
    → ((a : A) → IsEnding (k a))
    → IsTaking (bind m k)
unfolding bind
bind-IsTaking m k h j t bytes =
    resume-Within (length bytes) (length bytes) (m t bytes) k (h t bytes) (λ t' a rest l.
      weaken-Within (suc (length rest)) (length bytes) (k a t' rest) (omega arith) (j a t' rest))

pub bind-IsEnding :
    {S A B : Type 0} (m : Action S A) (k : A → Action S B)
    → IsEnding m
    → ((a : A) → IsEnding (k a))
    → IsEnding (bind m k)
unfolding bind
bind-IsEnding m k h j t bytes =
    resume-Within (suc (length bytes)) (suc (length bytes)) (m t bytes) k (h t bytes)
      (λ t' a rest l.
        weaken-Within (suc (length rest)) (suc (length bytes)) (k a t' rest) (omega arith)
          (j a t' rest))

pub taking-IsEnding : {S A : Type 0} (m : Action S A) → IsTaking m → IsEnding m
taking-IsEnding m h t bytes =
    weaken-Within (length bytes) (suc (length bytes)) (m t bytes) (omega arith) (h t bytes)

after-Within :
    {S A : Type 0} (o : Outcome S) (a : A) (bytes : Bytes)
    → Within (suc (length bytes)) (after o a bytes)
unfolding Within
after-Within (ok t) a bytes = omega arith
after-Within panic a bytes = tt

pub change-IsEnding : {S : Type 0} (f : S → Outcome S) → IsEnding (change f)
unfolding change
change-IsEnding f t bytes = after-Within (f t) tt bytes

run-Within :
    {S A : Type 0} (o : Outcome (S × A)) (bytes : Bytes)
    → Within
        (suc (length bytes))
        (elim o as (λ _. Step S A) [ ok r ↦ done r.0 r.1 bytes | panic ↦ panicked_at ])
unfolding Within
run-Within (ok r) bytes = omega arith
run-Within panic bytes = tt

pub run-IsEnding : {S A : Type 0} (f : S → Outcome (S × A)) → IsEnding (run f)
unfolding run
run-IsEnding f t bytes = run-Within (f t) bytes

pub pure-IsEnding : {S A : Type 0} (a : A) → IsEnding (pure {S = S} a)
unfolding Within
pure-IsEnding a t bytes = omega arith

until_end-Within :
    {S : Type 0} (f : Action S (Unit {0}))
    → IsTaking f
    → (fuel len : ℕ) (t : S) (bytes : Bytes) → length bytes ≤ fuel
    → Within 1 (until_end fuel len f t bytes)
unfolding until_end bind
until_end-Within f takes zero len t [] l = unfold Within in omega arith
until_end-Within f takes (suc fuel) len t [] l = unfold Within in omega arith
until_end-Within f takes zero len t (b ∷ bytes) l = let no : ⊥ = omega (arith, l) in elim no [ ]
until_end-Within f takes (suc fuel) len t (b ∷ bytes) l =
    resume-Within (length (b ∷ bytes)) 1 (f t (b ∷ bytes)) _ (takes t (b ∷ bytes))
      (λ t' _ rest l'. until_end-Within f takes fuel (len + 1) t' rest (omega (arith, l, l')))

repeat-IsEnding :
    {S : Type 0} (f : Action S (Unit {0})) → IsTaking f → (n : ℕ) → IsEnding (repeat n f)
unfolding repeat
repeat-IsEnding f takes zero = pure-IsEnding tt
repeat-IsEnding f takes (suc n) =
    bind-IsEnding f (λ _. repeat n f) (taking-IsEnding f takes) (λ _. repeat-IsEnding f takes n)

Leaves-intro :
    {A : Type 0} (n : ℕ) (d : Decoded A)
    → ((a : A) (rest : Bytes) → d ≡ value a rest → length rest < n)
    → Leaves n d
unfolding Leaves
Leaves-intro n (value a rest) h = h a rest refl
Leaves-intro n error h = tt
Leaves-intro n panicked h = tt

value-Leaves :
    {A : Type 0} (n : ℕ) (a : A) (rest : Bytes) → length rest < n → Leaves n (value a rest)
unfolding Leaves
value-Leaves n a rest l = l

panicked-Leaves : (A : Type 0) (n : ℕ) → Leaves {A = A} n panicked
unfolding Leaves
panicked-Leaves A n = tt

if-Leaves :
    {A : Type 0} (n : ℕ) (b : Bool) (x y : Decoded A)
    → Leaves n x
    → Leaves n y
    → Leaves n (if b then x else y)
if-Leaves n true x y h k = h
if-Leaves n false x y h k = k

if-Leaves_reader :
    {A : Type 0} (n : ℕ) (b : Bool) (x y : Reader A) (bytes : Bytes)
    → Leaves n (x bytes)
    → Leaves n (y bytes)
    → Leaves n ((if b then x else y) bytes)
if-Leaves_reader n true x y bytes h k = h
if-Leaves_reader n false x y bytes h k = k

bind-Leaves :
    {A B : Type 0} (m n : ℕ) (d : Decoded A) (f : A → Reader B)
    → Leaves m d
    → ((a : A) (rest : Bytes) → length rest < m → Leaves n (f a rest))
    → Leaves n (elim d as (λ _. Decoded B) [
      | value a rest ↦ f a rest
      | error ↦ error
      | panicked ↦ panicked
    ])
unfolding Leaves
bind-Leaves m n (value a rest) f h k = k a rest h
bind-Leaves m n error f h k = tt
bind-Leaves m n panicked f h k = tt

module _ {Component : Type 0} (w : Wire Component) (laws : IsReader w) where
  pub varint-Leaves : (bytes : Bytes) → Leaves (length bytes) (w.read_varint bytes)
  varint-Leaves bytes = Leaves-intro _ _ (λ n rest h. laws.varint_less bytes rest n h)

  generation-Leaves : (bytes : Bytes) → Leaves (length bytes) (w.read_generation bytes)
  generation-Leaves bytes = Leaves-intro _ _ (λ n rest h. laws.generation_less bytes rest n h)

  pub fns_id-Leaves : (bytes : Bytes) → Leaves (length bytes) (w.read_fns_id bytes)
  fns_id-Leaves bytes = Leaves-intro _ _ (λ n rest h. laws.fns_id_less bytes rest n h)

  pub tick-Leaves : (bytes : Bytes) → Leaves (length bytes) (w.read_tick bytes)
  tick-Leaves bytes = Leaves-intro _ _ (λ n rest h. laws.tick_less bytes rest n h)

  pub component-Leaves :
      (id : ℕ) (bytes : Bytes) → Leaves (suc (length bytes)) (w.read_component id bytes)
  component-Leaves id bytes =
      Leaves-intro _ _ (λ c rest h. let l = laws.component_le id bytes rest c h in omega (arith, l))

  from_parts-Leaves :
      (n a b : ℕ) (rest : Bytes) → length rest < n → Leaves n (from_parts w a b rest)
  unfolding from_parts
  from_parts-Leaves n a b rest l =
      if-Leaves n _ _ _ (if-Leaves n _ _ _ (value-Leaves n _ rest l) (panicked-Leaves _ n))
        (panicked-Leaves _ n)

  pub entity-Leaves : (bytes : Bytes) → Leaves (length bytes) (deserialize_entity w bytes)
  unfolding deserialize_entity ◌>>=◌
  entity-Leaves bytes =
      bind-Leaves (length bytes) (length bytes) (w.read_varint bytes) _ (varint-Leaves bytes)
        (λ flagged_index rest l.
          if-Leaves_reader (length bytes) (bit_and flagged_index 1 == 0)
            (from_parts w flagged_index 1) _ rest
            (from_parts-Leaves (length bytes) flagged_index 1 rest l)
            (bind-Leaves (length rest) (length bytes) (w.read_generation rest) _
              (generation-Leaves rest)
              (λ g rest' l'.
                from_parts-Leaves (length bytes) flagged_index ((g + 1) % 4294967296) rest'
                  (omega (arith, l, l')))))

  pub apply_array-IsEnding :
      {S : Type 0} (kind : ArrayKind) (f : Action S (Unit {0}))
      → IsTaking f
      → IsEnding (apply_array w kind f)
  unfolding apply_array
  apply_array-IsEnding ArrayKind.sized f takes t bytes =
      bind-IsEnding (read w.read_varint) _
        (taking-IsEnding _ (read-IsTaking w.read_varint varint-Leaves))
        (λ n. bind-IsEnding (repeat n f) _ (repeat-IsEnding f takes n) (λ _. pure-IsEnding n)) t
        bytes
  apply_array-IsEnding ArrayKind.dynamic f takes t bytes =
      weaken-Within 1 (suc (length bytes)) _ (omega arith)
        (until_end-Within f takes (length bytes) 0 t bytes (omega arith))
