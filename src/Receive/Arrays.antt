-- ===== src/Receive/Arrays.antt =====
-- client.rs: `apply_array` on items that are written one after the other.
use bevy_mod_replication.Common.{
  ℕ, zero, suc, ◌+◌, ◌<◌, ◌≤◌, ◌≡◌, refl, ap, subst, ◌∙◌, List, [], ◌∷◌, ◌++◌, length, All, Outcome,
  ok, panic, arith, append_assoc, length-append,
}
use bevy_mod_replication.Common.{◌>>=◌ as then}
use bevy_mod_replication.Backend.Server.{Bytes}
use bevy_mod_replication.Wire.{Wire, IsWire, Reader, value, u64_mod}
use bevy_mod_replication.Messages.{concat}
use bevy_mod_replication.Receive.Steps.{
  Action, ArrayKind, Step, done, panicked_at, after, resume, settle, ◌>>=◌, read, run, change,
  repeat, until_end, apply_array, pure,
}

-- The items' effects one after the other.
unfoldable pub replay : {S X : Type 0} → (X → S → Outcome S) → List X → S → Outcome S
replay g [] t = ok t
replay g (x ∷ xs) t = then (g x t) (λ t'. replay g xs t')

-- A step that reads a value goes on with it.
pub read-value :
    {S A B : Type 0} (r : Reader A) (k : A → Action S B) (t : S) {bytes rest : Bytes} {a : A}
    {s : Step S B}
    → r bytes ≡ value a rest
    → k a t rest ≡ s
    → (read r >>= k) t bytes ≡ s
unfolding read ◌>>=◌
read-value r k t h e = ap (λ d. resume (settle t d) k) h ∙ e

resume-after :
    {S A B : Type 0} (k : A → Action S B) {a : A} (rest : Bytes) (o : Outcome S) (g : S → Outcome S)
    (b : B) (rest' : Bytes)
    → ((t : S) → k a t rest ≡ after (g t) b rest')
    → resume (after o a rest) k ≡ after (then o g) b rest'
resume-after k rest (ok t) g b rest' e = e t
resume-after k rest panic g b rest' e = refl

-- A step that ends with a result or a panic.
pub bind-after :
    {S A B : Type 0} (m : Action S A) (k : A → Action S B) (t : S) {bytes rest : Bytes} {a : A}
    (o : Outcome S) (g : S → Outcome S) (b : B) (rest' : Bytes)
    → m t bytes ≡ after o a rest
    → ((t' : S) → k a t' rest ≡ after (g t') b rest')
    → (m >>= k) t bytes ≡ after (then o g) b rest'
unfolding ◌>>=◌
bind-after m k t {rest = rest} o g b rest' h e =
    ap (λ s. resume s k) h ∙ resume-after k rest o g b rest' e

resume_end :
    {S A : Type 0} (o : Outcome S) (a : A) (rest : Bytes)
    → resume (after o tt rest) (λ _. pure a) ≡ after o a rest
resume_end (ok t) a rest = refl
resume_end panic a rest = refl

pub change-after :
    {S : Type 0} (f : S → Outcome S) (t : S) (bytes : Bytes)
    → change f t bytes ≡ after (f t) tt bytes
unfolding change
change-after f t bytes = refl

-- A change goes on, or panics.
pub bind-change :
    {S B : Type 0} (f : S → Outcome S) (k : Unit {0} → Action S B) (t : S) (bytes : Bytes)
    (g : S → Outcome S) (b : B) (rest : Bytes)
    → ((t' : S) → k tt t' bytes ≡ after (g t') b rest)
    → (change f >>= k) t bytes ≡ after (then (f t) g) b rest
bind-change f k t bytes g b rest e =
    bind-after (change f) k t (f t) g b rest (change-after f t bytes) e

bind-run_lem :
    {S A B : Type 0} (o : Outcome (S × A)) (k : A → Action S B) (bytes : Bytes)
    (g : S × A → Outcome S) (b : B) (rest : Bytes)
    → ((t' : S) (a : A) → k a t' bytes ≡ after (g (t', a)) b rest)
    → resume (elim o as (λ _. Step S A) [ ok r ↦ done r.0 r.1 bytes | panic ↦ panicked_at ]) k
      ≡ after (then o g) b rest
bind-run_lem (ok r) k bytes g b rest e = e r.0 r.1
bind-run_lem panic k bytes g b rest e = refl

-- The same for a change with a result.
pub bind-run :
    {S A B : Type 0} (f : S → Outcome (S × A)) (k : A → Action S B) (t : S) (bytes : Bytes)
    (g : S × A → Outcome S) (b : B) (rest : Bytes)
    → ((t' : S) (a : A) → k a t' bytes ≡ after (g (t', a)) b rest)
    → (run f >>= k) t bytes ≡ after (then (f t) g) b rest
unfolding run ◌>>=◌
bind-run f k t bytes g b rest e = bind-run_lem (f t) k bytes g b rest e

-- The same where only a result is left to give.
bind-after_end :
    {S A : Type 0} (m : Action S (Unit {0})) (t : S) {bytes : Bytes} (rest : Bytes) (o : Outcome S)
    (a : A)
    → m t bytes ≡ after o tt rest
    → (m >>= λ _. pure a) t bytes ≡ after o a rest
unfolding ◌>>=◌
bind-after_end m t rest o a h = ap (λ s. resume s (λ _. pure a)) h ∙ resume_end o a rest

until_end_end :
    {S : Type 0} (fuel n : ℕ) (f : Action S (Unit {0})) (t : S)
    → until_end fuel n f t [] ≡ done t n []
unfolding until_end
until_end_end zero n f t = refl
until_end_end (suc fuel) n f t = refl

until_end_step :
    {S : Type 0} (fuel n : ℕ) (f : Action S (Unit {0})) (t : S) (bytes : Bytes)
    → 0 < length bytes
    → until_end (suc fuel) n f t bytes ≡ (f >>= λ _. until_end fuel (n + 1) f) t bytes
unfolding until_end
until_end_step fuel n f t [] some = let no : ⊥ = omega (arith, some) in elim no [ ]
until_end_step fuel n f t (b ∷ bytes) some = refl

-- An item that is written is read with the effect that it has on the state.
abbrev pub Reads :
    {S X : Type 0} → Action S (Unit {0}) → (X → Bytes) → (X → S → Outcome S) → (X → Type 0) → Type 0
Reads f enc g P = (x : _) (t : _) (rest : Bytes) → P x → f t (enc x ++ rest) ≡ after (g x t) tt rest

module _ {S X Component : Type 0} (w : Wire Component) (f : Action S (Unit {0})) (enc : X → Bytes)
    (g : X → S → Outcome S) (P : X → Type 0) where
  repeat-Reads :
      Reads f enc g P
      → (xs : List X) (t : S) (rest : Bytes) → All P xs
      → repeat (length xs) f t (concat w enc xs ++ rest) ≡ after (replay g xs t) tt rest
  unfolding concat repeat replay
  repeat-Reads reads [] t rest good = refl
  repeat-Reads reads (x ∷ xs) t rest good = rw (append_assoc (enc x) (concat w enc xs) rest) (
      bind-after f (λ _. repeat (length xs) f) t (g x t) (λ t'. replay g xs t') _ _
        (reads x t (concat w enc xs ++ rest) good.0) (λ t'. repeat-Reads reads xs t' rest good.1))

  until_end-Reads :
      Reads f enc g P
      → ((x : X) → 0 < length (enc x))
      → (xs : List X) (fuel n : ℕ) (t : S) → length (concat w enc xs) ≤ fuel
      → All P xs
      → until_end fuel n f t (concat w enc xs) ≡ after (replay g xs t) (n + length xs) []
  unfolding concat until_end replay
  until_end-Reads reads some [] fuel n t room good =
      subst (λ (k : ℕ). until_end fuel n f t [] ≡ done t k []) (omega arith)
        (until_end_end fuel n f t)
  until_end-Reads reads some (x ∷ xs) zero n t room good =
      let no : ⊥ = omega (arith, room, some x, length-append (enc x) (concat w enc xs)) in
      elim no [ ]
  until_end-Reads reads some (x ∷ xs) (suc fuel) n t room good =
      let total = length-append (enc x) (concat w enc xs) in
      let e : n + suc (length xs) ≡ (n + 1) + length xs = omega arith in
      rw (until_end_step fuel n f t (enc x ++ concat w enc xs) (omega (arith, some x, total)), e)
        (bind-after f (λ _. until_end fuel (n + 1) f) t (g x t) (λ t'. replay g xs t') _ _
          (reads x t (concat w enc xs) good.0)
          (λ t'.
            until_end-Reads reads some xs fuel (n + 1) t' (omega (arith, room, some x, total))
              good.1))

  pub apply_array-Reads :
      (laws : IsWire w)
      → Reads f enc g P
      → ((x : X) → 0 < length (enc x))
      → (xs : List X) (t : S) → All P xs
      → apply_array w ArrayKind.dynamic f t (concat w enc xs) ≡ after (replay g xs t) (length xs) []
  unfolding apply_array
  apply_array-Reads laws reads some xs t good =
      subst
        (λ (k : ℕ).
          until_end (length (concat w enc xs)) 0 f t (concat w enc xs) ≡ after (replay g xs t) k [])
        (omega arith)
        (until_end-Reads reads some xs (length (concat w enc xs)) 0 t (omega arith) good)

  pub apply_sized-Reads :
      (laws : IsWire w)
      → Reads f enc g P
      → (xs : List X) (t : S) (rest : Bytes) → length xs < u64_mod
      → All P xs
      → apply_array w ArrayKind.sized f t (w.varint (length xs) ++ (concat w enc xs ++ rest))
        ≡ after (replay g xs t) (length xs) rest
  unfolding apply_array
  apply_sized-Reads laws reads xs t rest small good =
      read-value w.read_varint _ t (laws.varint_read (length xs) (concat w enc xs ++ rest) small) (
        bind-after_end (repeat (length xs) f) t rest (replay g xs t) (length xs)
          (repeat-Reads reads xs t rest good))
