-- ===== src/Messages/Changes.antt =====
-- server/replication_messages/component_changes.rs: the components of one entity, as ranges that
-- are joined where they meet. The pool of emptied lists (`buffer`) is left out.
use bevy_mod_replication.Common.{
  ℕ, ◌+◌, ◌≡◌, refl, sym, ap, ◌∙◌, List, [], ◌∷◌, ◌++◌, length, ◌==◌, if◌then◌else◌, arith,
  append_assoc, append-nil, length-append, Bool-cases, inl, inr, ==→eq,
}
use bevy_mod_replication.Backend.Server.{Bytes}
use bevy_mod_replication.Messages.{Range, len}
use bevy_mod_replication.Messages.Slices.{Holds, HoldAll, len-Holds, join-Holds}

pub record ComponentChanges : Type 0 where
  pub entity : Range
  pub components_len : ℕ
  pub components : List Range

-- `last_mut`: the last range is extended where the new one starts at its end.
unfoldable pub add_range : List Range → Range → List Range
add_range [] r = r ∷ []
add_range (last ∷ []) r =
    if last.end == r.start then record last { end = r.end } ∷ [] else last ∷ r ∷ []
add_range (first ∷ second ∷ rest) r = first ∷ add_range (second ∷ rest) r

unfoldable pub sum_len : List Range → ℕ
sum_len [] = 0
sum_len (r ∷ rs) = len r + sum_len rs

unfoldable pub components_size : ComponentChanges → ℕ
unfolding sum_len
components_size c = sum_len c.components

unfoldable pub add_component : ComponentChanges → Range → ComponentChanges
unfolding add_range
add_component c component = record c {
  components_len = c.components_len + 1;
  components = add_range c.components component;
}

unfoldable pub extend : ComponentChanges → ComponentChanges → ComponentChanges
extend c other = record c {
  components = c.components ++ other.components;
  components_len = c.components_len + other.components_len;
}

pub add_range-HoldAll :
    (s : Bytes) (rs : List Range) (r : Range) (x y : Bytes)
    → HoldAll s rs x
    → Holds s r y
    → HoldAll s (add_range rs r) (x ++ y)
unfolding add_range HoldAll
add_range-HoldAll s [] r x y h k = (y, [], k, refl, append-nil y ∙ ap (λ (z : Bytes). z ++ y) h)
add_range-HoldAll s (last ∷ []) r x y (here, rest, h, e, f) k =
    elim (Bool-cases (last.end == r.start)) [
      | inl meets ↦
          let whole : here ≡ x = sym (append-nil here) ∙ ap (λ (z : Bytes). here ++ z) e ∙ f in
          rw meets (
            here ++ y,
            [],
            join-Holds s last r here y h k (==→eq last.end r.start meets),
            refl,
            append-nil (here ++ y) ∙ ap (λ (z : Bytes). z ++ y) whole,
          )
      | inr apart ↦
          let whole : here ≡ x = sym (append-nil here) ∙ ap (λ (z : Bytes). here ++ z) e ∙ f in
          rw apart (here, y, h, (y, [], k, refl, append-nil y), ap (λ (z : Bytes). z ++ y) whole)
    ]
add_range-HoldAll s (first ∷ second ∷ rs) r x y (here, rest, h, more, f) k = (
  here,
  rest ++ y,
  h,
  add_range-HoldAll s (second ∷ rs) r rest y more k,
  sym (append_assoc here rest y) ∙ ap (λ (z : Bytes). z ++ y) f,
)

pub append-HoldAll :
    (s : Bytes) (qs rs : List Range) (x y : Bytes)
    → HoldAll s qs x
    → HoldAll s rs y
    → HoldAll s (qs ++ rs) (x ++ y)
unfolding HoldAll
append-HoldAll s [] rs x y h k = rw (sym h) k
append-HoldAll s (q ∷ qs) rs x y (here, rest, h, more, f) k = (
  here,
  rest ++ y,
  h,
  append-HoldAll s qs rs rest y more k,
  sym (append_assoc here rest y) ∙ ap (λ (z : Bytes). z ++ y) f,
)

pub sum_len-HoldAll :
    (s : Bytes) (rs : List Range) (x : Bytes) → HoldAll s rs x → sum_len rs ≡ length x
unfolding sum_len HoldAll
sum_len-HoldAll s [] x h = ap length h
sum_len-HoldAll s (r ∷ rs) x (here, rest, h, more, f) = omega (
  arith,
  len-Holds s r here h,
  sum_len-HoldAll s rs rest more,
  length-append here rest,
  ap length f,
)
