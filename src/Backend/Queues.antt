-- ===== src/Backend/Queues.antt =====
-- core/replicon_server.rs and core/replicon_client.rs: the queues of received messages, one for
-- each channel.
use bevy_mod_replication.Common.{ℕ, zero, suc, ◌≡◌, refl, some, List, [], ◌∷◌, get_elem?, set, All}

module _ {M : Type 0} where
  -- `Vec::resize` with empty queues.
  unfoldable pub resize : ℕ → List (List M) → List (List M)
  resize zero queues = []
  resize (suc n) [] = [] ∷ resize n []
  resize (suc n) (q ∷ queues) = q ∷ resize n queues

  unfoldable pub clear_all : List (List M) → List (List M)
  clear_all [] = []
  clear_all (q ∷ queues) = [] ∷ clear_all queues

  abbrev pub IsEmpty : List M → Type 0
  IsEmpty q = q ≡ []

  pub resize-IsEmpty :
      (n : ℕ) (queues : List (List M)) → All IsEmpty queues → All IsEmpty (resize n queues)
  unfolding resize
  resize-IsEmpty zero queues h = tt
  resize-IsEmpty (suc n) [] h = (refl, resize-IsEmpty n [] tt)
  resize-IsEmpty (suc n) (q ∷ queues) h = (h.0, resize-IsEmpty n queues h.1)

  pub clear_all-IsEmpty : (queues : List (List M)) → All IsEmpty (clear_all queues)
  unfolding clear_all
  clear_all-IsEmpty [] = tt
  clear_all-IsEmpty (q ∷ queues) = (refl, clear_all-IsEmpty queues)

  pub set-IsEmpty :
      (queues : List (List M)) (i : ℕ) → All IsEmpty queues → All IsEmpty (set queues i [])
  set-IsEmpty [] i h = tt
  set-IsEmpty (q ∷ queues) zero h = (refl, h.1)
  set-IsEmpty (q ∷ queues) (suc i) h = (h.0, set-IsEmpty queues i h.1)

  pub get_elem?-range :
      (queues : List (List M)) (i : ℕ) {q r : List M}
      → get_elem? queues i ≡ some q
      → get_elem? (set queues i r) i ≡ some r
  get_elem?-range [] i e = cc
  get_elem?-range (q ∷ queues) zero e = refl
  get_elem?-range (q ∷ queues) (suc i) e = get_elem?-range queues i e
