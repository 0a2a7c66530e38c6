-- ===== src/Server/Streaming/Shape.antt =====
-- A queue of run_streaming holds items, and END as its last entry if its producer has ended.
use face_swap_streamer_versi.Prelude.{◌≡◌, refl, ap, Bool, true, false, List, [], ◌∷◌, ◌++◌}
use face_swap_streamer_versi.Server.Streaming.{Item, item, end}

module _ {A : Type 0} where
  abbrev pub marked : Bool → List (Item A)
  marked true = end ∷ []
  marked false = []

  -- The queue of some items, with the marker or without.
  abbrev pub queue : List A → Bool → List (Item A)
  queue [] b = marked b
  queue (x ∷ xs) b = item x ∷ queue xs b

  pub queue-head :
      {x : A} {rest : List (Item A)} (xs : List A) (b : Bool)
      → queue xs b ≡ item x ∷ rest
      → (ys : List A) × (xs ≡ x ∷ ys) × (rest ≡ queue ys b)
  queue-head [] true h = absurd (cc)
  queue-head [] false h = absurd (cc)
  queue-head (y ∷ ys) b h = (ys, cc, cc)

  pub queue-end :
      {rest : List (Item A)} (xs : List A) (b : Bool)
      → queue xs b ≡ end ∷ rest
      → (xs ≡ []) × (b ≡ true) × (rest ≡ [])
  queue-end [] true h = (refl, refl, cc)
  queue-end [] false h = absurd (cc)
  queue-end (y ∷ ys) b h = absurd (cc)

  pub queue-empty : (xs : List A) (b : Bool) → queue xs b ≡ [] → (xs ≡ []) × (b ≡ false)
  queue-empty [] true h = absurd (cc)
  queue-empty [] false h = (refl, refl)
  queue-empty (y ∷ ys) b h = absurd (cc)

  pub queue-snoc :
      (xs : List A) (x : A) → queue xs false ++ item x ∷ [] ≡ queue (xs ++ x ∷ []) false
  queue-snoc [] x = refl
  queue-snoc (y ∷ ys) x = ap (◌∷◌ (item y)) (queue-snoc ys x)

  pub queue-close : (xs : List A) → queue xs false ++ end ∷ [] ≡ queue xs true
  queue-close [] = refl
  queue-close (y ∷ ys) = ap (◌∷◌ (item y)) (queue-close ys)
