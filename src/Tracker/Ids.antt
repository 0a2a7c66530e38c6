-- ===== src/Tracker/Ids.antt =====
-- Tracker: the table stays a dict of tracks by their ids, all below the next id.
use face_swap_streamer_versi.Prelude.{
  ℕ, zero, suc, ◌+◌, ◌≤◌, ◌<◌, ◌≡◌, refl, subst, ◌∙◌, ◌==◌, List, [], ◌∷◌, map, none, some, nat_eq,
  Dict, lookup, insert, lookup-insert, any, select, get_elem?, arith, All, All-mono, Bool-cases,
  Option-cases, inl, inr, not, ◌&&◌, length,
}
use face_swap_streamer_versi.Floats.{Floats}
use face_swap_streamer_versi.Types.{FaceDetection}
use face_swap_streamer_versi.Tracker.{
  Numpy, Track, Tracker, begin, new_track, absorb, accepts, absorb_all, begin_rest, age,
  active_list, matched_tracker, update, cost_at,
}

module _ {V : Type 0} where
  -- No key stands twice.
  abbrev pub Distinct : Dict ℕ V → Type 0
  Distinct [] = Unit
  Distinct ((k, v) ∷ d) = (lookup k d ≡ none) × Distinct d

  Distinct-insert : (k : ℕ) (v : V) (d : Dict ℕ V) → Distinct d → Distinct (insert k v d)
  Distinct-insert k v [] h = (refl, tt)
  Distinct-insert k v ((j, w) ∷ d) h = elim (Bool-cases (j == k)) [
    | inl same ↦ rw same h
    | inr other ↦ rw other (lookup-insert k j v d ∙ ground (arith, h.0), Distinct-insert k v d h.1)
  ]

  All-insert :
      (P : ℕ × V → Type 0) (k : ℕ) (v : V) (d : Dict ℕ V)
      → P (k, v)
      → All P d
      → All P (insert k v d)
  All-insert P k v [] p h = (p, tt)
  All-insert P k v ((j, w) ∷ d) p h = elim (Bool-cases (j == k)) [
    | inl same ↦ let e : k ≡ j = ground arith in rw same (subst (λ i. P (i, v)) e p, h.1)
    | inr other ↦ rw other (h.0, All-insert P k v d p h.1)
  ]

  lookup-map :
      (g : V → V) (k : ℕ) (d : Dict ℕ V)
      → lookup k d ≡ none
      → lookup k (map (λ kv. (kv.0, g kv.1)) d) ≡ none
  lookup-map g k [] h = refl
  lookup-map g k ((j, w) ∷ d) h = ground (arith, lookup-map g k d)

  Distinct-map : (g : V → V) (d : Dict ℕ V) → Distinct d → Distinct (map (λ kv. (kv.0, g kv.1)) d)
  Distinct-map g [] h = tt
  Distinct-map g ((k, v) ∷ d) h = (lookup-map g k d h.0, Distinct-map g d h.1)

  All-map :
      (P : ℕ × V → Type 0) (g : V → V) (d : Dict ℕ V)
      → ((k : ℕ) (v : V) → P (k, v) → P (k, g v))
      → All P d
      → All P (map (λ kv. (kv.0, g kv.1)) d)
  All-map P g [] step h = tt
  All-map P g ((k, v) ∷ d) step h = (step k v h.0, All-map P g d step h.1)

  All-get :
      (P : V → Type 0) (vs : List V) (i : ℕ) (v : V) → All P vs → get_elem? vs i ≡ some v → P v
  All-get P [] i v h e = absurd (cc e)
  All-get P (x ∷ xs) zero v h e = subst P (cc e) h.0
  All-get P (x ∷ xs) (suc i) v h e = All-get P xs i v h.1 e

module _ {W E : Type 0} where
  -- An entry stands under its track's id, which is below a bound.
  abbrev pub Named : ℕ → ℕ × Track W E → Type 0
  Named n kv = ((kv.1).track_id ≡ kv.0) × (kv.0 < n)

  -- The table is a dict of tracks under their own ids, which are all below the next id.
  pub record IsValid (t : Tracker W E) : Type 0 where
    pub named : All (Named t.next_id) t.tracks
    pub distinct : Distinct t.tracks

  pub entered :
      (n : ℕ) (k : ℕ) (track : Track W E) (t : Tracker W E)
      → track.track_id ≡ k
      → k < n
      → t.next_id ≤ n
      → IsValid t
      → IsValid (record t { tracks = insert k track t.tracks; next_id = n })
  entered n k track t same below grows v = record {
    named =
        All-insert (Named n) k track t.tracks (same, below)
          (All-mono (Named t.next_id) (Named n) t.tracks (λ kv p. (p.0, omega (arith, p.1)))
            v.named);
    distinct = Distinct-insert k track t.tracks v.distinct;
  }

module _ {W E : Type 0} ⦃f : Floats W⦄ (np : Numpy W E) where
  new_track-IsValid :
      (det : FaceDetection W E) (t : Tracker W E) → IsValid t → IsValid (new_track det t)
  unfolding new_track begin
  new_track-IsValid det t v =
      entered (t.next_id + 1) t.next_id (begin t.next_id det) t refl (omega arith) (omega arith) v

  begin_rest-IsValid :
      (matched : List ℕ) (di : ℕ) (dets : List (FaceDetection W E)) (t : Tracker W E)
      → IsValid t
      → IsValid (begin_rest np matched di dets t)
  unfolding begin_rest
  begin_rest-IsValid matched di [] t v = v
  begin_rest-IsValid matched di (det ∷ dets) t v = elim (Bool-cases (any (λ c. c == di) matched)) [
    | inl taken ↦ rw taken (begin_rest-IsValid matched (di + 1) dets t v)
    | inr free ↦
        rw free
          (begin_rest-IsValid matched (di + 1) dets (new_track det t) (new_track-IsValid det t v))
  ]

  absorb_all-IsValid :
      (frame_idx : ℕ) (actives : List (Track W E)) (dets : List (FaceDetection W E))
      (pairs : List (ℕ × ℕ)) (matched : List ℕ) (t : Tracker W E)
      → All (λ track. track.track_id < t.next_id) actives
      → IsValid t
      → IsValid (absorb_all np frame_idx actives dets pairs (matched, t)).1
  unfolding absorb_all absorb
  absorb_all-IsValid frame_idx actives dets [] matched t below v = v
  absorb_all-IsValid frame_idx actives dets ((r, c) ∷ pairs) matched t below v =
      let skip = absorb_all-IsValid frame_idx actives dets pairs matched t below v in
      elim (Option-cases (get_elem? actives r)) [
        | inl no_row ↦ rw (no_row, absorb_all) skip
        | inr (track, row) ↦ elim (Option-cases (get_elem? dets c)) [
          | inl no_column ↦ rw (row, no_column, absorb_all) skip
          | inr (det, column) ↦ elim (Bool-cases (accepts np t track det)) [
            | inr rejected ↦ rw (row, column, rejected, absorb_all) skip
            | inl accepted ↦
                let better = absorb np t.drift_thresh frame_idx det track in
                rw (row, column, accepted, absorb_all)
                  (absorb_all-IsValid frame_idx actives dets pairs (c ∷ matched)
                    (record t { tracks = insert track.track_id better t.tracks }) below
                    (entered t.next_id track.track_id better t refl
                      (All-get (λ x. x.track_id < t.next_id) actives r track below row)
                      (omega arith) v))
          ]
        ]
      ]

  active_list-below :
      (n : ℕ) (d : Dict ℕ (Track W E))
      → All (Named n) d
      → All (λ track. track.track_id < n) (map (λ kv. kv.1) (select (λ kv. (kv.1).active) d))
  active_list-below n [] h = tt
  active_list-below n ((k, track) ∷ d) h = elim (Bool-cases track.active) [
    | inl on ↦ rw on (omega (arith, (h.0).0, (h.0).1), active_list-below n d h.1)
    | inr off ↦ rw off (active_list-below n d h.1)
  ]

  matched_tracker-IsValid :
      (dets : List (FaceDetection W E)) (frame_idx : ℕ) (t : Tracker W E)
      → IsValid t
      → IsValid (matched_tracker np dets frame_idx t)
  unfolding matched_tracker active_list
  matched_tracker-IsValid dets frame_idx t v =
      let actives = active_list np t in
      let pairs =
        np.linear_sum_assignment (length actives) (length dets)
          (cost_at np t frame_idx actives dets) in
      let after = absorb_all np frame_idx actives dets pairs ([], t) in
      elim (Bool-cases (not (length dets == 0) && not (length actives == 0))) [
        | inl both ↦
            rw (matched_tracker, both)
              (begin_rest-IsValid after.0 0 dets after.1 (
                absorb_all-IsValid frame_idx actives dets pairs [] t
                  (active_list-below t.next_id t.tracks v.named) v))
        | inr one_empty ↦ rw (matched_tracker, one_empty) (begin_rest-IsValid [] 0 dets t v)
      ]

  aged-IsValid :
      (frame_idx : ℕ) (t : Tracker W E)
      → IsValid t
      → IsValid (record t { tracks = map (λ kv. (kv.0, age np t.max_gap frame_idx kv.1)) t.tracks })
  unfolding age
  aged-IsValid frame_idx t v = record {
    named =
        All-map (Named t.next_id) (age np t.max_gap frame_idx) t.tracks
          (λ k track p. ground (arith, p)) v.named;
    distinct = Distinct-map (age np t.max_gap frame_idx) t.tracks v.distinct;
  }

  -- An update keeps the table valid: each track stands under its own id, no id stands twice, and
  -- every id is below the next id.
  pub update-IsValid :
      (dets : List (FaceDetection W E)) (frame_idx : ℕ) (t : Tracker W E)
      → IsValid t
      → IsValid (update np dets frame_idx t)
  unfolding update
  update-IsValid dets frame_idx t v =
      aged-IsValid frame_idx (matched_tracker np dets frame_idx t)
        (matched_tracker-IsValid dets frame_idx t v)
