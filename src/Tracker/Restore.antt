-- ===== src/Tracker/Restore.antt =====
-- Tracker.restore: the table that a checkpoint gives back.
use face_swap_streamer_versi.Prelude.{
  ℕ, ◌+◌, ◌-◌, ◌≤◌, max, ◌≡◌, ◌≢◌, ◌⊎◌, inl, inr, refl, List, [], ◌∷◌, nat_eq, Dict, insert, length,
  arith,
}
use face_swap_streamer_versi.Floats.{Floats}
use face_swap_streamer_versi.Types.{TrackState}
use face_swap_streamer_versi.Tracker.{
  Numpy, Track, Tracker, emb_history_cap, capped, to_state, restored, restore_from, restore,
  median_embedding,
}
use face_swap_streamer_versi.Tracker.Ids.{IsValid, entered}

module _ {W E : Type 0} where
  restore_from-IsValid :
      (states : List (TrackState W E)) (bound : ℕ) (tracks : Dict ℕ (Track W E)) (t : Tracker W E)
      → IsValid (record t { tracks = tracks; next_id = bound })
      → IsValid (restore_from states bound tracks t)
  unfolding restore_from restored
  restore_from-IsValid [] bound tracks t v = v
  restore_from-IsValid (st ∷ states) bound tracks t v =
      restore_from-IsValid states (max bound (st.track_id + 1))
        (insert st.track_id (restored st) tracks) t
        (entered (max bound (st.track_id + 1)) st.track_id (restored st)
          (record t { tracks = tracks; next_id = bound }) refl (omega arith) (omega arith) v)

  -- Whatever states it is given, a restore leaves a valid table: no id stands twice, and all ids
  -- are below the next id.
  pub restore-IsValid :
      (states : List (TrackState W E)) (t : Tracker W E) → IsValid (restore states t)
  unfolding restore
  restore-IsValid states t =
      restore_from-IsValid states 0 [] t (record { named = tt; distinct = tt })

module _ {W E : Type 0} ⦃f : Floats W⦄ (np : Numpy W E) where
  stored :
      (track : Track W E) (es : List E)
      → length es ≤ emb_history_cap
      → let before = record track { embeddings = es } in
        ((es ≢ []) × (restored (to_state np before) ≡ before))
        ⊎ ((es ≡ [])
            × (restored (to_state np before) ≡ record track { embeddings = np.zeros ∷ [] }))
  unfolding restored to_state median_embedding capped
  stored track [] h = inr (refl, refl)
  stored track (e ∷ es) h =
      let short : length (e ∷ es) - 30 ≡ 0 = omega (arith, h) in inl (λ n. cc n, rw short refl)

  -- A track that has between one and thirty embeddings is restored unchanged from its state. One
  -- that has none comes back with the zero vector as its only embedding.
  pub restored-to_state :
      (track : Track W E)
      → length track.embeddings ≤ emb_history_cap
      → ((track.embeddings ≢ []) × (restored (to_state np track) ≡ track))
        ⊎ ((track.embeddings ≡ [])
            × (restored (to_state np track) ≡ record track { embeddings = np.zeros ∷ [] }))
  restored-to_state track h = stored track track.embeddings h
