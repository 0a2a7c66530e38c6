-- ===== src/Checkpoint/RoundTrip.antt =====
-- Checkpoint: what is written is what is loaded.
use face_swap_streamer_versi.Prelude.{
  ℕ, ◌≡◌, refl, ap, ◌∙◌, false, ◌==◌, List, [], ◌∷◌, map, Option, none, some, Nodup, Mem, lookup,
  insert, lookup-insert, if◌then◌else◌, arith, subst, ap₂, Bool-cases, ==_refl, inl, inr,
}
use mathlib.Core.List.{Nodup-cons, mem-cons_self, mem-cons_of_mem}
use face_swap_streamer_versi.Types.{Identity, hero, heroine, unknown, TrackState}
use face_swap_streamer_versi.Checkpoint.{
  last, hist, key_eq, Stored, single, stack, Arrays, CheckpointState, identity_name, identity_of,
  track_meta, store_history, store_track, store_tracks, Dir, ok, write_checkpoint, load_checkpoint,
  last_of, history_of, restore_track,
}

identity_of-identity_name : (i : Identity) → identity_of (identity_name i) ≡ i
unfolding identity_of
identity_of-identity_name hero = refl
identity_of-identity_name heroine = refl
identity_of-identity_name unknown = refl

module _ {E : Type 0} where
  -- What a history leaves in the file.
  abbrev stored_history : List E → Option (Stored E)
  stored_history [] = none
  stored_history (e ∷ es) = some (stack (e ∷ es))

  store_history-last :
      (i j : ℕ) (es : List E) (out : Arrays E)
      → lookup (last i) (store_history j es out) ≡ lookup (last i) out
  unfolding store_history
  store_history-last i j [] out = refl
  store_history-last i j (e ∷ es) out = lookup-insert (hist j) (last i) (stack (e ∷ es)) out

  store_history-hist :
      (i j : ℕ) (es : List E) (out : Arrays E)
      → lookup (hist j) out ≡ none
      → lookup (hist i) (store_history j es out)
        ≡ (if j == i then stored_history es else lookup (hist i) out)
  unfolding store_history
  store_history-hist i j [] out fresh = elim (Bool-cases (j == i)) [
    | inl same ↦ let e : j ≡ i = ground arith in rw same (rw (← e) fresh)
    | inr other ↦ rw other
  ]
  store_history-hist i j (e ∷ es) out fresh = lookup-insert (hist j) (hist i) (stack (e ∷ es)) out

  history_of-stored_history :
      (rows : E → List E) (es : List E) → history_of rows (stored_history es) ≡ es
  unfolding history_of
  history_of-stored_history rows [] = refl
  history_of-stored_history rows (e ∷ es) = refl

module _ {W E : Type 0} where
  abbrev pub ids : List (TrackState W E) → List ℕ
  ids = map (λ t. t.track_id)

  store_track-last :
      (t : TrackState W E) (out : Arrays E) (i : ℕ)
      → lookup (last i) (store_track t out)
        ≡ (if t.track_id == i then some (single t.last_embedding) else lookup (last i) out)
  unfolding store_track
  store_track-last t out i =
      store_history-last i t.track_id t.embedding_history _
      ∙ lookup-insert (last t.track_id) (last i) (single t.last_embedding) out

  store_track-hist :
      (t : TrackState W E) (out : Arrays E) (i : ℕ)
      → lookup (hist t.track_id) out ≡ none
      → lookup (hist i) (store_track t out)
        ≡ (if t.track_id == i then stored_history t.embedding_history else lookup (hist i) out)
  unfolding store_track
  store_track-hist t out i fresh =
      let same : (j : ℕ)
          → lookup (hist j) (insert (last t.track_id) (single t.last_embedding) out)
            ≡ lookup (hist j) out =
        λ j. lookup-insert (last t.track_id) (hist j) (single t.last_embedding) out in
      store_history-hist i t.track_id t.embedding_history _ (same t.track_id ∙ fresh)
      ∙ ap (λ o. if t.track_id == i then stored_history t.embedding_history else o) (same i)

  -- No history is stored yet of any of the tracks, and no two have one id.
  abbrev Fresh : List (TrackState W E) → Arrays E → Type 0
  Fresh ts out = (i : ℕ) → Mem i (ids ts) → lookup (hist i) out ≡ none

  Fresh-store_track :
      (t : TrackState W E) (ts : List (TrackState W E)) (out : Arrays E)
      → ¬ Mem t.track_id (ids ts)
      → Fresh (t ∷ ts) out
      → Fresh ts (store_track t out)
  Fresh-store_track t ts out new fresh i m =
      store_track-hist t out i (fresh t.track_id mem-cons_self)
      ∙ elim (Bool-cases (t.track_id == i)) [
        | inl same ↦
            let e : i ≡ t.track_id = ground arith in absurd (new (subst (λ k. Mem k (ids ts)) e m))
        | inr other ↦ rw other (fresh i (mem-cons_of_mem t.track_id m))
      ]

  -- Later tracks leave the entries of an id that is not theirs.
  store_tracks_other :
      (ts : List (TrackState W E)) (out : Arrays E) (i : ℕ)
      → Nodup (ids ts)
      → ¬ Mem i (ids ts)
      → Fresh ts out
      → (lookup (last i) (store_tracks ts out) ≡ lookup (last i) out)
        × (lookup (hist i) (store_tracks ts out) ≡ lookup (hist i) out)
  unfolding store_tracks
  store_tracks_other [] out i nd out_of fresh = (refl, refl)
  store_tracks_other (t ∷ ts) out i nd out_of fresh =
      let (new, rest) = Nodup-cons.0 nd in
      let ne : (t.track_id == i) ≡ false = elim (Bool-cases (t.track_id == i)) [
        | inl same ↦
            let e : t.track_id ≡ i = ground arith in
            absurd (out_of (subst (λ k. Mem k (ids (t ∷ ts))) e mem-cons_self))
        | inr other ↦ other
      ] in
      let (l, h) =
        store_tracks_other ts (store_track t out) i rest
          (λ m. out_of (mem-cons_of_mem t.track_id m)) (Fresh-store_track t ts out new fresh) in
      (
        l ∙ store_track-last t out i ∙ rw ne,
        h ∙ store_track-hist t out i (fresh t.track_id mem-cons_self) ∙ rw ne,
      )

  module _ (zeros : E) (rows : E → List E) where
    restore_track-eq :
        (t : TrackState W E) (arr : Arrays E)
        → lookup (last t.track_id) arr ≡ some (single t.last_embedding)
        → lookup (hist t.track_id) arr ≡ stored_history t.embedding_history
        → restore_track zeros rows arr (track_meta t) ≡ t
    unfolding restore_track track_meta
    restore_track-eq t arr l h = λ i. record t {
      identity = identity_of-identity_name t.identity i;
      last_embedding = (ap (last_of zeros) l ∙ last_of_single) i;
      embedding_history =
          (ap (history_of rows) h ∙ history_of-stored_history rows t.embedding_history) i;
    }
      where
        last_of_single : last_of zeros (some (single t.last_embedding)) ≡ t.last_embedding
        last_of_single = refl

    restore_tracks-eq :
        (ts : List (TrackState W E)) (out : Arrays E)
        → Nodup (ids ts)
        → Fresh ts out
        → map (restore_track zeros rows (store_tracks ts out)) (map track_meta ts) ≡ ts
    unfolding store_tracks
    restore_tracks-eq [] out nd fresh = refl
    restore_tracks-eq (t ∷ ts) out nd fresh =
        let (new, rest) = Nodup-cons.0 nd in
        let fresh' = Fresh-store_track t ts out new fresh in
        let (l, h) = store_tracks_other ts (store_track t out) t.track_id rest new fresh' in
        ap₂ ◌∷◌
          (restore_track-eq t _ (l ∙ store_track-last t out t.track_id ∙ rw (==_refl t.track_id)) (
            h
            ∙ store_track-hist t out t.track_id (fresh t.track_id mem-cons_self)
            ∙ rw (==_refl t.track_id)))
          (restore_tracks-eq ts (store_track t out) rest fresh')

-- A state whose tracks have different ids is loaded back unchanged after it was written, whatever
-- the directory held before.
pub load_checkpoint-write_checkpoint :
    {W E : Type 0} (zeros : E) (rows : E → List E) (s : CheckpointState W E) (d : Dir W E)
    → Nodup (ids s.tracks)
    → load_checkpoint zeros rows (write_checkpoint s d) ≡ ok s
unfolding load_checkpoint write_checkpoint
load_checkpoint-write_checkpoint zeros rows s d nd =
    λ i. ok (record s { tracks = restore_tracks-eq zeros rows s.tracks [] nd (λ _ _. refl) i })
