-- ===== src/Server/Faces/Largest.antt =====
-- detect_source_faces: when it answers, and with which faces.
use face_swap_streamer_versi.Prelude.{
  ◌≡◌, ◌⊎◌, inl, inr, subst, sym, ap, refl, Bool, true, false, if◌then◌else◌, List, [], ◌∷◌, none,
  some, String, All, All-mono, any, Bool-cases, Option-cases, List-cases,
}
use face_swap_streamer_versi.Floats.{Floats, IsIeee, lt-rises, lt_irrefl}
use face_swap_streamer_versi.Server.Job.{FilePath, SourceSpec}
use face_swap_streamer_versi.Server.Worker.{ok, raise}
use face_swap_streamer_versi.Server.Faces.{
  Face, Analyser, face_area, largest, spec_of, detect_source_faces,
}

module _ {W E : Type 0} ⦃f : Floats W⦄ (ieee : IsIeee W) (fa : Analyser W E) where
  abbrev pub Biggest : Face W E → List (Face W E) → Type 0
  Biggest face = All (λ x. f.lt (face_area face) (face_area x) ≡ false)

  moves :
      (best x next : Face W E) (xs : List (Face W E))
      → (if f.lt (face_area best) (face_area x) then x else best) ≡ next
      → largest best (x ∷ xs) ≡ largest next xs
  unfolding largest
  moves best x next xs e = ap (λ b. largest b xs) e

  largest-Biggest :
      (best : Face W E) (xs seen : List (Face W E))
      → Biggest best seen
      → Biggest (largest best xs) seen × Biggest (largest best xs) xs
  unfolding largest
  largest-Biggest best [] seen h = (h, tt)
  largest-Biggest best (x ∷ xs) seen h =
      let told : Face W E → Type 0 = λ found. Biggest found seen × Biggest found (x ∷ xs) in
      elim (Bool-cases (f.lt (face_area best) (face_area x))) [
        | inl up ↦
            let raised : Biggest x seen =
              All-mono (λ y. f.lt (face_area best) (face_area y) ≡ false)
                (λ y. f.lt (face_area x) (face_area y) ≡ false) seen
                (λ y old. lt-rises ieee (face_area best) (face_area x) (face_area y) up old) h in
            let rest = largest-Biggest x xs (x ∷ seen) (lt_irrefl ieee (face_area x), raised) in
            subst told (sym (moves best x x xs (rw up refl))) ((rest.0).1, ((rest.0).0, rest.1))
        | inr same ↦
            let rest = largest-Biggest best xs (x ∷ seen) (same, h) in
            subst told (sym (moves best x best xs (rw same refl)))
              ((rest.0).1, ((rest.0).0, rest.1))
      ]

  -- The source of a path: the face on its image that no other face exceeds in area.
  pub record Detected (path : FilePath) (spec : SourceSpec E) : Type 0 where
    pub faces : List (Face W E)
    pub seen : fa.look path ≡ some faces
    pub face : Face W E
    pub same : spec ≡ spec_of path face
    pub biggest : Biggest face faces

  abbrev pub Matches : List FilePath → List (SourceSpec E) → Type 0
  Matches [] [] = Unit
  Matches [] (s ∷ ss) = ⊥
  Matches (p ∷ ps) [] = ⊥
  Matches (p ∷ ps) (s ∷ ss) = Detected p s × Matches ps ss

  -- The image cannot be read, or shows no face.
  abbrev pub bad : FilePath → Bool
  bad path = elim (fa.look path) [
    | none ↦ true
    | some faces ↦ elim faces [ [] ↦ true | _ ∷ _ ↦ false ]
  ]

  -- If every image can be read and shows a face, there is one source for each path, in order, with
  -- a face of its image that none of the others exceeds in area. Otherwise an exception is raised.
  -- The float comparisons are those of IEEE 754.
  pub detect_source_faces-Matches :
      (paths : List FilePath)
      → ((specs : List (SourceSpec E)) × (detect_source_faces fa paths ≡ ok specs)
          × Matches paths specs
          × (any bad paths ≡ false))
        ⊎ ((e : String) × (detect_source_faces fa paths ≡ raise e) × (any bad paths ≡ true))
  unfolding detect_source_faces
  detect_source_faces-Matches [] = inl ([], refl, tt, refl)
  detect_source_faces-Matches (path ∷ paths) = elim (Option-cases (fa.look path)) [
    | inl unread ↦
        inr (fa.unreadable path, rw (unread, detect_source_faces) refl, rw (unread, bad) refl)
    | inr (faces, seen) ↦ elim (List-cases faces) [
      | inl nobody ↦ inr (
        fa.no_face path,
        rw (seen, nobody, detect_source_faces) refl,
        rw (seen, bad, nobody) refl,
      )
      | inr (x, xs, e) ↦ elim (detect_source_faces-Matches paths) [
        | inr (text, failed, some_bad) ↦
            inr (
              text,
              rw (seen, e, failed, detect_source_faces) refl,
              rw (seen, bad, e, some_bad) refl,
            )
        | inl (specs, found, told, none_bad) ↦ inl (
          spec_of path (largest x xs) ∷ specs,
          rw (seen, e, found, detect_source_faces) refl,
          (
            record {
              faces = faces;
              seen = seen;
              face = largest x xs;
              same = refl;
              biggest =
                  let far = largest-Biggest x xs (x ∷ []) (lt_irrefl ieee (face_area x), tt) in
                  rw e ((far.0).0, far.1);
            },
            told,
          ),
          rw (seen, bad, e, none_bad) refl,
        )
      ]
    ]
  ]
