-- ===== src/Server/Faces.antt =====
-- server/worker.py, detect_source_faces. Reading and analysing an image is a parameter; an image
-- that cannot be read is `none`. The texts of the two exceptions are parameters too.
pub mod Largest
use face_swap_streamer_versi.Prelude.{ℕ, if◌then◌else◌, List, [], ◌∷◌, Option, none, some, String}
use face_swap_streamer_versi.Floats.{Floats}
use face_swap_streamer_versi.Matching.{Box}
use face_swap_streamer_versi.Server.Job.{FilePath, SourceSpec}
use face_swap_streamer_versi.Server.Worker.{Result, ok, raise}

-- A face that the analyser finds.
pub record Face (W E : Type 0) : Type 0 where
  pub bbox : Box W
  pub sex : String
  pub age : ℕ
  pub embedding : E

pub record Analyser (W E : Type 0) : Type 0 where
  pub look : FilePath → Option (List (Face W E))
  pub unreadable : FilePath → String
  pub no_face : FilePath → String

module _ {W E : Type 0} ⦃f : Floats W⦄ where
  pub face_area : Face W E → W
  face_area x = f.mul (f.sub x.bbox.x2 x.bbox.x1) (f.sub x.bbox.y2 x.bbox.y1)

  -- max(faces, key=...): the first of the largest.
  pub largest : Face W E → List (Face W E) → Face W E
  unfolding face_area
  largest best [] = best
  largest best (x ∷ xs) = largest (if f.lt (face_area best) (face_area x) then x else best) xs

  pub spec_of : FilePath → Face W E → SourceSpec E
  spec_of path face = record {
    path = path;
    gender = face.sex;
    age = face.age;
    src_face = some face.embedding;
    ref_emb = none;
    ref_frame = none;
    ref_votes = 0;
    ref_pool = 0;
  }

module _ {W E : Type 0} ⦃f : Floats W⦄ (fa : Analyser W E) where
  pub detect_source_faces : List FilePath → Result (List (SourceSpec E))
  unfolding largest spec_of
  detect_source_faces [] = ok []
  detect_source_faces (path ∷ paths) =
      let others = detect_source_faces paths in
      elim (fa.look path) [
        | none ↦ raise (fa.unreadable path)
        | some faces ↦ elim faces [
          | [] ↦ raise (fa.no_face path)
          | x ∷ xs ↦ elim others [
            | raise e ↦ raise e
            | ok specs ↦ ok (spec_of path (largest x xs) ∷ specs)
          ]
        ]
      ]
