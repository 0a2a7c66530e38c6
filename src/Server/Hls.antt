-- ===== src/Server/Hls.antt =====
-- server/main.py, get_hls_file: which files of a job's HLS directory are served. A path is its list
-- of code points; os.path.join and os.path.isfile are parameters.
pub mod Guard
pub mod Samples
use face_swap_streamer_versi.Prelude.{
  ℕ, Bool, true, false, not, ◌&&◌, ◌||◌, ◌==◌, if◌then◌else◌, List, [], ◌∷◌, ◌++◌, any,
}
use mathlib.Core.List.{reverse}

pub data Served : Type 0 where
  -- HTTPException, by its status.
  refused : ℕ → Served
  -- FileResponse, by its path.
  playlist : List ℕ → Served
  segment : List ℕ → Served

pub starts_with : List ℕ → List ℕ → Bool
starts_with [] s = true
starts_with (c ∷ cs) [] = false
starts_with (c ∷ cs) (d ∷ ds) = c == d && starts_with cs ds

-- sub in s
pub contains : List ℕ → List ℕ → Bool
unfolding starts_with
contains sub [] = starts_with sub []
contains sub (d ∷ ds) = starts_with sub (d ∷ ds) || contains sub ds

-- s.endswith(suffix)
pub ends_with : List ℕ → List ℕ → Bool
unfolding starts_with
ends_with suffix s = starts_with (reverse suffix) (reverse s)

abbrev pub m3u8 : List ℕ
m3u8 = b'.' ∷ b'm' ∷ b'3' ∷ b'u' ∷ b'8' ∷ []

abbrev pub ts : List ℕ
ts = b'.' ∷ b't' ∷ b's' ∷ []

abbrev pub slash : ℕ
slash = b'/'

abbrev pub backslash : ℕ
backslash = 0x5c

abbrev pub dot : ℕ
dot = b'.'

module _ (join : List ℕ → List ℕ → List ℕ) (is_file : List ℕ → Bool) where
  -- `hls_dir` is that of the job; `found` is whether the job and the directory are there.
  pub get_hls_file : (found : Bool) (hls_dir : List ℕ) → List ℕ → Served
  get_hls_file found hls_dir fname =
      if not found
      then refused 404
      else if contains (slash ∷ []) fname
          || contains (backslash ∷ []) fname
          || contains (dot ∷ dot ∷ []) fname
      then refused 400
      else if not (ends_with m3u8 fname || ends_with ts fname)
      then refused 400
      else let path = join hls_dir fname in
        if not (is_file path)
        then refused 404
        else if ends_with m3u8 fname
        then playlist path
        else segment path
