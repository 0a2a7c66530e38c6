-- ===== src/Server/Hls/Samples.antt =====
-- Hls: a segment that is there, and a name that climbs out of the directory.
use face_swap_streamer_versi.Prelude.{
  ◌≡◌, refl, ◌⊎◌, Bool, true, false, ℕ, List, [], ◌∷◌, ◌++◌, ◌==◌, if◌then◌else◌, ◌≢◌, All, arith,
}
use face_swap_streamer_versi.Server.Hls.{
  refused, playlist, segment, starts_with, contains, ends_with, m3u8, ts, slash, get_hls_file,
}
use face_swap_streamer_versi.Server.Hls.Guard.{IsPlain, get_hls_file_safe}

abbrev seg : List ℕ
seg = b's' ∷ b'1' ∷ b'.' ∷ b't' ∷ b's' ∷ []

abbrev climb : List ℕ
climb = b'.' ∷ b'.' ∷ 0x5c ∷ b'a' ∷ b'.' ∷ b't' ∷ b's' ∷ []

abbrev hls_dir : List ℕ
hls_dir = b'/' ∷ b'j' ∷ []

abbrev all_there : List ℕ → Bool
all_there _ = true

-- os.path.join at a directory that does not end in a slash.
abbrev join : List ℕ → List ℕ → List ℕ
join d [] = d ++ slash ∷ []
join d (c ∷ cs) = if c == slash then c ∷ cs else d ++ slash ∷ c ∷ cs

join-plain :
    (name : List ℕ) → All (λ c. c ≢ slash) name → join hls_dir name ≡ hls_dir ++ slash ∷ name
join-plain [] h = refl
join-plain (c ∷ cs) h = ground (arith, h.0)

get_hls_file-seg : get_hls_file join all_there true hls_dir seg ≡ segment (hls_dir ++ slash ∷ seg)
unfolding get_hls_file contains ends_with starts_with
get_hls_file-seg = refl

get_hls_file-climb : get_hls_file join all_there true hls_dir climb ≡ refused 400
unfolding get_hls_file contains ends_with starts_with
get_hls_file-climb = refl

get_hls_file_safe_example :
    let answer = get_hls_file join all_there true hls_dir seg in
    let path = hls_dir ++ slash ∷ seg in
    ((true ≡ true)
      × (all_there path ≡ true)
      × IsPlain seg
      × ((answer ≡ playlist path) × (ends_with m3u8 seg ≡ true)
          ⊎ (answer ≡ segment path) × (ends_with m3u8 seg ≡ false) × (ends_with ts seg ≡ true)))
    ⊎ (answer ≡ refused 404)
    ⊎ (answer ≡ refused 400)
get_hls_file_safe_example = get_hls_file_safe join all_there true hls_dir seg join-plain
