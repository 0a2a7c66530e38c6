-- ===== src/Server/Hls/Guard.antt =====
-- Hls.get_hls_file: a file that is served lies in the job's HLS directory.
use face_swap_streamer_versi.Prelude.{
  ℕ, ◌≡◌, refl, ap, ◌≢◌, ◌⊎◌, inl, inr, Bool, true, false, ◌||◌, List, [], ◌∷◌, ◌++◌, All, arith,
  Bool-cases,
}
use face_swap_streamer_versi.Server.Hls.{
  refused, playlist, segment, starts_with, contains, ends_with, m3u8, ts, slash, backslash, dot,
  get_hls_file,
}

starts_with-append : (s t : List ℕ) → starts_with s (s ++ t) ≡ true
unfolding starts_with
starts_with-append [] t = refl
starts_with-append (c ∷ cs) t = ground (arith, starts_with-append cs t)

-- A text that stands in another is found.
contains-infix : (pre sub post : List ℕ) → contains sub (pre ++ (sub ++ post)) ≡ true
unfolding contains
contains-infix [] [] [] = refl
contains-infix [] [] (d ∷ ds) = refl
contains-infix [] (c ∷ cs) post = ground (arith, starts_with-append (c ∷ cs) post)
contains-infix (p ∷ pre) sub post = ground (arith, contains-infix pre sub post)

contains-one : (c : ℕ) (s : List ℕ) → contains (c ∷ []) s ≡ false → All (λ d. d ≢ c) s
unfolding contains starts_with
contains-one c [] h = tt
contains-one c (d ∷ ds) h = (λ e. ground arith, contains-one c ds (ground arith))

-- The name has no separator, and ".." stands nowhere in it.
pub record IsPlain (fname : List ℕ) : Type 0 where
  pub no_slash : All (λ c. c ≢ slash) fname
  pub no_backslash : All (λ c. c ≢ backslash) fname
  pub no_parent : (pre post : List ℕ) → fname ≢ pre ++ (dot ∷ dot ∷ post)

unbarred :
    (fname : List ℕ)
    → (contains (slash ∷ []) fname
        || contains (backslash ∷ []) fname
        || contains (dot ∷ dot ∷ []) fname)
      ≡ false
    → IsPlain fname
unbarred fname good = record {
  no_slash = contains-one slash fname (ground arith);
  no_backslash = contains-one backslash fname (ground arith);
  no_parent = λ pre post e.
      ground (arith, e, ap (contains (dot ∷ dot ∷ [])) e, contains-infix pre (dot ∷ dot ∷ []) post);
}

-- Where os.path.join is the POSIX one at the job's directory, so that it puts one slash between the
-- directory and a name without a slash: a file is served only if the job is there, the file exists,
-- and its name has no slash, no backslash and no ".."; the path of the file is the job's HLS
-- directory, a slash and the name, so the file lies in that directory itself. It goes out as a
-- playlist if its name ends in .m3u8, and else as a segment, and then the name ends in .ts. Every
-- other request is refused, by 404 or by 400.
pub get_hls_file_safe :
    (join : List ℕ → List ℕ → List ℕ) (is_file : List ℕ → Bool) (found : Bool)
    (hls_dir fname : List ℕ)
    → ((name : List ℕ) → All (λ c. c ≢ slash) name → join hls_dir name ≡ hls_dir ++ slash ∷ name)
    → let answer = get_hls_file join is_file found hls_dir fname in
      let path = hls_dir ++ slash ∷ fname in
      ((found ≡ true)
        × (is_file path ≡ true)
        × IsPlain fname
        × ((answer ≡ playlist path) × (ends_with m3u8 fname ≡ true)
            ⊎ (answer ≡ segment path)
              × (ends_with m3u8 fname ≡ false)
              × (ends_with ts fname ≡ true)))
      ⊎ (answer ≡ refused 404)
      ⊎ (answer ≡ refused 400)
unfolding get_hls_file
get_hls_file_safe join is_file found hls_dir fname posix =
    elim (Bool-cases (
      contains (slash ∷ []) fname
      || contains (backslash ∷ []) fname
      || contains (dot ∷ dot ∷ []) fname)) [
        | inl bad ↦ inr (elim (Bool-cases found) [
          | inl here ↦ inr (ground (arith, here, bad))
          | inr missing ↦ inl (ground (arith, missing))
        ])
        | inr good ↦
            let plain = unbarred fname good in
            elim (Bool-cases found) [
              | inr missing ↦ inr (inl (ground (arith, missing)))
              | inl here ↦ elim (Bool-cases (ends_with m3u8 fname || ends_with ts fname)) [
                | inr other ↦ inr (inr (ground (arith, here, good, other)))
                | inl media ↦
                    let there_at = posix fname plain.no_slash in
                    elim (Bool-cases (is_file (hls_dir ++ slash ∷ fname))) [
                      | inr absent ↦
                          inr (inl (ground (arith, here, good, media, absent, ap is_file there_at)))
                      | inl there ↦ elim (Bool-cases (ends_with m3u8 fname)) [
                        | inl list ↦ inl (
                          here,
                          there,
                          plain,
                          inl (
                            ground (arith, here, good, there, list, there_at, ap is_file there_at),
                            list,
                          ),
                        )
                        | inr other ↦
                            let video : ends_with ts fname ≡ true = ground (arith, media, other) in
                            inl (
                              here,
                              there,
                              plain,
                              inr (
                                ground (
                                  arith,
                                  here,
                                  good,
                                  there,
                                  other,
                                  video,
                                  there_at,
                                  ap is_file there_at,
                                ),
                                other,
                                video,
                              ),
                            )
                      ]
                    ]
              ]
            ]
      ]
