-- ===== src/Server/Sockets/Samples.antt =====
-- Sockets: two browsers on one job, of which the second has stopped reading.
use face_swap_streamer_versi.Prelude.{
  ℕ, ◌≡◌, refl, Bool, false, ◌==◌, if◌then◌else◌, [], ◌∷◌, replicate, string_eq,
}
use face_swap_streamer_versi.Server.Sockets.{Sockets, push_to_ws}
use face_swap_streamer_versi.Server.Sockets.Delivery.{received, push_to_ws-received}

abbrev open_all : ℕ → Bool
open_all _ = false

abbrev sockets : Sockets ℕ
sockets = record {
  slots = ("j1", 0 ∷ 1 ∷ []) ∷ ("j2", 2 ∷ []) ∷ [];
  queues = λ q. if q == 1 then replicate 64 5 else [];
}

push_to_ws-received_example :
    (push_to_ws open_all "j1" 9 sockets).queues 1 ≡ received open_all 9 1 (replicate 64 5)
push_to_ws-received_example = push_to_ws-received open_all 9 "j1" sockets 1 (refl, (refl, tt))

-- The update that finds a full queue is lost.
push_to_ws_drops : received {M = ℕ} open_all 9 1 (replicate 64 5) ≡ replicate 64 5
push_to_ws_drops = refl
