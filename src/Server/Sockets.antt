-- ===== src/Server/Sockets.antt =====
-- server/main.py: the WebSocket fan-out (`_push_to_ws`, and the subscription in `job_ws` and
-- `batch_ws`). A subscriber's queue goes by a number. `put_nowait` on a full queue raises inside
-- the event loop, which drops the message; a closed loop refuses the call, which is ignored.
pub mod Delivery
pub mod Samples
use face_swap_streamer_versi.Prelude.{
  ℕ, ◌==◌, ltb, Bool, not, if◌then◌else◌, List, [], ◌∷◌, ◌++◌, Option, none, some, String, Eq,
  string_eq, Dict, lookup, insert, erase, get_or, select, length, update,
}

abbrev pub maxsize : ℕ
maxsize = 64

pub record Sockets (M : Type 0) : Type 0 where
  -- registry id ↦ its subscribers
  pub slots : Dict String (List ℕ)
  pub queues : ℕ → List M

module _ {M : Type 0} where
  -- setdefault(id, []).append(q)
  pub subscribe : String → ℕ → Sockets M → Sockets M
  subscribe id q s = record s { slots = insert id (get_or id [] s.slots ++ q ∷ []) s.slots }

  -- The `finally` block of a socket: slot[:] = others, and the slot goes when it is empty.
  pub unsubscribe : String → ℕ → Sockets M → Sockets M
  unsubscribe id q s =
      let others = select (λ p. not (p == q)) (get_or id [] s.slots) in
      elim others [
        | [] ↦ record s { slots = erase id s.slots }
        | p ∷ ps ↦ record s {
          slots = elim (lookup id s.slots) [ none ↦ s.slots | some _ ↦ insert id (p ∷ ps) s.slots ];
        }
      ]

  -- loop.call_soon_threadsafe(q.put_nowait, text)
  pub put_nowait : (ℕ → Bool) → M → ℕ → (ℕ → List M) → ℕ → List M
  put_nowait closed text q queues =
      if closed q
      then queues
      else if ltb (length (queues q)) maxsize
      then update queues q (queues q ++ text ∷ [])
      else queues

  pub fan_out : (ℕ → Bool) → M → List ℕ → (ℕ → List M) → ℕ → List M
  unfolding put_nowait
  fan_out closed text [] queues = queues
  fan_out closed text (q ∷ qs) queues = fan_out closed text qs (put_nowait closed text q queues)

  pub push_to_ws : (ℕ → Bool) → String → M → Sockets M → Sockets M
  unfolding fan_out
  push_to_ws closed id text s = record s {
    queues = fan_out closed text (get_or id [] s.slots) s.queues;
  }

  -- One turn of the sender: q.get() and send_text.
  pub send_next : ℕ → Sockets M → Option M × Sockets M
  send_next q s = elim (s.queues q) [
    | [] ↦ (none, s)
    | m ∷ ms ↦ (some m, record s { queues = update s.queues q ms })
  ]
