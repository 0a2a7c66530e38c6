-- ===== src/Server/Sockets/Delivery.antt =====
-- Sockets: who gets an update, and what a full queue does.
use face_swap_streamer_versi.Prelude.{
  ℕ, ◌≤◌, ◌≡◌, refl, ap, ◌∙◌, subst, ◌==◌, ltb, ltb→lt, Bool, false, not, ◌&&◌, if◌then◌else◌, List,
  [], ◌∷◌, ◌++◌, String, string_eq, lookup, get_or, lookup-insert, lookup-erase, select, any,
  length, length-append, arith, Bool-cases, Option-cases, List-cases, inl, inr, beq_refl,
}
use face_swap_streamer_versi.Server.Sockets.{
  Sockets, maxsize, unsubscribe, put_nowait, fan_out, push_to_ws,
}

-- Membership of a number, as a test.
abbrev pub listed : ℕ → List ℕ → Bool
listed q = any (λ p. p == q)

-- No queue stands twice.
abbrev pub Distinct : List ℕ → Type 0
Distinct [] = Unit
Distinct (q ∷ qs) = (listed q qs ≡ false) × Distinct qs

module _ {M : Type 0} (closed : ℕ → Bool) (text : M) where
  -- What one update does to a subscriber's queue.
  abbrev pub received : ℕ → List M → List M
  received q old = if not (closed q) && ltb (length old) maxsize then old ++ text ∷ [] else old

  put_nowait-eq :
      (q p : ℕ) (queues : ℕ → List M)
      → put_nowait closed text q queues p ≡ (if q == p then received p (queues p) else queues p)
  unfolding put_nowait
  put_nowait-eq q p queues = elim (Bool-cases (q == p)) [
    | inl same ↦
        let e : q ≡ p = ground arith in
        subst
          (λ k.
            put_nowait closed text q queues k
            ≡ (if q == k then received k (queues k) else queues k))
          e (ground arith)
    | inr other ↦ ground arith
  ]

  fan_out-eq :
      (qs : List ℕ) (p : ℕ) (queues : ℕ → List M)
      → Distinct qs
      → fan_out closed text qs queues p ≡ (if listed p qs then received p (queues p) else queues p)
  unfolding fan_out
  fan_out-eq [] p queues h = refl
  fan_out-eq (q ∷ qs) p queues h = elim (Bool-cases (q == p)) [
    | inl same ↦
        let e : q ≡ p = ground arith in
        let out : listed p qs ≡ false = subst (λ k. listed k qs ≡ false) e h.0 in
        fan_out-eq qs p (put_nowait closed text q queues) h.1
        ∙ rw (out, same) (put_nowait-eq q p queues ∙ rw same)
    | inr other ↦
        fan_out-eq qs p (put_nowait closed text q queues) h.1 ∙ rw (put_nowait-eq q p queues, other)
  ]

  -- An update for an id is put at the end of the queue of each of its subscribers that is
  -- open and holds fewer than 64 messages, if no queue is subscribed twice. It is dropped for a
  -- subscriber whose queue is full, and no other queue changes.
  pub push_to_ws-received :
      (id : String) (s : Sockets M) (p : ℕ)
      → Distinct (get_or id [] s.slots)
      → (push_to_ws closed id text s).queues p
        ≡ (if listed p (get_or id [] s.slots) then received p (s.queues p) else s.queues p)
  unfolding push_to_ws
  push_to_ws-received id s p h = fan_out-eq (get_or id [] s.slots) p s.queues h

  put_nowait_bounded :
      (q p : ℕ) (queues : ℕ → List M)
      → length (queues p) ≤ maxsize
      → length (put_nowait closed text q queues p) ≤ maxsize
  put_nowait_bounded q p queues h =
      rw (put_nowait-eq q p queues)
        (ground (arith, length-append (queues p) (text ∷ []), ltb→lt (length (queues p)) maxsize))

  fan_out_bounded :
      (qs : List ℕ) (p : ℕ) (queues : ℕ → List M)
      → length (queues p) ≤ maxsize
      → length (fan_out closed text qs queues p) ≤ maxsize
  unfolding fan_out
  fan_out_bounded [] p queues h = h
  fan_out_bounded (q ∷ qs) p queues h =
      fan_out_bounded qs p (put_nowait closed text q queues) (put_nowait_bounded q p queues h)

  -- No update makes a queue longer than 64 messages.
  pub push_to_ws_bounded :
      (id : String) (s : Sockets M) (p : ℕ)
      → length (s.queues p) ≤ maxsize
      → length ((push_to_ws closed id text s).queues p) ≤ maxsize
  unfolding push_to_ws
  push_to_ws_bounded id s p h = fan_out_bounded (get_or id [] s.slots) p s.queues h

listed-select :
    (q p : ℕ) (qs : List ℕ)
    → listed p (select (λ k. not (k == q)) qs) ≡ (if q == p then false else listed p qs)
listed-select q p [] = ground arith
listed-select q p (k ∷ qs) = ground (arith, listed-select q p qs)

module _ {M : Type 0} where
  unsubscribe-slot :
      (id : String) (q : ℕ) (s : Sockets M)
      → get_or id [] (unsubscribe id q s).slots ≡ select (λ p. not (p == q)) (get_or id [] s.slots)
  unfolding unsubscribe
  unsubscribe-slot id q s = elim (Option-cases (lookup id s.slots)) [
    | inl absent ↦ ground (arith, absent, lookup-erase id id s.slots, beq_refl id)
    | inr (qs, here) ↦ elim (List-cases (select (λ p. not (p == q)) qs)) [
      | inl empty ↦ ground (arith, here, empty, lookup-erase id id s.slots, beq_refl id)
      | inr (p, ps, more) ↦
          ground (arith, here, more, lookup-insert id id (p ∷ ps) s.slots, beq_refl id)
    ]
  ]

  unsubscribe_others :
      (id other : String) (q : ℕ) (s : Sockets M)
      → string_eq.beq id other ≡ false
      → lookup other (unsubscribe id q s).slots ≡ lookup other s.slots
  unfolding unsubscribe
  unsubscribe_others id other q s ne =
      elim (List-cases (select (λ p. not (p == q)) (get_or id [] s.slots))) [
        | inl empty ↦ ground (arith, empty, lookup-erase id other s.slots, ne)
        | inr (p, ps, more) ↦ elim (Option-cases (lookup id s.slots)) [
          | inl absent ↦ ground (arith, absent)
          | inr (qs, here) ↦ ground (arith, more, here, lookup-insert id other (p ∷ ps) s.slots, ne)
        ]
      ]

  -- After a socket leaves, its queue is no longer subscribed to the id, every other queue is
  -- subscribed to it exactly if it was, and the subscribers of the other ids are the same.
  pub unsubscribe-listed :
      (id : String) (q p : ℕ) (other : String) (s : Sockets M)
      → string_eq.beq id other ≡ false
      → (listed p (get_or id [] (unsubscribe id q s).slots)
          ≡ (if q == p then false else listed p (get_or id [] s.slots)))
        × (lookup other (unsubscribe id q s).slots ≡ lookup other s.slots)
  unsubscribe-listed id q p other s ne = (
    ap (listed p) (unsubscribe-slot id q s) ∙ listed-select q p (get_or id [] s.slots),
    unsubscribe_others id other q s ne,
  )
