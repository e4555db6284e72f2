-- ===== src/Chat/Serving.antt =====
-- The chat server under the library's server actor.
use ezsockets.Base.{
  Bool, Bool-cases, List, Option, Result-cases, String, [], ap, arith, false, inl, inr, none, ok,
  refl, some, subst, ℕ, ◌++◌, ◌+◌, ◌∷◌, ◌≡◌, ◌≢◌, ◌≤◌, ◌⊎◌,
}
use ezsockets.Chat.{
  lift_connect, ChatMessage, ChatServer, and_then, chat_ext, connect_chat, empty_chat, join,
  lift_handler, on_call, on_connect, on_disconnect,
}
use ezsockets.Chat.Keeping.{
  ChatInv, empty_chat-ChatInv, on_call-ChatInv, on_connect-ChatInv, on_disconnect-ChatInv,
  on_disconnect-some,
}
use ezsockets.Chat.Rooms.{count, count-append, count_rooms, take_out-none}
use ezsockets.Server.{
  NewConnection, ServerEvent, ServerState, connected, disconnected, drain_acks, is_done,
  server_step,
}
use ezsockets.Server.Invariant.{Inv, Reach-Inv, lengths_nil}
use ezsockets.Server.System.{
  IsRunning, Reach, Step, System, accept, graceful_shutdown, here, next, round, session_ends, start,
  take_call, take_connection, take_disconnected, take_shutdown,
}
use ezsockets.Session.{CloseResult}

abbrev pub ids_of : List (ℕ × CloseResult) → List ℕ
ids_of [] = []
ids_of ((id, result) ∷ rest) = id ∷ ids_of rest

ids_of-append :
    (id : ℕ) (xs ys : List (ℕ × CloseResult))
    → count id (ids_of (xs ++ ys)) ≡ count id (ids_of xs) + count id (ids_of ys)
ids_of-append id [] ys = omega arith
ids_of-append id (x ∷ xs) ys = omega (arith, ids_of-append id xs ys)

and_then_inv :
    (e : Option ChatServer) (f : ChatServer → Option ChatServer) (c' : ChatServer)
    → and_then e f ≡ some c'
    → (c : ChatServer) × (e ≡ some c) × (f c ≡ some c')
unfolding and_then
and_then_inv none f c' h = absurd (ground arith)
and_then_inv (some c) f c' h = (c, refl, h)

lift_connect_inv :
    (r : Option (ChatServer × ℕ)) (c' : ChatServer)
    → (lift_connect r).0 ≡ some c'
    → (id : ℕ) × (r ≡ some (c', id)) × ((lift_connect r).1 ≡ ok id)
unfolding lift_connect
lift_connect_inv none c' h = absurd (ground arith)
lift_connect_inv (some (c, id)) c' h = (id, ground arith, refl)

connect_chat_inv :
    (e : Option ChatServer) (c' : ChatServer)
    → (connect_chat e).0 ≡ some c'
    → (c : ChatServer) × (id : ℕ) × (e ≡ some c)
      × (on_connect c ≡ some (c', id))
      × ((connect_chat e).1 ≡ ok id)
unfolding connect_chat
connect_chat_inv none c' h = absurd (ground arith)
connect_chat_inv (some c) c' h =
    let (id, r, q) = lift_connect_inv (on_connect c) c' h in (c, id, refl, r, q)

abbrev pub ChatSystem : Type 0 → Type 0 → Type 0 → Type 0
ChatSystem S D R = System (Option ChatServer) ℕ ((ℕ → Bool) × ChatMessage) S D R

module _ {S D R : Type 0} where
  -- The sessions that the chat knows are those that run and those whose end is queued.
  pub record Knows (s : ChatSystem S D R) (c : ChatServer) : Type 0 where
    pub inv : ChatInv c
    pub known :
        (id : ℕ) → count id c.sessions ≡ count id (ids_of s.disconnections) + count id s.live

  abbrev Served : ChatSystem S D R → Type 0
  Served s = (c : ChatServer) → s.actor.extension ≡ some c → Knows s c

  -- The queues and the sessions that run stay the same, and so does what the chat knows.
  Knows-cast :
      (s t : ChatSystem S D R) (c c' : ChatServer)
      → ((id : ℕ)
          → count id (ids_of t.disconnections) + count id t.live
            ≡ count id (ids_of s.disconnections) + count id s.live)
      → ChatInv c'
      → c'.sessions ≡ c.sessions
      → Knows s c
      → Knows t c'
  Knows-cast s t c c' same v e k = record {
    inv = v;
    known = λ id. ground (arith, same id, k.known id);
  }

  -- What the actor does with a connection.
  connected_lem :
      (conn : NewConnection S D R) (st : ServerState (Option ChatServer) ℕ S) (c' : ChatServer)
      → (server_step chat_ext (connected conn) st).0.extension ≡ some c'
      → ((st.extension ≡ some c') × ((server_step chat_ext (connected conn) st).1 ≡ none))
        ⊎ ((c : ChatServer) × (id : ℕ) × (st.extension ≡ some c)
            × (on_connect c ≡ some (c', id))
            × ((server_step chat_ext (connected conn) st).1 ≡ some id))
  unfolding server_step
  connected_lem conn st c' h = elim (Bool-cases st.shutting_down) [
    | inl sd ↦ inl (ground arith)
    | inr up ↦ elim (Result-cases (connect_chat st.extension).1) [
      | inl (i, q) ↦
          let (c, id, e, r, q') = connect_chat_inv st.extension c' (ground arith) in
          inr (c, id, e, r, ground arith)
      | inr (f, q) ↦
          let (c, id, e, r, q') = connect_chat_inv st.extension c' (ground arith) in
          absurd (ground arith)
    ]
  ]

  Step-Served : {s t : ChatSystem S D R} → Step chat_ext s t → Inv s → Served s → Served t
  unfolding server_step drain_acks lift_handler is_done
  Step-Served {s} {t} (accept conn h e) v k c' x =
      Knows-cast s t c' c' (λ id. ground arith) (k c' (ground arith)).inv refl (k c' (ground arith))
  Step-Served {s} {t} (Step.call a h e) v k c' x =
      Knows-cast s t c' c' (λ id. ground arith) (k c' (ground arith)).inv refl (k c' (ground arith))
  Step-Served {s} {t} (graceful_shutdown ack h e) v k c' x =
      Knows-cast s t c' c' (λ id. ground arith) (k c' (ground arith)).inv refl (k c' (ground arith))
  Step-Served {s} {t} (session_ends before id after result h e) v k c' x =
      Knows-cast s t c' c'
        (λ j. ground (
          arith,
          count-append j before (id ∷ after),
          count-append j before after,
          ids_of-append j s.disconnections ((id, result) ∷ []),
        ))
        (k c' (ground arith)).inv refl (k c' (ground arith))
  Step-Served {s} {t} (take_shutdown ack rest r h e) v k c' x =
      Knows-cast s t c' c' (λ id. ground arith) (k c' (ground arith)).inv refl (k c' (ground arith))
  Step-Served {s} {t} (take_connection conn rest r h room e) v k c' x =
      elim (connected_lem conn s.actor c' (ground arith)) [
        | inl (y, o) ↦ Knows-cast s t c' c' (λ id. ground arith) (k c' y).inv refl (k c' y)
        | inr (c, id, y, r', o) ↦
            let (v', same, small) = on_connect-ChatInv c c' id (k c y).inv r' in
            record {
              inv = v';
              known = λ j. ground (arith, (k c y).known j, count-append j s.live (id ∷ []));
            }
      ]
  Step-Served {s} {t} (take_disconnected id result rest r h e) v k c' x =
      let (c, y, d) = and_then_inv s.actor.extension (on_disconnect id) c' (ground arith) in
      let (v', counts) = on_disconnect-ChatInv c c' id (k c y).inv d in
      record { inv = v'; known = λ j. ground (arith, (k c y).known j, counts j) }
  Step-Served {s} {t} (take_call a rest r h g e) v k c' x =
      let (c, y, d) = and_then_inv s.actor.extension (on_call a.0 a.1) c' (ground arith) in
      let (v', same) = on_call-ChatInv a.0 a.1 c c' (k c y).inv d in
      Knows-cast s t c c' (λ id. ground arith) v' same (k c y)
  Step-Served {s} {t} (Step.exit h d e) v k c' x =
      let gone = lengths_nil s.live s.disconnections (ground (arith, v.counted)) in
      Knows-cast s t c' c' (λ id. ground (arith, gone.0, gone.1)) (k c' (ground arith)).inv refl
        (k c' (ground arith))

  Reach-Served :
      {s : ChatSystem S D R} → Reach chat_ext (start chat_ext (some empty_chat)) s → Served s
  Reach-Served here c h =
      let same : empty_chat ≡ c = ground arith in
      subst (λ x. Knows (start chat_ext (some empty_chat)) x) same
        (record { inv = empty_chat-ChatInv; known = λ id. refl })
  Reach-Served (next r st) c h = Step-Served st (Reach-Inv chat_ext r) (Reach-Served r) c h

  -- The `assert!` and the `expect` of `on_disconnect` never fail: whatever was connected, called and
  -- closed before, in any interleaving, a chat that has not panicked yet takes the end of a session
  -- without a panic. Then the session is in no room, and everybody else who runs, or whose end is
  -- queued, is in exactly one.
  pub leaving_never_panics :
      (s : ChatSystem S D R) (c : ChatServer) (id : ℕ) (result : CloseResult)
      (rest : List (ℕ × CloseResult))
      → Reach chat_ext (start chat_ext (some empty_chat)) s
      → s.actor.extension ≡ some c
      → s.disconnections ≡ (id, result) ∷ rest
      → (c' : ChatServer) × (on_disconnect id c ≡ some c')
        × (count_rooms id c'.rooms ≡ 0)
        × ((j : ℕ) → count_rooms j c'.rooms ≡ count j (ids_of rest) + count j s.live)
        × ((j : ℕ) → count j (ids_of rest) + count j s.live ≤ 1)
  leaving_never_panics s c id result rest r e d =
      let k = Reach-Served r c e in
      let queued = λ (j : ℕ).
        let same : count j (ids_of s.disconnections) ≡ count j (ids_of ((id, result) ∷ rest)) =
          ap (λ q. count j (ids_of q)) d in
        same in
      let (c', left) = on_disconnect-some c id k.inv (ground (arith, k.known id, queued id)) in
      let (v', counts) = on_disconnect-ChatInv c c' id k.inv left in
      (
        c',
        left,
        ground (arith, v'.counted id, counts id, k.inv.unique id),
        λ j. ground (arith, v'.counted j, counts j, k.known j, queued j),
        λ j. ground (arith, counts j, k.known j, queued j, k.inv.unique j),
      )

  -- A `Join` that is handled after its session has left makes the server panic. Whenever the actor of
  -- a reachable state runs, the end of a session is the first one queued, and a `Join` of that session
  -- the first call, the actor may take the end in its next round and the `Join` in the one after: the
  -- first of the two rounds goes well, and the second one panics.
  pub late_join_panics :
      (s : ChatSystem S D R) (c : ChatServer) (id : ℕ) (room : String) (takes : ℕ → Bool)
      (result : CloseResult) (rest : List (ℕ × CloseResult))
      (more : List ((ℕ → Bool) × ChatMessage))
      → Reach chat_ext (start chat_ext (some empty_chat)) s
      → s.actor.extension ≡ some c
      → s.exited ≡ false
      → s.actor.shutting_down ≡ false
      → s.disconnections ≡ (id, result) ∷ rest
      → s.calls ≡ (takes, join id room) ∷ more
      → let s1 = round chat_ext (disconnected id result) (record s { disconnections = rest }) in
        let s2 =
          round chat_ext (ServerEvent.called (takes, join id room)) (record s1 { calls = more }) in
        Step chat_ext s s1
        × Step chat_ext s1 s2
        × (s1.actor.extension ≡ on_disconnect id c)
        × (on_disconnect id c ≢ none)
        × (s2.actor.extension ≡ none)
  unfolding server_step is_done lift_handler and_then on_call
  late_join_panics s c id room takes result rest more r e up sd d q =
      let (c', left, gone, _, _) = leaving_never_panics s c id result rest r e d in
      let s1 = round chat_ext (disconnected id result) (record s { disconnections = rest }) in
      let s2 =
        round chat_ext (ServerEvent.called (takes, join id room)) (record s1 { calls = more }) in
      let run1 : IsRunning s = record { not_exited = up; not_done = ground arith } in
      let run2 : IsRunning s1 = record { not_exited = up; not_done = ground arith } in
      let step1 : Step chat_ext s s1 = take_disconnected id result rest run1 d refl in
      let step2 : Step chat_ext s1 s2 = take_call (takes, join id room) more run2 q sd refl in
      (
        step1,
        step2,
        ground (arith, e),
        λ n. absurd (ground (arith, left)),
        ground (arith, e, left, take_out-none id c'.rooms gone),
      )
