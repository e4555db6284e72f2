-- ===== src/Typing/Exiting.antt =====
-- How a client whose user types "exit" ends.
use package.text.Mathlib.Text.{◌==◌ as str_eq}
use ezsockets.Base.{
  Bool, Bool-cases, List, Option, Result, [], ap, append-nil, append_assoc, arith, err, false,
  if◌then◌else◌, inl, inr, map, none, ok, refl, some, subst, sym, true, ◌++◌, ◌||◌, ◌∙◌, ◌∷◌, ◌≡◌,
  ◌⊎◌,
}
use ezsockets.Client.{ClientConfig, ClientSocket}
use ezsockets.Client.Actor.{
  ClientEvent, Progress, client_run, client_step, handle_incoming_msg, handle_outgoing_msg,
  returned, running,
}
use ezsockets.Client.Connect.{ClientState, is_close}
use ezsockets.Error.{WsError}
use ezsockets.Socket.Message.{Message, Utf8Bytes}
use ezsockets.Socket.Signal.{InMessage}
use ezsockets.Typing.{line_message, line_on_call, typing_ext}

-- Nothing but texts and binaries comes in, the handles live, and every message that is taken is sent.
abbrev pub IsCalm : List (ClientEvent Utf8Bytes) → Type 0
IsCalm [] = Unit {0}
IsCalm (ClientEvent.outgoing m fails result ∷ es) = (fails ≡ false) × IsCalm es
IsCalm (ClientEvent.called line ∷ es) = IsCalm es
IsCalm (ClientEvent.incoming (some (ok (Message.text t))) ∷ es) = IsCalm es
IsCalm (ClientEvent.incoming (some (ok (Message.binary bytes))) ∷ es) = IsCalm es
IsCalm (ClientEvent.incoming _ ∷ es) = ⊥
IsCalm (ClientEvent.hung_up ∷ es) = ⊥

abbrev pub lines : List (ClientEvent Utf8Bytes) → List Utf8Bytes
lines [] = []
lines (ClientEvent.called line ∷ es) = line ∷ lines es
lines (_ ∷ es) = lines es

-- The messages that the actor takes from its user's channel.
abbrev pub taken_out : List (ClientEvent Utf8Bytes) → List (Option Message)
taken_out [] = []
taken_out (ClientEvent.outgoing m fails result ∷ es) = m.message ∷ taken_out es
taken_out (_ ∷ es) = taken_out es

abbrev pub says_exit : List Utf8Bytes → Bool
says_exit [] = false
says_exit (line ∷ ls) = str_eq line "exit" || says_exit ls

-- Whether there is a close message.
abbrev has_close : List (Option Message) → Bool
has_close [] = false
has_close (m ∷ ms) = is_close m || has_close ms

has_close-lines : (ls : List Utf8Bytes) → has_close (map some (map line_message ls)) ≡ says_exit ls
unfolding line_message is_close
has_close-lines [] = refl
has_close-lines (line ∷ ls) = elim (Bool-cases (str_eq line "exit")) [
  | inl e ↦ rw e refl
  | inr e ↦ rw e (has_close-lines ls)
]

says_exit-append : (xs ys : List Utf8Bytes) → says_exit xs ≡ true → says_exit (xs ++ ys) ≡ true
says_exit-append [] ys h = absurd (ground arith)
says_exit-append (line ∷ xs) ys h = ground (arith, says_exit-append xs ys)

texts-lines :
    (ls : List Utf8Bytes) → says_exit ls ≡ false → map line_message ls ≡ map Message.text ls
unfolding line_message
texts-lines [] h = refl
texts-lines (line ∷ ls) h = ground (arith, texts-lines ls)

some_injective : (xs ys : List Message) → some xs ≡ some ys → xs ≡ ys
some_injective xs ys h = ground arith

module _ {K U H : Type 0} (config : ClientConfig U H) where
  -- The client returns when a close message is taken, and goes on otherwise.
  run_calm :
      (es : List (ClientEvent Utf8Bytes)) (socket : ClientSocket K)
      (st : ClientState (Option (List Message)) K)
      → IsCalm es
      → (client_run (typing_ext true) config es socket st).1
        ≡ (if has_close (taken_out es) then returned (ok tt) else running socket)
  unfolding client_run client_step handle_outgoing_msg handle_incoming_msg line_on_call
  run_calm [] socket st h = refl
  run_calm (ClientEvent.outgoing m fails result ∷ es) socket st h = ground (
    arith,
    h.0,
    run_calm es socket
        (client_step (typing_ext true) config (ClientEvent.outgoing m fails result) socket st).0
        h.1,
  )
  run_calm (ClientEvent.called line ∷ es) socket st h =
      run_calm es socket
        (client_step (typing_ext true) config (ClientEvent.called line) socket st).0 h
  run_calm (ClientEvent.incoming (some (ok (Message.text t))) ∷ es) socket st h =
      run_calm es socket st h
  run_calm (ClientEvent.incoming (some (ok (Message.binary bytes))) ∷ es) socket st h =
      run_calm es socket st h
  run_calm (ClientEvent.incoming (some (ok (Message.close f))) ∷ es) socket st h = absurd h
  run_calm (ClientEvent.incoming (some (err e)) ∷ es) socket st h = absurd h
  run_calm (ClientEvent.incoming none ∷ es) socket st h = absurd h
  run_calm (ClientEvent.hung_up ∷ es) socket st h = absurd h

  outgoing_goes_on :
      (m : InMessage) (result : Result (Unit {0}) WsError) (es : List (ClientEvent Utf8Bytes))
      (socket : ClientSocket K) (st : ClientState (Option (List Message)) K)
      → is_close m.message ≡ false
      → let st' =
          (client_step
            (typing_ext true)
            config
            (ClientEvent.outgoing m false result)
            socket
            st).0 in
        (client_run (typing_ext true) config (ClientEvent.outgoing m false result ∷ es) socket st
          ≡ client_run (typing_ext true) config es socket st')
        × (st'.extension ≡ st.extension)
  unfolding client_run client_step handle_outgoing_msg
  outgoing_goes_on m result es socket st h = ground (arith, h)

  outgoing_ends :
      (m : InMessage) (result : Result (Unit {0}) WsError) (es : List (ClientEvent Utf8Bytes))
      (socket : ClientSocket K) (st : ClientState (Option (List Message)) K)
      → is_close m.message ≡ true
      → let (st', p) =
          client_run
            (typing_ext true)
            config
            (ClientEvent.outgoing m false result ∷ es)
            socket
            st in
        (st'.extension ≡ st.extension) × (p ≡ returned (ok tt))
  unfolding client_run client_step handle_outgoing_msg
  outgoing_ends m result es socket st h = ground (arith, h)

  -- A message is posted for each line of a beginning, which is all lines as long as the client goes on.
  abbrev Posts :
      List Utf8Bytes → List Message → ClientState (Option (List Message)) K × Progress K → Type 0
  Posts ls posted (st, p) =
      (before : List Utf8Bytes) × (after : List Utf8Bytes) × (ls ≡ before ++ after)
      × (st.extension ≡ some (posted ++ map line_message before))
      × ((after ≡ []) ⊎ (p ≡ returned (ok tt)))

  run-Posts :
      (es : List (ClientEvent Utf8Bytes)) (socket : ClientSocket K)
      (st : ClientState (Option (List Message)) K) (posted : List Message)
      → IsCalm es
      → st.extension ≡ some posted
      → Posts (lines es) posted (client_run (typing_ext true) config es socket st)
  unfolding client_run client_step handle_incoming_msg line_on_call
  run-Posts [] socket st posted h e =
      ([], [], refl, e ∙ ap some (sym (append-nil posted)), inl refl)
  run-Posts (ClientEvent.outgoing m true result ∷ es) socket st posted h e =
      absurd (ground (arith, h.0))
  run-Posts (ClientEvent.outgoing m false result ∷ es) socket st posted h e =
      elim (Bool-cases (is_close m.message)) [
        | inl c ↦
            let (x, p) = outgoing_ends m result es socket st c in
            ([], lines es, refl, x ∙ e ∙ ap some (sym (append-nil posted)), inr p)
        | inr c ↦
            let (run, x) = outgoing_goes_on m result es socket st c in
            subst (Posts (lines es) posted) (sym run) (
              run-Posts es socket
                (client_step (typing_ext true) config (ClientEvent.outgoing m false result) socket
                  st).0
                posted h.1 (x ∙ e))
      ]
  run-Posts (ClientEvent.called line ∷ es) socket st posted h e =
      let m = line_message line in
      let (before, after, l, x, n) =
        run-Posts es socket
          (client_step (typing_ext true) config (ClientEvent.called line) socket st).0
          (posted ++ m ∷ []) h (rw e refl) in
      (
        line ∷ before,
        after,
        ap (λ ls. line ∷ ls) l,
        x ∙ ap some (append_assoc posted (m ∷ []) (map line_message before)),
        n,
      )
  run-Posts (ClientEvent.incoming (some (ok (Message.text t))) ∷ es) socket st posted h e =
      run-Posts es socket st posted h e
  run-Posts (ClientEvent.incoming (some (ok (Message.binary bytes))) ∷ es) socket st posted h e =
      run-Posts es socket st posted h e
  run-Posts (ClientEvent.incoming (some (ok (Message.close f))) ∷ es) socket st posted h e =
      absurd h
  run-Posts (ClientEvent.incoming (some (err x)) ∷ es) socket st posted h e = absurd h
  run-Posts (ClientEvent.incoming none ∷ es) socket st posted h e = absurd h
  run-Posts (ClientEvent.hung_up ∷ es) socket st posted h e = absurd h

  -- The user's "exit" ends the client, and nothing else does. Take any events in which only texts and
  -- binaries come in, each message that is taken is sent, and what is taken is, in order, exactly what
  -- the handlers had posted by the end. If a line "exit" was typed, the client returns `Ok(())`, and
  -- it had posted a message for each line of a beginning of what was typed that has an "exit" in it,
  -- in order. Else it goes on with its socket, and has posted each line as a text,
  -- in order.
  pub client_run-says_exit :
      (es : List (ClientEvent Utf8Bytes)) (socket : ClientSocket K)
      (st : ClientState (Option (List Message)) K) (posted : List Message)
      → IsCalm es
      → st.extension ≡ some []
      → (client_run (typing_ext true) config es socket st).0.extension ≡ some posted
      → taken_out es ≡ map some posted
      → let p = (client_run (typing_ext true) config es socket st).1 in
        ((says_exit (lines es) ≡ true)
          × (p ≡ returned (ok tt))
          × ((before : List Utf8Bytes) × (after : List Utf8Bytes) × (lines es ≡ before ++ after)
              × (says_exit before ≡ true)
              × (posted ≡ map line_message before)))
        ⊎ ((says_exit (lines es) ≡ false)
            × (p ≡ running socket)
            × (posted ≡ map Message.text (lines es)))
  client_run-says_exit es socket st posted h e x all =
      let (before, after, l, y, n) = run-Posts es socket st [] h e in
      let same : posted ≡ map line_message before =
        some_injective posted (map line_message before) (sym x ∙ y) in
      let found : has_close (taken_out es) ≡ says_exit before =
        ap has_close (all ∙ ap (map some) same) ∙ has_close-lines before in
      let ends = run_calm es socket st h in
      elim (Bool-cases (says_exit before)) [
        | inl exits ↦ inl (
          ap says_exit l ∙ says_exit-append before after exits,
          ground (arith, ends, found, exits),
          (before, after, l, exits, same),
        )
        | inr stays ↦
            let goes_on : (client_run (typing_ext true) config es socket st).1 ≡ running socket =
              ends ∙ ap (λ b. if b then returned (ok tt) else running socket) (found ∙ stays) in
            let over : after ≡ [] = elim n [
              | inl a ↦ a
              | inr r ↦ absurd (ground (arith, goes_on, r))
            ] in
            let whole : lines es ≡ before = l ∙ ap (λ a. before ++ a) over ∙ append-nil before in
            inr (
              ap says_exit whole ∙ stays,
              goes_on,
              same ∙ texts-lines before stays ∙ ap (map Message.text) (sym whole),
            )
      ]
