-- ===== src/Server/Refining.antt =====
-- The server actor of src/server.rs, with its channels and its tasks, is the service.
use mathlib.Core.List.{Perm, perm_middle, map-append}
use mathlib.Core.List.Perm
use mathlib.Core.Quot
use mathlib.Mathlib.Data.Multiset.Defs.{of_list}
use mathlib.Mathlib.Data.Multiset.ZeroCons.{cons, cons-coe}
use ezsockets.Base.{
  Bool-cases, List, Result-cases, [], ap, append-nil, append_assoc, arith, false, if◌then◌else◌,
  inl, inr, map, subst, sym, ◌++◌, ◌∙◌, ◌∷◌, ◌≡◌, ◌⊎◌,
}
use ezsockets.Server.{NewConnection, ServerExt, connected, drain_acks, is_done, server_step}
use ezsockets.Server.Dispatch.{ends_perm}
use ezsockets.Server.Invariant.{Inv, Reach-Inv, lengths_nil}
use ezsockets.Server.Service.{
  Act, Phase, Run, Service, acts, admit, ask, draining, handle_call, idle, opening, reject, report,
  serving, stopped, turn_away,
}
use ezsockets.Server.System.{
  Reach, Step, System, accept, graceful_shutdown, here, next, round, session_ends, start, take_call,
  take_connection, take_disconnected, take_shutdown,
}
use ezsockets.Session.{CloseResult}

-- What one sees of the system: a session is open until its end is handled, wherever it is.
abbrev pub open_of : {E I A S D R : Type 0} → System E I A S D R → List I
open_of s = map (λ p. p.0) s.disconnections ++ s.live

abbrev pub phase_of : {E I A S D R : Type 0} → System E I A S D R → Phase
phase_of s = if s.exited then stopped else if s.actor.shutting_down then draining else serving

abbrev pub view : {E I A S D R : Type 0} → System E I A S D R → Service E I S
view s = record {
  extension = s.actor.extension;
  open_sessions = of_list (open_of s);
  reported = of_list s.actor.dispatched;
  refused = s.actor.refused;
  waiting = s.actor.shutdown_acks;
  answered = s.actor.acked;
  phase = phase_of s;
}

snoc_cons : {X : Type 0} (xs : List X) (x : X) → of_list (xs ++ x ∷ []) ≡ cons x (of_list xs)
snoc_cons xs x =
    Quot.sound (subst (λ ys. Perm (xs ++ x ∷ []) (x ∷ ys)) (append-nil xs) (perm_middle xs []))
    ∙ sym (cons-coe x xs)

append_snoc_cons :
    {X : Type 0} (xs ys : List X) (x : X)
    → of_list (xs ++ (ys ++ x ∷ [])) ≡ cons x (of_list (xs ++ ys))
append_snoc_cons xs ys x = ap of_list (sym (append_assoc xs ys (x ∷ []))) ∙ snoc_cons (xs ++ ys) x

module _ {E I A S D R : Type 0} (ext : ServerExt E I A S D R) where
  abbrev pub Refines : System E I A S D R → System E I A S D R → Type 0
  Refines s t = (view t ≡ view s) ⊎ Act ext (view s) (view t)

  -- A session whose end is queued is as open as one that runs.
  ends_view :
      (before : List I) (id : I) (after : List I) (result : CloseResult) (s : System E I A S D R)
      → s.live ≡ before ++ id ∷ after
      → view (record s {
        live = before ++ after;
        disconnections = s.disconnections ++ (id, result) ∷ [];
      })
        ≡ view s
  ends_view before id after result s h =
      ap (λ o. record (view s) { open_sessions = o })
        (Quot.sound (
          rw (h, map-append)
            (Perm.symm (ends_perm [] (map (λ p. p.0) s.disconnections) before after id))))

  connected_Act :
      (c : NewConnection S D R) (rest : List (NewConnection S D R)) (s : System E I A S D R)
      → s.exited ≡ false
      → Act ext (view s) (view (round ext (connected c) (record s { connections = rest })))
  unfolding server_step
  connected_Act c rest s x =
      let opened = append_snoc_cons (map (λ p. p.0) s.disconnections) s.live in
      let answer = ext.on_connect s.actor.extension c.socket c.request c.address in
      elim (Bool-cases s.actor.shutting_down) [
        | inl sd ↦ turn_away c (ground arith) (ground arith)
        | inr sd ↦ elim (Result-cases answer.1) [
          | inl (id, e) ↦
              admit c answer.0 id (ground arith) (ap (λ r. (answer.0, r)) e)
                (ground (arith, opened id))
          | inr (f, e) ↦
              reject c answer.0 f (ground arith) (ap (λ r. (answer.0, r)) e) (ground arith)
        ]
      ]

  Step-Refines : {s t : System E I A S D R} → Step ext s t → Inv s → Refines s t
  unfolding server_step is_done drain_acks
  Step-Refines (accept c h e) v = inl (ap view e)
  Step-Refines (Step.call x h e) v = inl (ap view e)
  Step-Refines (graceful_shutdown ack h e) v = inl (ap view e)
  Step-Refines {s} (session_ends before id after result h e) v =
      inl (ap view e ∙ ends_view before id after result s h)
  Step-Refines {s} (take_shutdown ack rest r h e) v = inr (ask ack (ground arith) (ground arith))
  Step-Refines {s} (take_connection c rest r h room e) v =
      inr (rw e (connected_Act c rest s r.not_exited))
  Step-Refines {s} (take_disconnected id result rest r h e) v = inr (
      report id result (of_list (map (λ p. p.0) rest ++ s.live)) (ground arith)
        (ap (λ q. of_list (map (λ p. p.0) q ++ s.live)) h
          ∙ sym (cons-coe id (map (λ p. p.0) rest ++ s.live)))
        (ground (arith, snoc_cons s.actor.dispatched id)))
  Step-Refines (take_call x rest r h g e) v = inr (handle_call x (ground arith) (ground arith))
  Step-Refines {s} (Step.exit h d e) v = inr (
      Act.stop (ground arith) (ground (arith, lengths_nil s.live s.disconnections, v.counted))
        (ground (arith, lengths_nil s.live s.disconnections, v.counted)))

  -- In every interleaving of its callers, its sessions and its actor, the server is seen to act as the
  -- service: with its sessions as a bag, in which one whose end is only queued still counts, it admits
  -- and rejects what its extension decides and handles calls only until it takes the first request to stop,
  -- turns connections away from then on, reports each session that it admitted at most once, and tells
  -- everybody whose request it took that it is done only with no session left, as the last act.
  pub Reach-Run :
      {extension : E} {s : System E I A S D R}
      → Reach ext (start ext extension) s
      → Run ext (opening ext extension) (view s)
  Reach-Run here = idle
  Reach-Run {extension} (next r st) = elim (Step-Refines st (Reach-Inv ext r)) [
    | inl e ↦ subst (λ a. Run ext (opening ext extension) a) (sym e) (Reach-Run r)
    | inr act ↦ acts (Reach-Run r) act
  ]
