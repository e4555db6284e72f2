-- ===== src/Session/Failing.antt =====
-- What the signals of a session's messages say once its actor is gone (src/session.rs).
use ezsockets.Base.{List, [], arith, none, refl, some, suc, ℕ, ◌++◌, ◌<◌, ◌∷◌, ◌≡◌}
use ezsockets.Session.System.{drop_all}
use ezsockets.Socket.Message.{Message}
use ezsockets.Socket.Signal.{InMessage, Signals, drop_message, failed, new_message, status}

abbrev pub HasFailed : InMessage → Signals → Type 0
HasFailed m s = elim m.signal [ none ↦ Unit {0} | some i ↦ status s i ≡ failed ]

abbrev pub AllFailed : List InMessage → Signals → Type 0
AllFailed [] s = Unit {0}
AllFailed (m ∷ ms) s = HasFailed m s × AllFailed ms s

-- Every signal is a cell below the bound.
abbrev pub AllBelow : List InMessage → ℕ → Type 0
AllBelow [] n = Unit {0}
AllBelow (m ∷ ms) n = elim m.signal [ none ↦ Unit {0} | some i ↦ i < n ] × AllBelow ms n

pub drop_message-HasFailed : (m : InMessage) (s : Signals) → HasFailed m (drop_message m s)
unfolding drop_message status
drop_message-HasFailed m s = ground arith

pub keeps_HasFailed :
    (m m' : InMessage) (s : Signals) → HasFailed m s → HasFailed m (drop_message m' s)
unfolding drop_message status
keeps_HasFailed m m' s h = ground arith

pub drop_all-HasFailed :
    (ms : List InMessage) (m : InMessage) (s : Signals)
    → HasFailed m s
    → HasFailed m (drop_all ms s)
unfolding drop_all
drop_all-HasFailed [] m s h = h
drop_all-HasFailed (m' ∷ ms) m s h =
    drop_all-HasFailed ms m (drop_message m' s) (keeps_HasFailed m m' s h)

-- The messages of a dropped channel have all failed.
pub drop_all-AllFailed : (ms : List InMessage) (s : Signals) → AllFailed ms (drop_all ms s)
unfolding drop_all
drop_all-AllFailed [] s = tt
drop_all-AllFailed (m ∷ ms) s = (
  drop_all-HasFailed ms m (drop_message m s) (drop_message-HasFailed m s),
  drop_all-AllFailed ms (drop_message m s),
)

pub allocated-drop_all :
    (ms : List InMessage) (s : Signals) → (drop_all ms s).allocated ≡ s.allocated
unfolding drop_all drop_message
allocated-drop_all [] s = refl
allocated-drop_all (m ∷ ms) s = ground (arith, allocated-drop_all ms (drop_message m s))

-- A new signal changes none of them.
pub new_message-AllFailed :
    (x : Message) (ms : List InMessage) (s : Signals)
    → AllBelow ms s.allocated
    → AllFailed ms s
    → AllFailed ms (new_message x s).1
unfolding new_message status
new_message-AllFailed x [] s b h = tt
new_message-AllFailed x (m ∷ ms) s b h = (ground arith, new_message-AllFailed x ms s b.1 h.1)

pub AllBelow-suc : (ms : List InMessage) (n : ℕ) → AllBelow ms n → AllBelow ms (suc n)
AllBelow-suc [] n b = tt
AllBelow-suc (m ∷ ms) n b = (ground arith, AllBelow-suc ms n b.1)

pub AllBelow-append :
    (ms ms' : List InMessage) (n : ℕ) → AllBelow ms n → AllBelow ms' n → AllBelow (ms ++ ms') n
AllBelow-append [] ms' n b b' = b'
AllBelow-append (m ∷ ms) ms' n b b' = (b.0, AllBelow-append ms ms' n b.1 b')

pub AllFailed-append :
    (ms ms' : List InMessage) (s : Signals)
    → AllFailed ms s
    → AllFailed ms' s
    → AllFailed (ms ++ ms') s
AllFailed-append [] ms' s h h' = h'
AllFailed-append (m ∷ ms) ms' s h h' = (h.0, AllFailed-append ms ms' s h.1 h')

pub keeps_AllFailed :
    (dropped ms : List InMessage) (s : Signals) → AllFailed ms s → AllFailed ms (drop_all dropped s)
keeps_AllFailed dropped [] s h = tt
keeps_AllFailed dropped (m ∷ ms) s h =
    (drop_all-HasFailed dropped m s h.0, keeps_AllFailed dropped ms s h.1)
