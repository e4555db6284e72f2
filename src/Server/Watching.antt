-- ===== src/Server/Watching.antt =====
-- When the watcher of a session closes it (src/server.rs).
use ezsockets.Base.{
  Bool-cases, List, [], ap, arith, false, inl, inr, refl, some, true, ◌++◌, ◌↔◌, ◌∷◌, ◌≡◌,
}
use ezsockets.Server.{WatchRound, going_away, watch_for_shutdown}
use ezsockets.Socket.Message.{CloseFrame}

-- Nothing happened yet: no shutdown, and the server is there.
abbrev pub AllQuiet : List WatchRound → Type 0
AllQuiet [] = Unit {0}
AllQuiet (r ∷ rs) = (r.value ≡ false) × (r.lost ≡ false) × AllQuiet rs

-- The watcher sees the shutdown before it loses the server.
abbrev pub SeesShutdown : List WatchRound → Type 0
SeesShutdown rs =
    (before : List WatchRound) × (r : WatchRound) × (after : List WatchRound) × (rs
      ≡ before ++ r ∷ after)
    × AllQuiet before
    × (r.value ≡ true)

sees :
    (rs : List WatchRound) (f : CloseFrame)
    → watch_for_shutdown rs ≡ some (some f)
    → SeesShutdown rs
unfolding watch_for_shutdown
sees [] f h = absurd (ground arith)
sees (r ∷ rs) f h = elim (Bool-cases r.value) [
  | inl v ↦ ([], r, rs, refl, tt, v)
  | inr v ↦
      let (before, r', after, e, q, v') = sees rs f (ground arith) in
      (r ∷ before, r', after, ap (λ zs. r ∷ zs) e, (v, ground arith, q), v')
]

closes :
    (before after : List WatchRound) (r : WatchRound)
    → AllQuiet before
    → r.value ≡ true
    → watch_for_shutdown (before ++ r ∷ after) ≡ some (some going_away)
unfolding watch_for_shutdown
closes [] after r q v = ground arith
closes (b ∷ before) after r q v = ground (arith, closes before after r q.2 v)

frame_is_away :
    (rs : List WatchRound) (f : CloseFrame) → watch_for_shutdown rs ≡ some (some f) → f ≡ going_away
unfolding watch_for_shutdown
frame_is_away [] f h = absurd (ground arith)
frame_is_away (r ∷ rs) f h = ground (arith, frame_is_away rs f)

-- The watcher of a session closes it exactly if it sees the shutdown before the server is gone, and
-- then with the frame `Away`.
pub watch_for_shutdown_iff :
    (rs : List WatchRound) (f : CloseFrame)
    → (watch_for_shutdown rs ≡ some (some f)) ↔ ((f ≡ going_away) × SeesShutdown rs)
watch_for_shutdown_iff rs f = (
  λ h. (frame_is_away rs f h, sees rs f h),
  λ h. let (e, (before, r, after, q, quiet, v)) = h in rw (e, q) (closes before after r quiet v),
)
