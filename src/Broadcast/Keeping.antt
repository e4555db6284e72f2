-- ===== src/Broadcast/Keeping.antt =====
-- The keys of the server's map of sessions are distinct.
use ezsockets.Base.{
  Bool, Bool-cases, List, Option, Option-cases, [], arith, inl, inr, none, some, ℕ, ◌++◌, ◌^◌, ◌∷◌,
}
use ezsockets.Broadcast.{
  BroadcastMessage, BroadcastServer, BroadcastSystem, FromText, broadcast_ext, broadcast_on_call,
  broadcast_on_connect, broadcast_on_disconnect, call_broadcast, connect_broadcast,
  disconnect_broadcast, empty_broadcast, from_text, text_all,
}
use ezsockets.Broadcast.Telling.{AreKeys}
use ezsockets.Chat.{contains_key, find_id, others}
use ezsockets.Chat.Names.{find_id-free}
use ezsockets.Chat.Rooms.{contains_key-count, count-remove_first}
use ezsockets.Server.Keeping.{Reach-Keeps}
use ezsockets.Server.System.{Reach, start}

abbrev pub HasKeys : Option BroadcastServer → Type 0
HasKeys none = Unit {0}
HasKeys (some c) = AreKeys c.sessions

connected_keys : (e : Option BroadcastServer) → HasKeys e → HasKeys (connect_broadcast e).0
unfolding connect_broadcast broadcast_on_connect
connected_keys none k = tt
connected_keys (some c) k = elim (Option-cases (find_id (2 ^ 16) 0 c.sessions)) [
  | inl q ↦ rw q tt
  | inr (id, q) ↦
      let (free, small) = find_id-free (2 ^ 16) 0 id c.sessions q in
      rw q (λ i. ground (arith, k i, contains_key-count c.sessions i, free))
]

disconnected_keys :
    (id : ℕ) (e : Option BroadcastServer) → HasKeys e → HasKeys (disconnect_broadcast id e)
unfolding disconnect_broadcast broadcast_on_disconnect
disconnected_keys id none k = tt
disconnected_keys id (some c) k = elim (Bool-cases (contains_key c.sessions id)) [
  | inl q ↦ rw q (λ i. ground (arith, k i, count-remove_first i id c.sessions))
  | inr q ↦ rw q tt
]

text_all_keys :
    (takes : ℕ → Bool) (t : FromText) (ids : List ℕ) (c : BroadcastServer)
    → AreKeys c.sessions
    → HasKeys (text_all takes t ids c)
unfolding text_all
text_all_keys takes t [] c k = k
text_all_keys takes t (id ∷ ids) c k = elim (Bool-cases (takes id)) [
  | inl q ↦ rw q (text_all_keys takes t ids (record c { posted = c.posted ++ (id, t) ∷ [] }) k)
  | inr q ↦ rw q tt
]

called_keys :
    (takes : ℕ → Bool) (call : BroadcastMessage) (e : Option BroadcastServer)
    → HasKeys e
    → HasKeys (call_broadcast takes call e)
unfolding call_broadcast broadcast_on_call
called_keys takes call none k = tt
called_keys takes (BroadcastMessage.send from t) (some c) k =
    text_all_keys takes (from_text from t) (others from c.sessions) c k

pub Reach-HasKeys :
    {S D R : Type 0} {s : BroadcastSystem S D R}
    → Reach broadcast_ext (start broadcast_ext (some empty_broadcast)) s
    → HasKeys s.actor.extension
Reach-HasKeys r =
    Reach-Keeps broadcast_ext HasKeys
      (record {
        on_connect = λ e socket req d k. connected_keys e k;
        on_disconnect = λ e id result k. disconnected_keys id e k;
        on_call = λ e a k. called_keys a.0 a.1 e k;
      })
      (λ i. omega arith) r
