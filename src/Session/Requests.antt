-- ===== src/Session/Requests.antt =====
-- The kinds of requests to the handlers of a session (src/session.rs).
use ezsockets.Base.{List, [], ◌∷◌}
use ezsockets.Session.Handlers.{Request}
use ezsockets.Socket.Message.{Utf8Bytes}

-- The calls, and the texts that the session hears.
abbrev pub calls_of : {A : Type 0} → List (Request A) → List A
calls_of [] = []
calls_of (Request.call a ∷ rs) = a ∷ calls_of rs
calls_of (_ ∷ rs) = calls_of rs

abbrev pub texts_of : {A : Type 0} → List (Request A) → List Utf8Bytes
texts_of [] = []
texts_of (Request.text t ∷ rs) = t ∷ texts_of rs
texts_of (_ ∷ rs) = texts_of rs

abbrev pub NoBinary : {A : Type 0} → List (Request A) → Type 0
NoBinary [] = Unit {0}
NoBinary (Request.binary bytes ∷ rs) = ⊥
NoBinary (_ ∷ rs) = NoBinary rs
