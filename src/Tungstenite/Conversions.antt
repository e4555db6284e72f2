-- ===== src/Tungstenite/Conversions.antt =====
-- The conversions of src/tungstenite_common.rs lose nothing.
use mathlib.Core.Option
use ezsockets.Base.{Option, ap, arith, none, refl, some, subst, ◌↔◌, ◌≡◌}
use ezsockets.Socket.CloseCode.{CloseCode}
use ezsockets.Socket.Message.{CloseFrame, Message, RawMessage, to_raw}
use ezsockets.Tungstenite.{
  TungsteniteCloseCode, TungsteniteCloseFrame, TungsteniteMessage, from_tungstenite,
  from_tungstenite_code, from_tungstenite_frame, message_to_tungstenite, to_tungstenite,
  to_tungstenite_code, to_tungstenite_frame,
}

pub from-to_tungstenite_code : (c : CloseCode) → from_tungstenite_code (to_tungstenite_code c) ≡ c
unfolding from_tungstenite_code to_tungstenite_code
from-to_tungstenite_code c = ground arith

to-from_tungstenite_code :
    (c : TungsteniteCloseCode) → to_tungstenite_code (from_tungstenite_code c) ≡ c
unfolding from_tungstenite_code to_tungstenite_code
to-from_tungstenite_code c = ground arith

frame_out_and_back :
    (f : Option CloseFrame)
    → Option.map from_tungstenite_frame (Option.map to_tungstenite_frame f) ≡ f
unfolding from_tungstenite_frame to_tungstenite_frame
frame_out_and_back none = refl
frame_out_and_back (some f) = rw from-to_tungstenite_code

frame_in_and_back :
    (f : Option TungsteniteCloseFrame)
    → Option.map to_tungstenite_frame (Option.map from_tungstenite_frame f) ≡ f
unfolding from_tungstenite_frame to_tungstenite_frame
frame_in_and_back none = refl
frame_in_and_back (some f) = rw to-from_tungstenite_code

module _ (F : Type 0) where
  pub from_tungstenite-to_tungstenite :
      (m : RawMessage) → from_tungstenite (to_tungstenite {F = F} m) ≡ some m
  unfolding from_tungstenite to_tungstenite
  from_tungstenite-to_tungstenite (RawMessage.close f) =
      ap (λ g. some (RawMessage.close g)) (frame_out_and_back f)
  from_tungstenite-to_tungstenite _ = refl

  to_tungstenite-from_tungstenite :
      (t : TungsteniteMessage F) (m : RawMessage)
      → from_tungstenite t ≡ some m
      → to_tungstenite m ≡ t
  unfolding from_tungstenite to_tungstenite
  to_tungstenite-from_tungstenite (TungsteniteMessage.close f) m e =
      ground (arith, frame_in_and_back f)
  to_tungstenite-from_tungstenite t m e = ground arith

  -- Reading from tungstenite undoes writing to it, and only that: a message of tungstenite is read as a
  -- given raw message exactly if it is what that one is written as, its close code included. So every
  -- raw message survives the way out and back, and whatever is read without a panic is written back as
  -- it was.
  pub from_tungstenite_iff :
      (t : TungsteniteMessage F) (m : RawMessage)
      → (from_tungstenite t ≡ some m) ↔ (to_tungstenite m ≡ t)
  from_tungstenite_iff t m = (
    to_tungstenite-from_tungstenite t m,
    λ e. subst (λ u. from_tungstenite u ≡ some m) e (from_tungstenite-to_tungstenite m),
  )

  -- The two ways out agree: a message converted at once, and one made raw first.
  pub to_tungstenite-to_raw :
      (m : Message) → to_tungstenite {F = F} (to_raw m) ≡ message_to_tungstenite m
  unfolding to_tungstenite to_raw message_to_tungstenite
  to_tungstenite-to_raw m = ground arith
