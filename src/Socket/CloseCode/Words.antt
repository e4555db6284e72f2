-- ===== src/Socket/CloseCode/Words.antt =====
-- The words of two bytes in which src/socket.rs writes close codes, and the close codes themselves.
use mathlib.Core.Equiv.{Iso, IsEquiv, iso_to_equiv}
use mathlib.Core.HLevel.{×_prop, Σ_prop_path, Unit-prop}
use native.Mathlib.Bridge.{le_prop}
use native.Mathlib.Decide.{ℕ_discrete}
use ezsockets.Base.{ap, arith, inl, inr, ℕ, ◌<◌, ◌^◌, ◌⊎◌}
use ezsockets.Socket.CloseCode.{CloseCode, bad, from_u16, iana, library, reserved, to_u16}
use ezsockets.Socket.CloseCode.Codec.{
  IsCanonical, from_u16-IsCanonical, from_u16-to_u16_iff, to_u16-from_u16,
}

sum_prop : {A B : Type 0} → IsProp A → IsProp B → (A → B → ⊥) → IsProp (A ⊎ B)
sum_prop p q apart (inl a) (inl a') = ap inl (p a a')
sum_prop p q apart (inl a) (inr b) = absurd (apart a b)
sum_prop p q apart (inr b) (inl a) = absurd (apart a b)
sum_prop p q apart (inr b) (inr b') = ap inr (q b b')

IsCanonical-prop : (c : CloseCode) → IsProp (IsCanonical c)
IsCanonical-prop (reserved n) = ×_prop le_prop le_prop
IsCanonical-prop (iana n) = ×_prop le_prop le_prop
IsCanonical-prop (library n) = ×_prop le_prop le_prop
IsCanonical-prop (bad n) =
    sum_prop le_prop
      (sum_prop (hlevel ℕ_discrete) (sum_prop (hlevel ℕ_discrete) le_prop (λ e h. omega arith))
        (λ e h. ground arith))
      (λ e h. ground arith)
IsCanonical-prop _ = Unit-prop

-- A `u16`.
abbrev pub U16 : Type 0
U16 = (n : ℕ) × (n < 2 ^ 16)

-- A close code as it is read, of which the number fits.
abbrev pub WireCode : Type 0
WireCode = (c : CloseCode) × (IsCanonical c × (to_u16 c < 2 ^ 16))

-- `CloseCode::from`, at a `u16`.
abbrev pub read_code : U16 → WireCode
read_code (n, h) = (from_u16 n, (from_u16-IsCanonical n, rw (to_u16-from_u16 n) h))

write_code : WireCode → U16
write_code (c, k) = (to_u16 c, k.1)

code_iso : Iso U16 WireCode
unfolding write_code
code_iso = record {
  fun = read_code;
  inv = write_code;
  rinv = λ c.
      Σ_prop_path (λ x. ×_prop (IsCanonical-prop x) le_prop) ((from_u16-to_u16_iff c.0).1 c.1.0);
  linv = λ n. Σ_prop_path (λ x. le_prop) (to_u16-from_u16 n.0);
}

-- Reading is an equivalence of types: the words of two bytes and the canonical close codes are the
-- same, so that no word is lost and none is read in two ways.
pub read_code-IsEquiv : IsEquiv read_code
unfolding code_iso
read_code-IsEquiv = (iso_to_equiv code_iso).1
