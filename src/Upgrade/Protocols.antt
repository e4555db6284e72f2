-- ===== src/Upgrade/Protocols.antt =====
-- Which protocol a server of src/server_runners/axum_tungstenite.rs chooses.
use ezsockets.Base.{
  Bool-cases, List, Option, [], ap, arith, false, inl, inr, none, refl, some, true, ◌++◌, ◌∷◌, ◌≡◌,
  ◌⊎◌,
}
use ezsockets.Socket.Message.{Bytes}
use ezsockets.Text.{bytes_eq, split, trim}
use ezsockets.Text.Laws.{bytes_eq_iff}
use ezsockets.Upgrade.{
  HeaderName, WebSocketUpgrade, any_trimmed, connection, find_offered, protocols,
  sec_websocket_accept, sec_websocket_protocol, upgrade, upgrade_response, upgrade_token,
  websocket_token,
}

-- The client offers the protocol: it stands between two commas, with blanks around it or not.
abbrev pub IsOffered : Bytes → Bytes → Type 0
IsOffered req_protocols protocol =
    (before : List Bytes) × (piece : Bytes) × (after : List Bytes) × (split 44 req_protocols
      ≡ before ++ piece ∷ after)
    × (trim piece ≡ protocol)

-- The client offers none of the protocols.
abbrev pub NoneOffered : Bytes → List Bytes → Type 0
NoneOffered req_protocols [] = Unit {0}
NoneOffered req_protocols (p ∷ ps) = (IsOffered req_protocols p → ⊥) × NoneOffered req_protocols ps

abbrev OfferedAmong : List Bytes → Bytes → Type 0
OfferedAmong pieces protocol =
    (before : List Bytes) × (piece : Bytes) × (after : List Bytes) × (pieces
      ≡ before ++ piece ∷ after)
    × (trim piece ≡ protocol)

any_trimmed-offered :
    (protocol : Bytes) (pieces : List Bytes)
    → any_trimmed protocol pieces ≡ true
    → OfferedAmong pieces protocol
unfolding any_trimmed
any_trimmed-offered protocol [] h = absurd (ground arith)
any_trimmed-offered protocol (p ∷ ps) h = elim (Bool-cases (bytes_eq (trim p) protocol)) [
  | inl e ↦ ([], p, ps, refl, (bytes_eq_iff (trim p) protocol).0 e)
  | inr e ↦
      let (before, piece, after, q, t) = any_trimmed-offered protocol ps (ground arith) in
      (p ∷ before, piece, after, ap (λ zs. p ∷ zs) q, t)
]

any_trimmed-append :
    (protocol : Bytes) (before after : List Bytes) (piece : Bytes)
    → trim piece ≡ protocol
    → any_trimmed protocol (before ++ piece ∷ after) ≡ true
unfolding any_trimmed
any_trimmed-append protocol [] after piece e =
    ground (arith, (bytes_eq_iff (trim piece) protocol).1 e)
any_trimmed-append protocol (b ∷ before) after piece e =
    ground (arith, any_trimmed-append protocol before after piece e)

not-IsOffered :
    (req_protocols protocol : Bytes)
    → any_trimmed protocol (split 44 req_protocols) ≡ false
    → ¬ IsOffered req_protocols protocol
not-IsOffered req_protocols protocol h o =
    let (before, piece, after, q, t) = o in
    let found : any_trimmed protocol (split 44 req_protocols) ≡ true =
      rw q (any_trimmed-append protocol before after piece t) in
    absurd (ground arith)

-- The search finds the first of the server's protocols that the client offers, or there is none.
find_offered_cases :
    (req_protocols : Bytes) (known : List Bytes)
    → ((find_offered req_protocols known ≡ none) × NoneOffered req_protocols known)
      ⊎ ((before : List Bytes) × (p : Bytes) × (after : List Bytes) × (find_offered req_protocols
              known
            ≡ some p)
          × (known ≡ before ++ p ∷ after)
          × IsOffered req_protocols p
          × NoneOffered req_protocols before)
unfolding find_offered
find_offered_cases req_protocols [] = inl (refl, tt)
find_offered_cases req_protocols (k ∷ known) =
    elim (Bool-cases (any_trimmed k (split 44 req_protocols))) [
      | inl o ↦
          let offered = any_trimmed-offered k (split 44 req_protocols) o in
          inr ([], k, known, ground arith, refl, offered, tt)
      | inr o ↦ elim (find_offered_cases req_protocols known) [
        | inl (e, h) ↦ inl (ground arith, (not-IsOffered req_protocols k o, h))
        | inr (before, p, after, e, q, offered, h) ↦ inr (
          k ∷ before,
          p,
          after,
          ground arith,
          ap (λ zs. k ∷ zs) q,
          offered,
          (not-IsOffered req_protocols k o, h),
        )
      ]
    ]

module _ {W U : Type 0} (to_str : Bytes → Option Bytes) (from_str : Bytes → Option Bytes)
    (sign : Bytes → Bytes) where
  -- When the client's list of protocols is readable and those that the server knows are valid header
  -- values, `protocols` does not panic, and the response to the upgrade has one of two forms. It names
  -- the first of the server's protocols that the client offers; or the client offers none of them,
  -- and the response names no protocol.
  pub protocols-upgrade_response :
      (known : List Bytes) (ws : WebSocketUpgrade W U) (header req_protocols : Bytes)
      → ws.sec_websocket_protocol ≡ some header
      → to_str header ≡ some req_protocols
      → ((before : List Bytes) (p : Bytes) (after : List Bytes)
          → known ≡ before ++ p ∷ after
          → from_str p ≡ some p)
      → (ws' : WebSocketUpgrade W U) × (protocols to_str from_str known ws ≡ some ws')
        × (let named = λ (rest : List (HeaderName × Bytes)).
              (upgrade_response sign ws').response_headers
              ≡ (connection, upgrade_token)
                ∷ (upgrade, websocket_token)
                ∷ (sec_websocket_accept, sign ws.sec_websocket_key)
                ∷ rest in
            (named [] × NoneOffered req_protocols known)
            ⊎ ((before : List Bytes) × (p : Bytes) × (after : List Bytes) × named
                  ((sec_websocket_protocol, p) ∷ [])
                × (known ≡ before ++ p ∷ after)
                × IsOffered req_protocols p
                × NoneOffered req_protocols before))
  unfolding protocols upgrade_response
  protocols-upgrade_response known ws header req_protocols h r valid =
      elim (find_offered_cases req_protocols known) [
        | inl (e, n) ↦ (record ws { protocol = none }, ground arith, inl (refl, n))
        | inr (before, p, after, e, q, o, n) ↦ (
          record ws { protocol = some p },
          ground (arith, valid before p after q),
          inr (before, p, after, refl, q, o, n),
        )
      ]
