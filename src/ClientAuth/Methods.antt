-- ===== src/ClientAuth/Methods.antt =====
-- The methods that internal/clientauth offers, and what they decide.
use px_go.Prelude.{◌≡◌, ◌≢◌, Bool, true, []}
use px_go.Strings.{Bytes, text}

-- A method that a handler may offer: not blank, not NONE, and not NEGOTIATE without SSPI.
abbrev pub MayOffer : Bool → Bytes → Type 0
MayOffer no_sspi m = (m ≢ []) × (m ≢ text "NONE") × (no_sspi ≡ true → m ≢ text "NEGOTIATE")
