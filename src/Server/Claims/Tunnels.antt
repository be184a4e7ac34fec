-- ===== src/Server/Claims/Tunnels.antt =====
-- What a claim that stands does to the labels of other accounts, src/chute/server.py.
use chute.Prelude.{ℕ, none, some, false, ◌≡◌, ◌≢◌, inl, inr, Option-cases, arith}
use chute.Prelude.Text.{Text, text_eq, text_beq_iff}
use chute.Server.State.{Relay, Registration, AuthResult, registration_at}
use chute.Server.Registry.{install_registration, held_by}
use chute.Server.Registry.Coherent.{holds, is_of}
use chute.Server.Registry.Changes.{holds-install_registration}
use chute.Server.Claims.{authorize_claim, is_taken}

not_taken_lem :
    (account other label : Text) (relay : Relay)
    → is_taken account label relay ≡ false
    → other ≢ account
    → holds other label relay ≡ false
unfolding is_taken holds is_of
not_taken_lem account other label relay h k =
    elim (Option-cases (held_by label relay.agents relay)) [
      | inl e ↦ ground arith
      | inr (held, e) ↦
          ground (arith, text_beq_iff held.account_id account, text_beq_iff held.account_id other)
    ]

-- Installing a registration of the account whose claim stands takes no label from another account
-- and gives none to it.
pub holds-authorize_claim :
    (auth : AuthResult) (label l other : Text) (r : ℕ) (registration : Registration) (relay : Relay)
    → authorize_claim auth label relay ≡ none
    → registration_at r relay ≡ some registration
    → registration.account_id ≡ auth.account_id
    → other ≢ auth.account_id
    → holds other l (install_registration label r registration relay) ≡ holds other l relay
unfolding authorize_claim
holds-authorize_claim auth label l other r registration relay h e same k = ground (
  arith,
  holds-install_registration label l other r registration relay e,
  text_beq_iff label l,
  text_beq_iff registration.account_id other,
  not_taken_lem auth.account_id other label relay,
)
