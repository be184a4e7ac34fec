-- ===== src/Server/Claims/Limit.antt =====
-- How many tunnels an account may have, src/chute/server.py: the limit of a claim that stands,
-- against the registrations that hold labels and those that are pending.
use chute.Prelude.{
  ℕ, List, Bool, none, true, false, [], ◌∷◌, ◌≡◌, ◌≤◌, ◌+◌, ◌||◌, ◌&&◌, inl, inr, ◌⊎◌, get_elem?,
  Bool-cases, arith, length, All, ◌∙◌, sym,
}
use chute.Prelude.Text.{Text, text_eq, text_beq, text_beq_iff}
use chute.Prelude.Dict.{put}
use chute.Server.State.{Relay, Registration, AuthResult, registration_at}
use chute.Server.Registry.{mem, add, discard_label, hold_pending, labels_of, held_by}
use chute.Server.Registry.Sets.{listed, mem-add, mem-discard_label}
use chute.Server.Registry.Coherent.{IsCoherent, holds, is_of}
use chute.Server.Claims.{authorize_claim, owned_labels, add_pending}
use chute.Server.Registry.Changes.{is_pending_for_lem}

-- Whether a pending registration of the account waits for the label.
unfoldable pub pending_in : List Registration → Text → Text → List (Text × ℕ) → Bool
pending_in registrations account label [] = false
pending_in registrations account label ((l, r) ∷ pending) =
    (text_beq l label && is_of account (get_elem? registrations r))
    || pending_in registrations account label pending

-- Whether a registration of the account holds the label, or a pending one waits for it.
unfoldable pub owns : Text → Text → Relay → Bool
owns account label relay =
    holds account label relay || pending_in relay.registrations account label relay.pending_agents

abbrev pub AreOwned : Text → Relay → List Text → Type 0
AreOwned account relay = All (λ label. owns account label relay ≡ true)

abbrev pub AreDistinct : List Text → Type 0
AreDistinct [] = Unit
AreDistinct (x ∷ xs) = (mem x xs ≡ false) × AreDistinct xs

mem-add_pending :
    (relay : Relay) (account x : Text) (pending : List (Text × ℕ)) (owned : List Text)
    → mem x (add_pending relay account pending owned)
      ≡ (mem x owned || pending_in relay.registrations account x pending)
unfolding add_pending pending_in
mem-add_pending relay account x [] owned = ground arith
mem-add_pending relay account x ((l, r) ∷ pending) owned = ground (
  arith,
  mem-add_pending relay account x pending owned,
  mem-add_pending relay account x pending (add l owned),
  mem-add x l owned,
  is_pending_for_lem relay account l r,
)

mem-owned_labels :
    (relay : Relay) (account x : Text)
    → IsCoherent relay
    → mem x (owned_labels account relay) ≡ owns account x relay
unfolding owned_labels owns listed
mem-owned_labels relay account x coherent = ground (
  arith,
  mem-add_pending relay account x relay.pending_agents (labels_of account relay.account_labels),
  coherent account x,
)

length-discard_label :
    (x : Text) (xs : List Text)
    → (length (discard_label x xs) ≤ length xs)
      × (mem x xs ≡ true → length (discard_label x xs) + 1 ≤ length xs)
unfolding discard_label mem
length-discard_label x [] = (omega arith, λ e. ground (arith, e))
length-discard_label x (y ∷ xs) =
    let ih = length-discard_label x xs in
    (ground (arith, ih.0, text_beq_iff y x), λ e. ground (arith, e, ih.0, ih.1, text_beq_iff y x))

-- Distinct labels of a list are no more than the list's.
length-AreDistinct :
    (xs ys : List Text)
    → AreDistinct xs
    → ((l : Text) → mem l xs ≡ true → mem l ys ≡ true)
    → length xs ≤ length ys
unfolding mem
length-AreDistinct [] ys d sub = omega arith
length-AreDistinct (x ∷ xs) ys d sub =
    let ih =
      length-AreDistinct xs (discard_label x ys) d.1
        (λ l m. ground (arith, m, d.0, sub l, mem-discard_label l x ys, text_beq_iff x l)) in
    let here : mem x ys ≡ true = sub x (ground (arith, text_beq_iff x x)) in
    omega (arith, ih, (length-discard_label x ys).1 here)

mem-AreOwned :
    (account l : Text) (relay : Relay) (xs : List Text)
    → AreOwned account relay xs
    → mem l xs ≡ true
    → owns account l relay ≡ true
unfolding mem
mem-AreOwned account l relay [] all m = cc
mem-AreOwned account l relay (x ∷ xs) all m = elim (Bool-cases (text_beq x l)) [
  | inl e ↦ ground (arith, all.0, e, text_beq_iff x l)
  | inr e ↦ mem-AreOwned account l relay xs all.1 (ground (arith, m, e))
]

-- Distinct labels that the account owns are no more than the code counts.
pub length-owned_labels :
    (account : Text) (relay : Relay) (xs : List Text)
    → IsCoherent relay
    → AreDistinct xs
    → AreOwned account relay xs
    → length xs ≤ length (owned_labels account relay)
length-owned_labels account relay xs coherent d all =
    length-AreDistinct xs (owned_labels account relay) d
      (λ l m. mem-owned_labels relay account l coherent ∙ mem-AreOwned account l relay xs all m)

pending_in-put :
    (registrations : List Registration) (account x label : Text) (r : ℕ) (pending : List (Text × ℕ))
    → pending_in registrations account x (put label r pending) ≡ true
    → (text_beq label x || pending_in registrations account x pending) ≡ true
unfolding pending_in put
pending_in-put registrations account x label r [] h = ground (arith, h)
pending_in-put registrations account x label r ((l, q) ∷ pending) h =
    ground (arith, h, pending_in-put registrations account x label r pending, text_beq_iff l label)

-- A registration that becomes pending adds its label alone.
owns-hold_pending :
    (account x label : Text) (r : ℕ) (registration : Registration) (relay : Relay)
    → owns account x (hold_pending label r registration relay) ≡ true
    → (text_beq label x || owns account x relay) ≡ true
unfolding owns hold_pending holds held_by registration_at
owns-hold_pending account x label r registration relay h =
    ground (arith, h, pending_in-put relay.registrations account x label r relay.pending_agents)

owned_after :
    (account label : Text) (r : ℕ) (registration : Registration) (relay : Relay) (xs : List Text)
    → owns account label relay ≡ true
    → AreOwned account (hold_pending label r registration relay) xs
    → AreOwned account relay xs
owned_after account label r registration relay [] o all = tt
owned_after account label r registration relay (x ∷ xs) o all =
    let here : owns account x relay ≡ true = ground (
      arith,
      o,
      owns-hold_pending account x label r registration relay all.0,
      text_beq_iff label x,
    ) in
    (here, owned_after account label r registration relay xs o all.1)

mem_after :
    (account label x : Text) (r : ℕ) (registration : Registration) (relay : Relay) (xs : List Text)
    → IsCoherent relay
    → AreOwned account (hold_pending label r registration relay) xs
    → mem x xs ≡ true
    → mem x (label ∷ owned_labels account relay) ≡ true
unfolding mem
mem_after account label x r registration relay xs coherent all m =
    let o = mem-AreOwned account x (hold_pending label r registration relay) xs all m in
    ground (
      arith,
      owns-hold_pending account x label r registration relay o,
      mem-owned_labels relay account x coherent,
    )

claim_cases :
    (auth : AuthResult) (label : Text) (relay : Relay)
    → authorize_claim auth label relay ≡ none
    → (mem label (owned_labels auth.account_id relay) ≡ true)
      ⊎ (length (owned_labels auth.account_id relay) + 1 ≤ auth.max_tunnels)
unfolding authorize_claim
claim_cases auth label relay h = ground (arith, h)

-- A claim that stands and becomes pending takes its account past no limit: over an exact account
-- index, if the account had no more distinct labels than max_tunnels, held by its registrations or
-- awaited by its pending ones, then it has no more with the new pending registration, whichever it
-- is.
pub authorize_claim_bound :
    (auth : AuthResult) (label : Text) (r : ℕ) (registration : Registration) (relay : Relay)
    (owned : List Text)
    → IsCoherent relay
    → authorize_claim auth label relay ≡ none
    → ((before : List Text)
        → AreDistinct before
        → AreOwned auth.account_id relay before
        → length before ≤ auth.max_tunnels)
    → AreDistinct owned
    → AreOwned auth.account_id (hold_pending label r registration relay) owned
    → length owned ≤ auth.max_tunnels
authorize_claim_bound auth label r registration relay owned coherent h bound distinct all =
    elim (claim_cases auth label relay h) [
      | inl e ↦
          let o : owns auth.account_id label relay ≡ true =
            sym (mem-owned_labels relay auth.account_id label coherent) ∙ e in
          bound owned distinct (owned_after auth.account_id label r registration relay owned o all)
      | inr room ↦
          let few =
            length-AreDistinct owned (label ∷ owned_labels auth.account_id relay) distinct (λ x m.
              mem_after auth.account_id label x r registration relay owned coherent all m) in
          omega (arith, few, room)
    ]
