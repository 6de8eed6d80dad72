-- ===== src/Offers/Lite/Accept/Machine.antt =====
-- An offer as a state machine: what an observer of the offers' statuses sees of `updateOfferStatus`.
use mathlib.Core.Path.{subst}
use mathlib.Core.Option.{some-injective}
use impact_wallet_server.Base.{
  ℕ, ◌≡◌, refl, sym, ap, ◌∙◌, ◌⊎◌, inl, inr, Bool, true, false, Option, none, some, List, [], ◌∷◌,
  ◌==◌, if◌then◌else◌, find, update_first, if_cases, Bool-cases, All, leb, arith, ==_iff,
}
use impact_wallet_server.Offers.Schema.{
  Offer, OfferStatus, OfferInvestorSettings, Store, pending, approved, declined,
}
use impact_wallet_server.Offers.Status.{is_offer, is_pending, save_offer}
use impact_wallet_server.Offers.Lite.Invest.{funded_status}

-- The steps that the status of an offer may take.
pub data StatusStep : OfferStatus → OfferStatus → Type 0 where
  stays : {st : OfferStatus} → StatusStep st st
  approves : StatusStep pending approved
  declines : StatusStep pending declined

-- The statuses by the offers' ids.
abbrev pub status_of : ℕ → List Offer → Option OfferStatus
status_of i [] = none
status_of i (o ∷ os) = if o.id == i then some o.status else status_of i os

-- What a request to update the offer i may do to the statuses.
pub data MachineStep (i : ℕ) : (ℕ → Option OfferStatus) → (ℕ → Option OfferStatus) → Type 0 where
  step :
      {before after : ℕ → Option OfferStatus} {st st' : OfferStatus}
      → before i ≡ some st
      → StatusStep st st'
      → ((j : ℕ) → after j ≡ (if j == i then some st' else before j))
      → MachineStep i before after
  skip :
      {before after : ℕ → Option OfferStatus}
      → ((j : ℕ) → after j ≡ before j)
      → MachineStep i before after

-- The saved offer has replaced that of its id.
save_offer_here :
    (o' : Offer) (os : List Offer) {st : OfferStatus}
    → status_of o'.id os ≡ some st
    → status_of o'.id (update_first (λ x. x.id == o'.id) (λ x. o') os) ≡ some o'.status
save_offer_here o' [] h = cc
save_offer_here o' (x ∷ os) {st} h = ground (arith, save_offer_here o' os {st = st})

save_offer_elsewhere :
    (o' : Offer) (os : List Offer) (j : ℕ)
    → (j == o'.id) ≡ false
    → status_of j (update_first (λ x. x.id == o'.id) (λ x. o') os) ≡ status_of j os
save_offer_elsewhere o' [] j h = refl
save_offer_elsewhere o' (x ∷ os) j h = ground (arith, save_offer_elsewhere o' os j)

abbrev HasOtherId : ℕ → Offer → Type 0
HasOtherId i o = (o.id == i) ≡ false

-- No two offers have the same id.
abbrev pub HasDistinctIds : List Offer → Type 0
HasDistinctIds [] = Unit
HasDistinctIds (o ∷ os) = All (HasOtherId o.id) os × HasDistinctIds os

find_other_id :
    (p : Offer → Bool) (i : ℕ) (os : List Offer) {o : Offer}
    → All (HasOtherId i) os
    → find p os ≡ some o
    → HasOtherId i o
find_other_id p i [] h e = cc
find_other_id p i (x ∷ os) {o} (h, hs) e = elim (if_cases (p x) _ _ e) [
  | inl (c, e') ↦ subst (HasOtherId i) (some-injective x o e') h
  | inr (c, e') ↦ find_other_id p i os hs e'
]

pub status_of-found :
    (org_id i : ℕ) (os : List Offer) {o : Offer}
    → HasDistinctIds os
    → find (is_offer org_id i) os ≡ some o
    → (o.id ≡ i) × (status_of i os ≡ some o.status)
status_of-found org_id i [] d e = cc
status_of-found org_id i (x ∷ os) {o} (h, d) e = elim (if_cases (is_offer org_id i x) _ _ e) [
  | inl (c, e') ↦
      subst (λ o. (o.id ≡ i) × (status_of i (x ∷ os) ≡ some o.status)) (some-injective x o e')
        (ground (arith, c), ground (arith, c))
  | inr (c, e') ↦
      let (same, found) = status_of-found org_id i os d e' in
      let other = find_other_id (is_offer org_id i) x.id os h e' in
      (same, ground (arith, same, found, other))
]

All-update_first :
    (i : ℕ) (o' : Offer) (os : List Offer)
    → All (HasOtherId i) os
    → All (HasOtherId i) (update_first (λ x. x.id == o'.id) (λ x. o') os)
All-update_first i o' [] h = tt
All-update_first i o' (x ∷ os) (h, hs) = elim (Bool-cases (x.id == o'.id)) [
  | inl c ↦ rw c (ground (arith, h, c), hs)
  | inr c ↦ rw c (h, All-update_first i o' os hs)
]

save_offer-HasDistinctIds :
    (o' : Offer) (os : List Offer)
    → HasDistinctIds os
    → HasDistinctIds (update_first (λ x. x.id == o'.id) (λ x. o') os)
save_offer-HasDistinctIds o' [] d = tt
save_offer-HasDistinctIds o' (x ∷ os) (h, d) = elim (Bool-cases (x.id == o'.id)) [
  | inl c ↦ rw c (subst (λ i. All (HasOtherId i) os) ((==_iff x.id o'.id).0 c) h, d)
  | inr c ↦ rw c (All-update_first x.id o' os h, save_offer-HasDistinctIds o' os d)
]

-- The statuses that a store shows.
abbrev pub statuses : Store → ℕ → Option OfferStatus
statuses s i = status_of i s.offers

-- What the operations on the pending offer o do to the offers.
abbrev pub Update : Offer → Store → Store → Type 0
Update o s s' =
    (s'.offers ≡ s.offers)
    ⊎ ((o' : Offer) × (o'.id ≡ o.id)
        × StatusStep o.status o'.status
        × (s'.offers ≡ (save_offer o' s).offers))

pub funded-StatusStep :
    (settings : OfferInvestorSettings) (n : ℕ) (st : OfferStatus)
    → is_pending st ≡ true
    → StatusStep st (funded_status settings n st)
funded-StatusStep settings n pending h = elim (Bool-cases (leb settings.amount n)) [
  | inl c ↦ rw c approves
  | inr c ↦ rw c stays
]
funded-StatusStep settings n approved h = cc
funded-StatusStep settings n declined h = cc

pub declined-StatusStep : (st : OfferStatus) → is_pending st ≡ true → StatusStep st declined
declined-StatusStep pending h = declines
declined-StatusStep approved h = cc
declined-StatusStep declined h = cc

pub approved-StatusStep : (st : OfferStatus) → is_pending st ≡ true → StatusStep st approved
approved-StatusStep pending h = approves
approved-StatusStep approved h = cc
approved-StatusStep declined h = cc

StatusStep-decided : {st st' : OfferStatus} → is_pending st ≡ false → StatusStep st st' → st' ≡ st
StatusStep-decided h stays = refl
StatusStep-decided h approves = cc
StatusStep-decided h declines = cc

pub MachineStep-decided :
    (i j : ℕ) {f g : ℕ → Option OfferStatus} {st : OfferStatus}
    → f j ≡ some st
    → is_pending st ≡ false
    → MachineStep i f g
    → g j ≡ some st
MachineStep-decided i j h n (skip k) = k j ∙ h
MachineStep-decided i j {f} {g} {st} h n (step {st = a} {st' = b} before s after) =
    elim (Bool-cases (j == i)) [
      | inr c ↦ after j ∙ rw c h
      | inl c ↦
          let same = (==_iff j i).0 c in
          let eq : a ≡ st = some-injective a st (sym before ∙ ap f (sym same) ∙ h) in
          after j ∙ rw c (ap some (StatusStep-decided (ap is_pending eq ∙ n) s ∙ eq))
    ]

pub unchanged :
    (i : ℕ) (s s' : Store)
    → HasDistinctIds s.offers
    → s ≡ s'
    → MachineStep i (statuses s) (statuses s') × HasDistinctIds s'.offers
unchanged i s s' d k =
    subst (λ s'. MachineStep i (statuses s) (statuses s') × HasDistinctIds s'.offers) k
      (skip (λ j. refl), d)

pub Update-MachineStep :
    (i : ℕ) (o : Offer) (s s' : Store)
    → o.id ≡ i
    → statuses s i ≡ some o.status
    → HasDistinctIds s.offers
    → Update o s s'
    → MachineStep i (statuses s) (statuses s') × HasDistinctIds s'.offers
Update-MachineStep i o s s' same found d (inl k) =
    (skip (λ j. ap (status_of j) k), subst HasDistinctIds (sym k) d)
Update-MachineStep i o s s' same found d (inr (o', same', st, k)) =
    let here : o'.id ≡ i = same' ∙ same in
    let before : status_of o'.id s.offers ≡ some o.status = rw here found in
    (
      step found st (λ j. ap (status_of j) k ∙ elim (Bool-cases (j == i)) [
        | inl c ↦
            let at : j ≡ i = (==_iff j i).0 c in
            rw c (
              subst (λ n. status_of n (save_offer o' s).offers ≡ some o'.status) (here ∙ sym at)
                (save_offer_here o' s.offers before))
        | inr c ↦ rw c (save_offer_elsewhere o' s.offers j (rw here c))
      ]),
      subst HasDistinctIds (sym k) (save_offer-HasDistinctIds o' s.offers d),
    )
