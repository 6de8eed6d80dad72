-- ===== src/Payment/Regular/Nested.antt =====
-- Where no organization holds, through others, a share in itself, a payment ends.
use impact_wallet_server.Base.{
  ℕ, zero, suc, ◌<◌, ◌≡◌, refl, ◌∙◌, Bool, Option, none, some, List, [], ◌∷◌, arith, ==_iff,
  Bool-cases, inl, inr, All, All-append, find, find_sound,
}
use impact_wallet_server.Base.Int.{ℤ}
use impact_wallet_server.Members.Schema.{Member}
use impact_wallet_server.Orgs.Schema.{Org}
use impact_wallet_server.Users.Schema.{User}
use impact_wallet_server.Payment.Split.{
  Payout, OrgPayout, SplitState, split_start, holders_of, record_payout, populated_user,
  populated_org, org_payouts, has_org_id, profit_calculation_and_save,
}
use impact_wallet_server.Payment.Split.Holders.{
  pay_holders-IsWithin, split_start-IsWithin, pay_holders_keeps,
}
use impact_wallet_server.Payment.Regular.Step.{
  amount_left, pays_members, early_world, paid_world, pay_members_lem, handle_regular_payment-suc,
}
use impact_wallet_server.Payment.Regular.{World, pay_members, each_org, handle_regular_payment}

-- A rank of the organizations that falls from an organization to those among its members.
abbrev pub IsBelow : (ℕ → ℕ) → ℕ → Option ℕ → Type 0
IsBelow rank org none = Unit
IsBelow rank org (some i) = rank i < rank org

abbrev pub IsRanked : (ℕ → ℕ) → List Member → Type 0
IsRanked rank ms = All (λ m. IsBelow rank m.org m.org_user) ms

module _ (rank : ℕ → ℕ) where
  IsRanked-profit_save :
      (h : Member) (a : ℤ) (ms : List Member)
      → IsRanked rank ms
      → IsRanked rank (profit_calculation_and_save h a ms)
  unfolding profit_calculation_and_save
  IsRanked-profit_save h a [] r = tt
  IsRanked-profit_save h a (x ∷ ms) r = ground (arith, IsRanked-profit_save h a ms r.1)

  IsRanked-holders :
      (i : ℕ) (ms : List Member)
      → IsRanked rank ms
      → All (λ m. IsBelow rank i m.org_user) (holders_of i ms)
  IsRanked-holders i [] r = tt
  IsRanked-holders i (m ∷ ms) r = ground (arith, IsRanked-holders i ms r.1)

  found-below :
      (orgs : List Org) (i : ℕ) (x : Option ℕ) (o : Org)
      → IsBelow rank i x
      → (elim x [ none ↦ none | some j ↦ find (has_org_id j) orgs ]) ≡ some o
      → rank o.id < rank i
  found-below orgs i none o b e = cc
  found-below orgs i (some j) o b e =
      let same : o.id ≡ j = (==_iff o.id j).0 (find_sound (has_org_id j) orgs e) in rw same b

  org_payouts-below_of :
      (u : Option User) (o : Option Org) (i : ℕ) (a : ℤ)
      → ((x : Org) → o ≡ some x → rank x.id < rank i)
      → All (λ (p : OrgPayout). rank p.org_user.id < rank i) (org_payouts u o a)
  org_payouts-below_of none none i a b = tt
  org_payouts-below_of none (some o) i a b = (b o refl, tt)
  org_payouts-below_of (some u) o i a b = tt

  early-IsRanked :
      (org : Org) (w : World) → IsRanked rank w.members → IsRanked rank (early_world org w).members
  early-IsRanked org w r = ground arith

  -- What holds in the loop: the ranks, and the organizations paid rank below `i`.
  abbrev IsBelowState : ℕ → SplitState → Type 0
  IsBelowState i s =
      IsRanked rank s.members × All (λ (p : OrgPayout). rank p.org_user.id < rank i) s.org_members

  record_payout-below :
      (users : List User) (orgs : List Org) (i : ℕ) (h : Member) (a : ℤ) (s : SplitState)
      → IsBelow rank i h.org_user
      → IsBelowState i s
      → IsBelowState i (record_payout users orgs h a s)
  unfolding record_payout
  record_payout-below users orgs i h a s b p = (
    IsRanked-profit_save h a s.members p.0,
    All-append _ s.org_members (org_payouts (populated_user users h) (populated_org orgs h) a) p.1 (
        org_payouts-below_of (populated_user users h) (populated_org orgs h) i a
          (λ x e. found-below orgs i h.org_user x b e)),
  )

  module _ (token_balance : Option ℕ → Option ℕ → ℕ) (settles : ℕ → List Payout → Bool) where
    -- The part of a payment before the nested ones succeeds and keeps the ranks.
    pay_members-below :
        (org : Org) (payment : ℤ) (w : World)
        → IsRanked rank w.members
        → (w' : World) × (ps : List OrgPayout) × (pay_members token_balance settles org payment w
            ≡ some (w', ps))
          × IsRanked rank w'.members
          × All (λ (p : OrgPayout). rank p.org_user.id < rank org.id) ps
    pay_members-below org payment w r =
        let total = amount_left org payment in
        let (s, paid, _) =
          pay_holders-IsWithin token_balance w.users w.orgs org.mint total
            (holders_of org.id w.members) (split_start w.members)
            (split_start-IsWithin total w.members) in
        let below =
          pay_holders_keeps token_balance w.users w.orgs (IsBelowState org.id)
            (λ m. IsBelow rank org.id m.org_user) (record_payout-below w.users w.orgs org.id)
            org.mint total (holders_of org.id w.members) (split_start w.members) s
            (IsRanked-holders org.id w.members r) (r, tt) paid in
        let e = pay_members_lem token_balance settles org payment w s paid in
        elim (Bool-cases (pays_members org payment)) [
          | inr early ↦ (early_world org w, [], rw early at e, early-IsRanked org w r, tt)
          | inl full ↦ (paid_world settles org w s, s.org_members, rw full at e, below.0, below.1)
        ]

    -- A run of the nested payments succeeds if each of them does.
    each_org-IsRanked :
        (handle : Org → ℤ → World → Option World) (n : ℕ)
        → ((o : Org) (a : ℤ) (w : World)
            → rank o.id < n
            → IsRanked rank w.members
            → (w' : World) × (handle o a w ≡ some w') × IsRanked rank w'.members)
        → (ps : List OrgPayout) (w : World) → All (λ (p : OrgPayout). rank p.org_user.id < n) ps
        → IsRanked rank w.members
        → (w' : World) × (each_org handle ps w ≡ some w') × IsRanked rank w'.members
    unfolding each_org
    each_org-IsRanked handle n ih [] w below r = (w, refl, r)
    each_org-IsRanked handle n ih (p ∷ ps) w below r =
        let (w', e, r') = ih p.org_user p.amount w below.0 r in
        let (w'', e', r'') = each_org-IsRanked handle n ih ps w' below.1 r' in
        (w'', ground arith, r'')

    -- If the holders that are organizations rank below the organization whose token they hold, then
    -- a payment ends, with fuel for one call more than the organization's rank.
    pub handle_regular_payment_ends :
        (f : ℕ) (org : Org) (payment : ℤ) (w : World)
        → rank org.id < f
        → IsRanked rank w.members
        → (w' : World) × (handle_regular_payment token_balance settles f org payment w ≡ some w')
          × IsRanked rank w'.members
    unfolding handle_regular_payment
    handle_regular_payment_ends zero org payment w h r = elim h [ ]
    handle_regular_payment_ends (suc f) org payment w h r =
        let (w', ps, e, r', below) = pay_members-below org payment w r in
        let (w'', e', r'') =
          each_org-IsRanked (handle_regular_payment token_balance settles f) (rank org.id)
            (λ o a u lt ru. handle_regular_payment_ends f o a u (omega arith) ru) ps w' below r' in
        (w'', handle_regular_payment-suc token_balance settles f org payment w w' ps e ∙ e', r'')
