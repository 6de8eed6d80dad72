-- ===== src/Payment/Regular/Endless.antt =====
-- Where organizations hold shares in one another in a circle, a payment never ends.
use impact_wallet_server.Base.{
  ℕ, zero, suc, ◌*◌, ◌≤◌, ◌≡◌, refl, sym, ◌∙◌, Bool, true, false, Option, none, some, List, [], ◌∷◌,
  arith, ◌==◌, ==_iff, Bool-cases, Option-cases, inl, inr, All, Any, Any-append_left,
  Any-append_right,
}
use mathlib.Core.Path.{subst}
use impact_wallet_server.Base.Int.{ℤ, pos, negsuc, ◌-ℤ◌, ◌≤ℤ◌, int_laws, ge→ltb_ℤ}
use impact_wallet_server.Base.Round.{round_div-le}
use impact_wallet_server.Members.Schema.{Member}
use impact_wallet_server.Orgs.Schema.{Org}
use impact_wallet_server.Users.Schema.{User}
use impact_wallet_server.Payment.Split.{
  Payout, OrgPayout, SplitState, split_start, pay_holders, holders_of, holder_wallet, record_payout,
  populated_user, populated_org, profit_calculation_and_save, treasury_amount,
}
use impact_wallet_server.Payment.Split.Holders.{
  IsWithin, amount_due, pay_holder_lem, pay_holder-IsWithin, pay_holders-cons, pay_holders-IsWithin,
  split_start-IsWithin, pay_holders_keeps, min_nonneg,
}
use impact_wallet_server.Payment.Regular.Step.{
  amount_left, pays_members, early_world, paid_world, pay_members_lem, handle_regular_payment-suc,
  handle_regular_payment-suc-none, each_org-cons, each_org-cons_none,
}
use impact_wallet_server.Payment.Regular.{
  World, pay_members, each_org, handle_regular_payment, is_success, call_org_webhook,
}

-- With at most all for the treasury, what is left of a payment is not negative.
pays_of_part :
    (o : Org) (a : ℤ)
    → is_success o.mint_status ≡ true
    → o.settings.treasury ≤ 100000000
    → pos 0 ≤ℤ a
    → pays_members o a ≡ true
unfolding treasury_amount
pays_of_part o (pos p) done part lo =
    let le = round_div-le (p * o.settings.treasury) p 100000000 (omega arith) (grind arith) in
    rw
      (
        done,
        ge→ltb_ℤ (pos p -ℤ treasury_amount (pos p) o.settings.treasury) (pos 0)
            (omega (int_laws, le)),
      )
      refl
pays_of_part o (negsuc p) done part lo = absurd (omega arith)

-- `S` stands for a set of organizations, `token_balance` for the balances.
module _ (S : Org → Type 0) (token_balance : Option ℕ → Option ℕ → ℕ) where
  -- The member is no user but an organization of the set, and has a balance of the mint of `o`.
  abbrev pub HoldsFrom : List User → List Org → Org → Member → Type 0
  HoldsFrom users orgs o m =
      (m.org ≡ o.id)
      × (populated_user users m ≡ none)
      × ((o' : Org) × (populated_org orgs m ≡ some o') × S o')
      × ((token_balance o.mint (holder_wallet users orgs m) == 0) ≡ false)

  -- Each organization of the set can be paid, keeps no more than all for itself, and has a member of
  -- the set.
  abbrev pub IsCircle : List User → List Org → List Member → Type 0
  IsCircle users orgs ms =
      (o : Org)
      → S o
      → (is_success o.mint_status ≡ true)
        × (o.settings.treasury ≤ 100000000)
        × Any (HoldsFrom users orgs o) ms

  Any-profit_save :
      (users : List User) (orgs : List Org) (o : Org) (h : Member) (a : ℤ) (ms : List Member)
      → Any (HoldsFrom users orgs o) ms
      → Any (HoldsFrom users orgs o) (profit_calculation_and_save h a ms)
  unfolding profit_calculation_and_save holder_wallet
  Any-profit_save users orgs o h a [] n = absurd n
  Any-profit_save users orgs o h a (x ∷ ms) (inl p) = elim (Bool-cases (x.id == h.id)) [
    | inl same ↦ rw same (inl p)
    | inr other ↦ rw other (inl p)
  ]
  Any-profit_save users orgs o h a (x ∷ ms) (inr n) = elim (Bool-cases (x.id == h.id)) [
    | inl same ↦ rw same (inr n)
    | inr other ↦ rw other (inr (Any-profit_save users orgs o h a ms n))
  ]

  IsCircle-record_payout :
      (users : List User) (orgs : List Org) (h : Member) (a : ℤ) (s : SplitState)
      → IsCircle users orgs s.members
      → IsCircle users orgs (record_payout users orgs h a s).members
  unfolding record_payout
  IsCircle-record_payout users orgs h a s c = λ o so.
      let (done, part, member) = c o so in
      (done, part, Any-profit_save users orgs o h a s.members member)

  -- A payment to an organization of the set.
  abbrev IsOwed : OrgPayout → Type 0
  IsOwed p = S p.org_user × (pos 0 ≤ℤ p.amount)

  Any-holders :
      (users : List User) (orgs : List Org) (o : Org) (ms : List Member)
      → Any (HoldsFrom users orgs o) ms
      → Any (HoldsFrom users orgs o) (holders_of o.id ms)
  Any-holders users orgs o [] n = absurd n
  Any-holders users orgs o (m ∷ ms) (inl p) = rw ((==_iff m.org o.id).1 p.0) (inl p)
  Any-holders users orgs o (m ∷ ms) (inr n) = elim (Bool-cases (m.org == o.id)) [
    | inl same ↦ rw same (inr (Any-holders users orgs o ms n))
    | inr other ↦ rw other (Any-holders users orgs o ms n)
  ]

  -- The payment to such a holder is among the nested ones.
  record_payout-IsOwed :
      (users : List User) (orgs : List Org) (o : Org) (h : Member) (a : ℤ) (s : SplitState)
      → HoldsFrom users orgs o h
      → pos 0 ≤ℤ a
      → Any IsOwed (record_payout users orgs h a s).org_members
  unfolding record_payout
  record_payout-IsOwed users orgs o h a s (_, no_user, (o', is_org, so), _) lo =
      rw (no_user, is_org)
        (Any-append_right IsOwed s.org_members (record { org_user = o'; amount = a } ∷ [])
          (inl (so, lo)))

  module _ (users : List User) (orgs : List Org) where
    keeps_IsOwed :
        (h : Member) (a : ℤ) (s : SplitState)
        → Unit {0}
        → Any IsOwed s.org_members
        → Any IsOwed (record_payout users orgs h a s).org_members
    unfolding record_payout
    keeps_IsOwed h a s t n = Any-append_left IsOwed s.org_members _ n

    no_condition : (hs : List Member) → All (λ _. Unit {0}) hs
    no_condition [] = tt
    no_condition (h ∷ hs) = (tt, no_condition hs)

    pay_holders-IsOwed :
        (o : Org) (total : ℕ) (hs : List Member) (s s' : SplitState)
        → Any (HoldsFrom users orgs o) hs
        → IsWithin total s
        → pay_holders token_balance users orgs o.mint total hs s ≡ some s'
        → Any IsOwed s'.org_members
    pay_holders-IsOwed o total [] s s' n w e = absurd n
    pay_holders-IsOwed o total (h ∷ hs) s s' (inl p) w e =
        let a : ℤ = amount_due token_balance users orgs o.mint total h s in
        let lo : pos 0 ≤ℤ a =
          min_nonneg _ (pos total -ℤ s.accumulated) (omega (int_laws, w.within)) in
        let next : SplitState = record_payout users orgs h a s in
        pay_holders_keeps token_balance users orgs (λ t. Any IsOwed t.org_members) (λ _. Unit {0})
          keeps_IsOwed o.mint total hs next s' (no_condition hs)
          (record_payout-IsOwed users orgs o h a s p lo)
          (sym (
              pay_holders-cons token_balance users orgs o.mint total h hs s next
                (rw (pay_holder_lem token_balance users orgs o.mint total h s, p.3) refl))
            ∙ e)
    pay_holders-IsOwed o total (h ∷ hs) s s' (inr n) w e =
        let (s1, e1, w1) = pay_holder-IsWithin token_balance users orgs o.mint total h s w in
        pay_holders-IsOwed o total hs s1 s' n w1
          (sym (pay_holders-cons token_balance users orgs o.mint total h hs s s1 e1) ∙ e)

  abbrev pub HasCircle : World → Type 0
  HasCircle w = IsCircle w.users w.orgs w.members

  users-webhook : (o : Org) (w : World) → (call_org_webhook o w).users ≡ w.users
  users-webhook o w = ground arith

  orgs-webhook : (o : Org) (w : World) → (call_org_webhook o w).orgs ≡ w.orgs
  orgs-webhook o w = ground arith

  members-webhook : (o : Org) (w : World) → (call_org_webhook o w).members ≡ w.members
  members-webhook o w = ground arith

  HasCircle-webhook : (o : Org) (w : World) → HasCircle w → HasCircle (call_org_webhook o w)
  HasCircle-webhook o w c = rw (users-webhook o w, orgs-webhook o w, members-webhook o w) c

  HasCircle-early : (o : Org) (w : World) → HasCircle w → HasCircle (early_world o w)
  HasCircle-early o w c = elim (Bool-cases (is_success o.mint_status)) [
    | inl yes_mint ↦ rw yes_mint (HasCircle-webhook o w c)
    | inr no_mint ↦ rw no_mint c
  ]

  module _ (settles : ℕ → List Payout → Bool) where
    HasCircle-paid :
        (o : Org) (w : World) (s : SplitState)
        → IsCircle w.users w.orgs s.members
        → HasCircle (paid_world settles o w s)
    HasCircle-paid o w s c = rw (users-webhook o w, orgs-webhook o w) c

    -- What a payment to any organization does before the nested ones keeps the circle.
    HasCircle-pay_members :
        (o : Org) (payment : ℤ) (w w' : World) (ps : List OrgPayout)
        → HasCircle w
        → pay_members token_balance settles o payment w ≡ some (w', ps)
        → HasCircle w'
    HasCircle-pay_members o payment w w' ps c e =
        let total = amount_left o payment in
        let (s, paid, _) =
          pay_holders-IsWithin token_balance w.users w.orgs o.mint total (holders_of o.id w.members)
            (split_start w.members) (split_start-IsWithin total w.members) in
        let kept =
          pay_holders_keeps token_balance w.users w.orgs (λ t. IsCircle w.users w.orgs t.members)
            (λ _. Unit {0}) (λ h a t _ ct. IsCircle-record_payout w.users w.orgs h a t ct) o.mint
            total (holders_of o.id w.members) (split_start w.members) s
            (no_condition w.users w.orgs (holders_of o.id w.members)) c paid in
        let lem = pay_members_lem token_balance settles o payment w s paid in
        elim (Bool-cases (pays_members o payment)) [
          | inl full ↦
              let lem' = rw full at lem in
              let same : paid_world settles o w s ≡ w' = cc in
              subst HasCircle same (HasCircle-paid o w s kept)
          | inr early ↦
              let lem' = rw early at lem in
              let same : early_world o w ≡ w' = cc in subst HasCircle same (HasCircle-early o w c)
        ]

    -- A payment keeps the circle, if it ends.
    HasCircle-each_org :
        (handle : Org → ℤ → World → Option World)
        → ((o : Org) (a : ℤ) (w w' : World) → HasCircle w → handle o a w ≡ some w' → HasCircle w')
        → (ps : List OrgPayout) (w w' : World) → HasCircle w
        → each_org handle ps w ≡ some w'
        → HasCircle w'
    unfolding each_org
    HasCircle-each_org handle ih [] w w' c e = let same : w ≡ w' = cc in subst HasCircle same c
    HasCircle-each_org handle ih (p ∷ ps) w w' c e =
        elim (Option-cases (handle p.org_user p.amount w)) [
          | inl stuck ↦ let no_result = each_org-cons_none handle p ps w stuck in cc
          | inr (w1, e1) ↦
              HasCircle-each_org handle ih ps w1 w' (ih p.org_user p.amount w w1 c e1)
                (sym (each_org-cons handle p ps w w1 e1) ∙ e)
        ]

    HasCircle-handle :
        (f : ℕ) (o : Org) (a : ℤ) (w w' : World)
        → HasCircle w
        → handle_regular_payment token_balance settles f o a w ≡ some w'
        → HasCircle w'
    unfolding handle_regular_payment
    HasCircle-handle zero o a w w' c e = cc
    HasCircle-handle (suc f) o a w w' c e =
        elim (Option-cases (pay_members token_balance settles o a w)) [
          | inl stuck ↦
              let no_result = handle_regular_payment-suc-none token_balance settles f o a w stuck in
              cc
          | inr ((w1, ps), e1) ↦
              HasCircle-each_org (handle_regular_payment token_balance settles f)
                (HasCircle-handle f) ps w1 w' (HasCircle-pay_members o a w w1 ps c e1)
                (sym (handle_regular_payment-suc token_balance settles f o a w w1 ps e1) ∙ e)
        ]

    -- If every nested payment to the set never ends, then neither do payments that hold one.
    each_org-endless :
        (f : ℕ)
        → ((o : Org) (a : ℤ) (w : World)
            → S o
            → pos 0 ≤ℤ a
            → HasCircle w
            → handle_regular_payment token_balance settles f o a w ≡ none)
        → (ps : List OrgPayout) (w : World) → Any IsOwed ps
        → HasCircle w
        → each_org (handle_regular_payment token_balance settles f) ps w ≡ none
    each_org-endless f never [] w n c = absurd n
    each_org-endless f never (p ∷ ps) w (inl (so, lo)) c =
        each_org-cons_none (handle_regular_payment token_balance settles f) p ps w
          (never p.org_user p.amount w so lo c)
    each_org-endless f never (p ∷ ps) w (inr n) c =
        let handle = handle_regular_payment token_balance settles f in
        elim (Option-cases (handle p.org_user p.amount w)) [
          | inl stuck ↦ each_org-cons_none handle p ps w stuck
          | inr (w1, e1) ↦
              each_org-cons handle p ps w w1 e1
              ∙ each_org-endless f never ps w1 n (HasCircle-handle f p.org_user p.amount w w1 c e1)
        ]

    -- A payment to an organization of the circle reaches the nested payments.
    pay_members-IsOwed :
        (o : Org) (a : ℤ) (w : World)
        → S o
        → pos 0 ≤ℤ a
        → HasCircle w
        → (w' : World) × (ps : List OrgPayout) × (pay_members token_balance settles o a w
            ≡ some (w', ps))
          × Any IsOwed ps
          × HasCircle w'
    pay_members-IsOwed o a w so lo c =
        let total = amount_left o a in
        let (done, part, member) = c o so in
        let (s, paid, _) =
          pay_holders-IsWithin token_balance w.users w.orgs o.mint total (holders_of o.id w.members)
            (split_start w.members) (split_start-IsWithin total w.members) in
        let owed =
          pay_holders-IsOwed w.users w.orgs o total (holders_of o.id w.members)
            (split_start w.members) s (Any-holders w.users w.orgs o w.members member)
            (split_start-IsWithin total w.members) paid in
        let e =
          rw (pays_of_part o a done part lo) at
            (pay_members_lem token_balance settles o a w s paid) in
        (
          paid_world settles o w s,
          s.org_members,
          e,
          owed,
          HasCircle-pay_members o a w (paid_world settles o w s) s.org_members c e,
        )

    -- A payment to an organization that holds, directly or through others, a share in itself never
    -- ends: no depth of the nested calls is enough, whatever the amount.
    pub handle_regular_payment_endless :
        (f : ℕ) (o : Org) (a : ℤ) (w : World)
        → S o
        → pos 0 ≤ℤ a
        → HasCircle w
        → handle_regular_payment token_balance settles f o a w ≡ none
    unfolding handle_regular_payment
    handle_regular_payment_endless zero o a w so lo c = refl
    handle_regular_payment_endless (suc f) o a w so lo c =
        let (w', ps, e, owed, c') = pay_members-IsOwed o a w so lo c in
        handle_regular_payment-suc token_balance settles f o a w w' ps e
        ∙ each_org-endless f (handle_regular_payment_endless f) ps w' owed c'
