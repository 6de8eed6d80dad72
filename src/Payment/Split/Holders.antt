-- ===== src/Payment/Split/Holders.antt =====
-- What the loop over the holders pays, whatever the balances are.
use impact_wallet_server.Base.{
  ℕ, ◌≡◌, refl, sym, ap, ◌∙◌, Option, some, List, [], ◌∷◌, ◌++◌, arith, ◌==◌, if◌then◌else◌,
  Bool-cases, inl, inr, ◌⊎◌, ◌<◌, ◌*◌, ==_iff, false, All, All-append,
}
use mathlib.Core.Path.{subst}
use mathlib.Core.List.{append_assoc, append-nil}
use impact_wallet_server.Base.Int.{
  ℤ, pos, ◌+ℤ◌, ◌-ℤ◌, ◌≤ℤ◌, min_ℤ, min_ℤ_left, int_laws, sum_by, sum_by-append, +ℤ-zero,
}
use impact_wallet_server.Base.Round.{IsNear, IsNear-round_div}
use impact_wallet_server.Members.Schema.{Member}
use impact_wallet_server.Orgs.Schema.{Org}
use impact_wallet_server.Users.Schema.{User}
use impact_wallet_server.Payment.Split.{
  Payout, SplitState, split_start, share, record_payout, pay_holder, pay_holders, holder_wallet,
}
use impact_wallet_server.Payment.Split.Amounts.{normalize_amount-eq-min}

abbrev pub payout_amount : Payout → ℤ
payout_amount p = p.amount

-- The payments so far: none is negative, and together they are within the amount to split.
pub record IsWithin (total : ℕ) (s : SplitState) : Type 0 where
  pub counted : s.accumulated ≡ sum_by payout_amount s.members_with_amount
  pub within : s.accumulated ≤ℤ pos total
  pub nonneg : pos 0 ≤ℤ s.accumulated
  pub each : All (λ p. pos 0 ≤ℤ p.amount) s.members_with_amount

pub split_start-IsWithin : (total : ℕ) (ms : List Member) → IsWithin total (split_start ms)
split_start-IsWithin total ms = ground arith

pub min_nonneg : (a : ℕ) (b : ℤ) → pos 0 ≤ℤ b → pos 0 ≤ℤ min_ℤ (pos a) b
min_nonneg a b h = ground arith

pub min_le : (a : ℕ) (b : ℤ) → min_ℤ (pos a) b ≤ℤ b
min_le a b = ground arith

module _ (token_balance : Option ℕ → Option ℕ → ℕ) (users : List User) (orgs : List Org) where
  -- What a holder is paid at some point of the loop.
  abbrev pub amount_due : Option ℕ → ℕ → Member → SplitState → ℤ
  amount_due mint total h s =
      min_ℤ (pos (share total (token_balance mint (holder_wallet users orgs h))))
        (pos total -ℤ s.accumulated)

  pub pay_holder_lem :
      (mint : Option ℕ) (total : ℕ) (h : Member) (s : SplitState)
      → pay_holder token_balance users orgs mint total h s
        ≡ some (
            if token_balance mint (holder_wallet users orgs h) == 0
            then s
            else record_payout users orgs h (amount_due mint total h s) s)
  unfolding pay_holder
  pay_holder_lem mint total h s = ground (
    arith,
    normalize_amount-eq-min (pos (share total (token_balance mint (holder_wallet users orgs h))))
        (pos total) s.accumulated,
  )

  pub record_payout-IsWithin :
      (total : ℕ) (h : Member) (a : ℤ) (s : SplitState)
      → IsWithin total s
      → pos 0 ≤ℤ a
      → a ≤ℤ pos total -ℤ s.accumulated
      → IsWithin total (record_payout users orgs h a s)
  unfolding record_payout
  record_payout-IsWithin total h a s w lo hi =
      let p : Payout = record { member = h.id; wallet = holder_wallet users orgs h; amount = a } in
      record {
        counted =
            rw (sum_by-append payout_amount s.members_with_amount (p ∷ []), w.counted)
              (ap (λ t. sum_by payout_amount s.members_with_amount +ℤ t) (sym (+ℤ-zero a)));
        within = omega (int_laws, w.within);
        nonneg = omega (int_laws, w.nonneg);
        each = All-append _ s.members_with_amount (p ∷ []) w.each (lo, tt);
      }

  pub pay_holder-IsWithin :
      (mint : Option ℕ) (total : ℕ) (h : Member) (s : SplitState)
      → IsWithin total s
      → (s' : SplitState) × (pay_holder token_balance users orgs mint total h s ≡ some s')
        × IsWithin total s'
  pay_holder-IsWithin mint total h s w =
      elim (Bool-cases (token_balance mint (holder_wallet users orgs h) == 0)) [
        | inl zero_balance ↦ (s, rw (pay_holder_lem mint total h s, zero_balance), w)
        | inr positive ↦ (
          record_payout users orgs h (amount_due mint total h s) s,
          rw (pay_holder_lem mint total h s, positive),
          record_payout-IsWithin total h (amount_due mint total h s) s w
              (min_nonneg (share total (token_balance mint (holder_wallet users orgs h)))
                (pos total -ℤ s.accumulated) (omega (int_laws, w.within)))
              (min_le (share total (token_balance mint (holder_wallet users orgs h)))
                (pos total -ℤ s.accumulated)),
        )
      ]

  pub pay_holders-cons :
      (mint : Option ℕ) (total : ℕ) (h : Member) (hs : List Member) (s s' : SplitState)
      → pay_holder token_balance users orgs mint total h s ≡ some s'
      → pay_holders token_balance users orgs mint total (h ∷ hs) s
        ≡ pay_holders token_balance users orgs mint total hs s'
  unfolding pay_holders
  pay_holders-cons mint total h hs s s' e = ground arith

  pub pay_holders-IsWithin :
      (mint : Option ℕ) (total : ℕ) (hs : List Member) (s : SplitState)
      → IsWithin total s
      → (s' : SplitState) × (pay_holders token_balance users orgs mint total hs s ≡ some s')
        × IsWithin total s'
  unfolding pay_holders
  pay_holders-IsWithin mint total [] s w = (s, refl, w)
  pay_holders-IsWithin mint total (h ∷ hs) s w =
      let (s', paid, w') = pay_holder-IsWithin mint total h s w in
      let (s'', rest, w'') = pay_holders-IsWithin mint total hs s' w' in
      (s'', pay_holders-cons mint total h hs s s' paid ∙ rest, w'')

  -- The split of a payment ends with a list of payments: none is negative, and their sum is not more
  -- than the amount to split, whatever the holders' balances are.
  pub split_conserves :
      (mint : Option ℕ) (total : ℕ) (holders : List Member) (ms : List Member)
      → (s : SplitState) × (pay_holders token_balance users orgs mint total holders (split_start ms)
          ≡ some s)
        × All (λ p. pos 0 ≤ℤ p.amount) s.members_with_amount
        × (sum_by payout_amount s.members_with_amount ≤ℤ pos total)
  split_conserves mint total holders ms =
      let (s, paid, w) =
        pay_holders-IsWithin mint total holders (split_start ms) (split_start-IsWithin total ms) in
      (s, paid, w.each, rw (← w.counted) w.within)

  -- Every holder with a balance, with its whole rounded share.
  abbrev pub due : Option ℕ → ℕ → List Member → List Payout
  due mint total [] = []
  due mint total (h ∷ hs) =
      let wallet = holder_wallet users orgs h in
      let equity = token_balance mint wallet in
      if equity == 0
      then due mint total hs
      else record { member = h.id; wallet = wallet; amount = pos (share total equity) }
        ∷ due mint total hs

  due_nonneg :
      (mint : Option ℕ) (total : ℕ) (hs : List Member)
      → pos 0 ≤ℤ sum_by payout_amount (due mint total hs)
  due_nonneg mint total [] = omega arith
  due_nonneg mint total (h ∷ hs) =
      elim (Bool-cases (token_balance mint (holder_wallet users orgs h) == 0)) [
        | inl zero_balance ↦ rw zero_balance (due_nonneg mint total hs)
        | inr positive ↦ rw positive (omega (int_laws, due_nonneg mint total hs))
      ]

  abbrev pub full_share : Option ℕ → ℕ → Member → ℤ
  full_share mint total h = pos (share total (token_balance mint (holder_wallet users orgs h)))

  pay_holder_full :
      (mint : Option ℕ) (total : ℕ) (h : Member) (s : SplitState)
      → (token_balance mint (holder_wallet users orgs h) == 0) ≡ false
      → s.accumulated +ℤ full_share mint total h ≤ℤ pos total
      → pay_holder token_balance users orgs mint total h s
        ≡ some (record_payout users orgs h (full_share mint total h) s)
  pay_holder_full mint total h s e room =
      rw
        (
          pay_holder_lem mint total h s,
          e,
          min_ℤ_left (full_share mint total h) (pos total -ℤ s.accumulated) (omega int_laws),
        )
        refl

  due-cons :
      (mint : Option ℕ) (total : ℕ) (h : Member) (hs : List Member)
      → (token_balance mint (holder_wallet users orgs h) == 0) ≡ false
      → due mint total (h ∷ hs)
        ≡ record {
          member = h.id;
          wallet = holder_wallet users orgs h;
          amount = full_share mint total h;
        }
          ∷ due mint total hs
  due-cons mint total h hs e = ground arith

  -- The holders from some point on get their whole shares, if these fit.
  pay_holders-due :
      (mint : Option ℕ) (total : ℕ) (hs : List Member) (s : SplitState)
      → s.accumulated +ℤ sum_by payout_amount (due mint total hs) ≤ℤ pos total
      → (s' : SplitState) × (pay_holders token_balance users orgs mint total hs s ≡ some s')
        × (s'.members_with_amount ≡ s.members_with_amount ++ due mint total hs)
  unfolding pay_holders record_payout
  pay_holders-due mint total [] s room = (s, refl, sym (append-nil _))
  pay_holders-due mint total (h ∷ hs) s room =
      elim (Bool-cases (token_balance mint (holder_wallet users orgs h) == 0)) [
        | inl zero_balance ↦
            let (s', paid, same) = pay_holders-due mint total hs s (rw zero_balance at room) in
            (
              s',
              pay_holders-cons mint total h hs s s
                    (rw (pay_holder_lem mint total h s, zero_balance) refl)
                  ∙ paid,
              rw zero_balance same,
            )
        | inr positive ↦
            let next = record_payout users orgs h (full_share mint total h) s in
            let fits : s.accumulated
                  +ℤ (full_share mint total h +ℤ sum_by payout_amount (due mint total hs))
                ≤ℤ pos total =
              rw positive at room in
            let (s', paid, same) = pay_holders-due mint total hs next (omega int_laws) in
            (
              s',
              pay_holders-cons mint total h hs s next (
                    pay_holder_full mint total h s positive
                      (omega (int_laws, due_nonneg mint total hs)))
                  ∙ paid,
              same
                  ∙ append_assoc s.members_with_amount _ (due mint total hs)
                  ∙ ap (λ t. s.members_with_amount ++ t) (sym (due-cons mint total h hs positive)),
            )
      ]

  -- The payments to the holders, in order: none to one without a balance, and to every other one the
  -- part of the amount that its balance is of the supply, rounded to the nearest unit.
  abbrev pub ArePaid : Option ℕ → ℕ → List Member → List Payout → Type 0
  ArePaid mint total [] ps = ps ≡ []
  ArePaid mint total (h ∷ hs) ps =
      ((token_balance mint (holder_wallet users orgs h) ≡ 0) × ArePaid mint total hs ps)
      ⊎ ((a : ℕ) × (rest : List Payout) × (ps
            ≡ record { member = h.id; wallet = holder_wallet users orgs h; amount = pos a } ∷ rest)
          × (0 < token_balance mint (holder_wallet users orgs h))
          × IsNear 100000000000 (total * token_balance mint (holder_wallet users orgs h)) 1 a
          × ArePaid mint total hs rest)

  share-IsNear : (total equity : ℕ) → IsNear 100000000000 (total * equity) 1 (share total equity)
  unfolding share
  share-IsNear total equity = IsNear-round_div 100000000000 (total * equity) (omega arith)

  due-ArePaid :
      (mint : Option ℕ) (total : ℕ) (hs : List Member) → ArePaid mint total hs (due mint total hs)
  due-ArePaid mint total [] = refl
  due-ArePaid mint total (h ∷ hs) =
      let equity = token_balance mint (holder_wallet users orgs h) in
      elim (Bool-cases (equity == 0)) [
        | inl z ↦
            let same : due mint total hs ≡ due mint total (h ∷ hs) = rw z refl in
            inl (
              (==_iff equity 0).0 z,
              subst (ArePaid mint total hs) same (due-ArePaid mint total hs),
            )
        | inr z ↦ inr (
          share total equity,
          due mint total hs,
          due-cons mint total h hs z,
          ground (arith, z),
          share-IsNear total equity,
          due-ArePaid mint total hs,
        )
      ]

  -- If the rounded shares of the holders together fit the amount to split, then every holder with a
  -- balance is paid, in order, the part of the amount that its balance is of the supply, rounded to the
  -- nearest unit, and no one else is paid.
  pub split_exact :
      (mint : Option ℕ) (total : ℕ) (holders : List Member) (ms : List Member)
      → sum_by payout_amount (due mint total holders) ≤ℤ pos total
      → (s : SplitState) × (pay_holders token_balance users orgs mint total holders (split_start ms)
          ≡ some s)
        × ArePaid mint total holders s.members_with_amount
  split_exact mint total holders ms room =
      let (s, paid, same) = pay_holders-due mint total holders (split_start ms) (omega int_laws) in
      (s, paid, subst (ArePaid mint total holders) (sym same) (due-ArePaid mint total holders))

  -- What every payment to one of the holders keeps, the loop keeps.
  pub pay_holders_keeps :
      (P : SplitState → Type 0) (Q : Member → Type 0)
      → ((h : Member) (a : ℤ) (s : SplitState) → Q h → P s → P (record_payout users orgs h a s))
      → (mint : Option ℕ) (total : ℕ) (hs : List Member) (s s' : SplitState) → All Q hs
      → P s
      → pay_holders token_balance users orgs mint total hs s ≡ some s'
      → P s'
  unfolding pay_holders
  pay_holders_keeps P Q keep mint total [] s s' q p e = let same : s ≡ s' = cc in subst P same p
  pay_holders_keeps P Q keep mint total (h ∷ hs) s s' q p e =
      elim (Bool-cases (token_balance mint (holder_wallet users orgs h) == 0)) [
        | inl zero_balance ↦ pay_holders_keeps P Q keep mint total hs s s' q.1 p (
            sym (
              pay_holders-cons mint total h hs s s
                (rw (pay_holder_lem mint total h s, zero_balance) refl))
            ∙ e)
        | inr positive ↦
            let next : SplitState = record_payout users orgs h (amount_due mint total h s) s in
            pay_holders_keeps P Q keep mint total hs next s' q.1
              (keep h (amount_due mint total h s) s q.0 p)
              (sym (
                  pay_holders-cons mint total h hs s next
                    (rw (pay_holder_lem mint total h s, positive) refl))
                ∙ e)
      ]
