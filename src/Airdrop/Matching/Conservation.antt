-- ===== src/Airdrop/Matching/Conservation.antt =====
-- What the first-in-first-out matching keeps.
use impact_wallet_server.Base.{
  ℕ, ◌+◌, ◌-◌, ◌≤◌, ◌<◌, ◌≡◌, refl, ap, true, List, [], ◌∷◌, arith, leb, if◌then◌else◌, Bool-cases,
  inl, inr,
}
use impact_wallet_server.Base.Int.{
  ℤ, pos, ◌+ℤ◌, ◌-ℤ◌, int_laws, sum_by, add_left, pos_part, neg_part,
}
use impact_wallet_server.Airdrop.Schema.{
  AirdropDto, TypeTransaction, debit, credit, unknown, result, is_credit,
}
use impact_wallet_server.Airdrop.Matching.{consume, is_earlier_credit}

-- A credit counts for its amount, a debit against it, anything else not.
abbrev pub signed_of : TypeTransaction → ℕ → ℤ
signed_of credit a = pos a
signed_of debit a = pos 0 -ℤ pos a
signed_of unknown a = pos 0
signed_of result a = pos 0

abbrev pub signed : AirdropDto → ℤ
signed t = signed_of t.type_transaction t.amount

abbrev pub net : List AirdropDto → ℤ
net ts = sum_by signed ts

-- The credits before a date.
abbrev pub eligible : ℕ → List AirdropDto → ℕ
eligible date [] = 0
eligible date (p ∷ ps) =
    if is_earlier_credit date p then p.amount + eligible date ps else eligible date ps

-- A debit uses up exactly what the earlier credits hold: what is left of it is what they lack.
consume_left :
    (date left : ℕ) (ts : List AirdropDto) → (consume date left ts).left ≡ left - eligible date ts
unfolding consume
consume_left date left [] = ground arith
consume_left date left (p ∷ ps) = elim (Bool-cases (is_earlier_credit date p)) [
  | inr other ↦ rw other (consume_left date left ps)
  | inl earlier ↦ elim (Bool-cases (leb left p.amount)) [
    | inl covered ↦ rw (earlier, covered) (ground arith)
    | inr short ↦ rw (earlier, short) (omega (arith, consume_left date (left - p.amount) ps))
  ]
]

signed_of_credit : (k : TypeTransaction) (a : ℕ) → is_credit k ≡ true → signed_of k a ≡ pos a
signed_of_credit credit a e = refl
signed_of_credit debit a e = cc
signed_of_credit unknown a e = cc
signed_of_credit result a e = cc

covered_step :
    (a left : ℕ) (rest : ℤ) → left ≤ a → pos (a - left) +ℤ rest +ℤ pos left ≡ pos a +ℤ rest +ℤ pos 0
covered_step a left rest h = omega int_laws

used_up_step :
    (a left : ℕ) (rest rest' l : ℤ)
    → a < left
    → rest' +ℤ pos (left - a) ≡ rest +ℤ l
    → pos 0 +ℤ rest' +ℤ pos left ≡ pos a +ℤ rest +ℤ l
used_up_step a left rest rest' l h k = omega (int_laws, ap pos_part k, ap neg_part k)

-- The first-in-first-out loop takes from the credits what it takes from the debit.
pub net-consume :
    (date left : ℕ) (ts : List AirdropDto)
    → net (consume date left ts).list +ℤ pos left ≡ net ts +ℤ pos (consume date left ts).left
unfolding consume
net-consume date left [] = refl
net-consume date left (p ∷ ps) = elim (Bool-cases (is_earlier_credit date p)) [
  | inr other ↦ rw other (add_left (signed p) _ _ _ _ (net-consume date left ps))
  | inl earlier ↦
      let kind : is_credit p.type_transaction ≡ true = ground arith in
      elim (Bool-cases (leb left p.amount)) [
        | inl covered ↦
            rw
              (
                earlier,
                covered,
                signed_of_credit p.type_transaction p.amount kind,
                signed_of_credit p.type_transaction (p.amount - left) kind,
              )
              (covered_step p.amount left (net ps) (ground arith))
        | inr short ↦
            rw
              (
                earlier,
                short,
                signed_of_credit p.type_transaction p.amount kind,
                signed_of_credit p.type_transaction 0 kind,
              )
              (used_up_step p.amount left (net ps) _ _ (ground arith)
                (net-consume date (left - p.amount) ps))
      ]
]
