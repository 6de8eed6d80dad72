-- ===== src/Payment/Split/Amounts.antt =====
-- The amounts of a split.
use impact_wallet_server.Base.{
  ℕ, zero, suc, ◌<◌, ◌≡◌, sym, ap, ◌∙◌, some, arith, Bool-cases, inl, inr,
}
use impact_wallet_server.Base.Int.{
  ℤ, pos, pos_part, ◌+ℤ◌, ◌-ℤ◌, ◌≤ℤ◌, ◌<ℤ◌, ltb_ℤ, min_ℤ, min_ℤ_left, min_ℤ_right, int_laws,
  part_zero, ltb_ℤ→lt, ltb_ℤ→ge,
}
use impact_wallet_server.Payment.Split.{normalize_from, normalize_amount}

-- One unit less reduces the excess.
excess_decreases :
    (a t c : ℤ) → t <ℤ c +ℤ a → pos_part (c +ℤ (a -ℤ pos 1) -ℤ t) < pos_part (c +ℤ a -ℤ t)
excess_decreases a t c h =
    omega (int_laws, part_zero (c +ℤ (a -ℤ pos 1) -ℤ t), part_zero (c +ℤ a -ℤ t))

min_of_over : (a t c : ℤ) → t <ℤ c +ℤ a → min_ℤ (a -ℤ pos 1) (t -ℤ c) ≡ min_ℤ a (t -ℤ c)
min_of_over a t c h =
    min_ℤ_right (a -ℤ pos 1) (t -ℤ c) (omega int_laws)
    ∙ sym (min_ℤ_right a (t -ℤ c) (omega int_laws))

normalize_from-eq-min :
    (f : ℕ) (a t c : ℤ)
    → pos_part (c +ℤ a -ℤ t) < f
    → normalize_from f a t c ≡ some (min_ℤ a (t -ℤ c))
unfolding normalize_from
normalize_from-eq-min zero a t c h = absurd (omega arith)
normalize_from-eq-min (suc f) a t c h = elim (Bool-cases (ltb_ℤ t (c +ℤ a))) [
  | inr fit ↦
      let le : c +ℤ a ≤ℤ t = ltb_ℤ→ge t (c +ℤ a) fit in
      rw fit (ap some (sym (min_ℤ_left a (t -ℤ c) (omega int_laws))))
  | inl over ↦
      let lt : t <ℤ c +ℤ a = ltb_ℤ→lt t (c +ℤ a) over in
      rw over (
        normalize_from-eq-min f (a -ℤ pos 1) t c (omega (arith, excess_decreases a t c lt))
        ∙ ap some (min_of_over a t c lt))
]

-- `_normalizeAmount` terminates, and what it returns is the smaller of the amount and of what is
-- left to split.
pub normalize_amount-eq-min :
    (amount amount_to_split accumulated : ℤ)
    → normalize_amount amount amount_to_split accumulated
      ≡ some (min_ℤ amount (amount_to_split -ℤ accumulated))
unfolding normalize_amount
normalize_amount-eq-min a t c =
    normalize_from-eq-min (suc (pos_part (c +ℤ a -ℤ t))) a t c (omega arith)
