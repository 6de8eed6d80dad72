-- ===== src/Airdrop/Claims.antt =====
-- `airdropCalculations` and `getClaimByWallet` (src/airdrop/airdrop.service.ts): what each holder may
-- claim. An amount to claim is kept exactly, as a numerator and a denominator, until it is rounded.
use impact_wallet_server.Base.{
  ℕ, suc, ◌+◌, ◌*◌, ◌≤◌, ◌<◌, ◌≡◌, refl, sym, Bool, ◌&&◌, Option, none, some, String, List, [], ◌∷◌,
  ◌==◌, length, is_nil, find, false, true, All, if◌then◌else◌, if_cases, arith, inl, inr,
}
use mathlib.Core.Path.{subst}
use impact_wallet_server.Base.Round.{
  round_div, IsNear, IsNear-zero, IsNear-add, IsNear-round_div, IsNear-whole,
}
use impact_wallet_server.Base.Http.{Result, ok, err, thrown, ok_inj}

-- A document of the type `RESULT`.
pub record Holder : Type 0 where
  pub wallet : ℕ
  pub final_amount : ℕ
  pub claim : ℕ × ℕ
  pub is_claim : Bool
  pub error : Option String

-- `totalAmount`
abbrev pub total_amount : List Holder → ℕ
total_amount [] = 0
total_amount (h ∷ hs) = h.final_amount + total_amount hs

abbrev pub with_claim : ℕ → ℕ → Holder → Holder
with_claim size total h = record h { claim = (size * h.final_amount, total) }

abbrev pub with_claims : ℕ → ℕ → List Holder → List Holder
with_claims size total [] = []
with_claims size total (h ∷ hs) = with_claim size total h ∷ with_claims size total hs

-- The loop divides by the total for each holder.
unfoldable pub airdrop_calculations : ℕ → List Holder → Result (List Holder)
airdrop_calculations size [] = ok []
airdrop_calculations size (h ∷ hs) =
    if total_amount (h ∷ hs) == 0
    then err (thrown "[big.js] Division by zero")
    else ok (with_claims size (total_amount (h ∷ hs)) (h ∷ hs))

-- What `getClaimByWallet` answers: the amount, and whether it has been claimed.
pub record Claim : Type 0 where
  pub amount : ℕ
  pub is_claim : Bool

abbrev pub has_valid_wallet : ℕ → Holder → Bool
has_valid_wallet w h = (h.wallet == w) && is_nil h.error

-- `Math.round(holder.claimAmount)`
abbrev pub claim_amount : Holder → ℕ
claim_amount h = round_div h.claim.0 h.claim.1

unfoldable pub get_claim_by_wallet : ℕ → List Holder → Claim
get_claim_by_wallet w hs = elim (find (has_valid_wallet w) hs) [
  | none ↦ record { amount = 0; is_claim = false }
  | some h ↦ record { amount = claim_amount h; is_claim = h.is_claim }
]

-- What the holders' claims come to, each holder asking for its wallet.
abbrev pub claimed : List Holder → List Holder → ℕ
claimed all [] = 0
claimed all (h ∷ hs) = (get_claim_by_wallet h.wallet all).amount + claimed all hs

abbrev pub IsOtherWallet : ℕ → Holder → Type 0
IsOtherWallet w h = (h.wallet == w) ≡ false

-- The holders have no error, and no two the same wallet.
abbrev pub HasDistinctWallets : List Holder → Type 0
HasDistinctWallets [] = Unit
HasDistinctWallets (h ∷ hs) =
    (is_nil h.error ≡ true) × All (IsOtherWallet h.wallet) hs × HasDistinctWallets hs

with_claims-IsOther :
    (size total w : ℕ) (hs : List Holder)
    → All (IsOtherWallet w) hs
    → All (IsOtherWallet w) (with_claims size total hs)
with_claims-IsOther size total w [] h = tt
with_claims-IsOther size total w (x ∷ hs) (h, k) = (h, with_claims-IsOther size total w hs k)

-- The claims that are due, rounded.
abbrev rounded : ℕ → ℕ → List Holder → ℕ
rounded size total [] = 0
rounded size total (h ∷ hs) = round_div (size * h.final_amount) total + rounded size total hs

distribute_left : (a b e : ℕ) → e * a + e * b ≡ e * (a + b)
distribute_left a b e = grind arith

swap_mul : (a b : ℕ) → a * b ≡ b * a
swap_mul a b = grind arith

rounded-IsNear :
    (size total : ℕ) (hs : List Holder)
    → 0 < total
    → IsNear total (size * total_amount hs) (length hs) (rounded size total hs)
rounded-IsNear size total [] h =
    let nothing : 0 ≡ size * 0 = grind arith in
    subst (λ p. IsNear total p 0 0) nothing (IsNear-zero total)
rounded-IsNear size total (x ∷ hs) h =
    let p = size * x.final_amount in
    let rest = rounded-IsNear size total hs h in
    let near : IsNear total (p + size * total_amount hs) (1 + length hs)
        (round_div p total + rounded size total hs) =
      IsNear-add total p 1 (round_div p total) (size * total_amount hs) (length hs)
        (rounded size total hs) (IsNear-round_div total p h) rest in
    let count : 1 + length hs ≡ suc (length hs) = omega arith in
    subst (λ q. IsNear total q (suc (length hs)) (rounded size total (x ∷ hs)))
      (distribute_left x.final_amount (total_amount hs) size)
      (subst (λ n. IsNear total (p + size * total_amount hs) n (rounded size total (x ∷ hs))) count
        near)

with_claims-HasDistinctWallets :
    (size total : ℕ) (hs : List Holder)
    → HasDistinctWallets hs
    → HasDistinctWallets (with_claims size total hs)
with_claims-HasDistinctWallets size total [] d = tt
with_claims-HasDistinctWallets size total (x ∷ hs) (e, h, d) = (
  e,
  with_claims-IsOther size total x.wallet hs h,
  with_claims-HasDistinctWallets size total hs d,
)

abbrev IsFound : List Holder → Holder → Type 0
IsFound all h = find (has_valid_wallet h.wallet) all ≡ some h

cons-IsFound :
    (x : Holder) (all hs : List Holder)
    → All (IsOtherWallet x.wallet) hs
    → All (IsFound all) hs
    → All (IsFound (x ∷ all)) hs
cons-IsFound x all [] o f = tt
cons-IsFound x all (h ∷ hs) (o, os) (f, fs) = (ground (arith, o, f), cons-IsFound x all hs os fs)

All-IsFound : (hs : List Holder) → HasDistinctWallets hs → All (IsFound hs) hs
All-IsFound [] d = tt
All-IsFound (x ∷ hs) (e, o, d) = (ground (arith, e), cons-IsFound x hs hs o (All-IsFound hs d))

claim_found :
    (all : List Holder) (h : Holder)
    → IsFound all h
    → (get_claim_by_wallet h.wallet all).amount ≡ claim_amount h
unfolding get_claim_by_wallet
claim_found all h f = rw (f, get_claim_by_wallet) refl

claimed-rounded :
    (size total : ℕ) (all hs : List Holder)
    → All (IsFound all) (with_claims size total hs)
    → claimed all (with_claims size total hs) ≡ rounded size total hs
claimed-rounded size total all [] f = refl
claimed-rounded size total all (x ∷ hs) (f, fs) =
    omega (arith, claim_found all (with_claim size total x) f, claimed-rounded size total all hs fs)

-- After the calculation, what the holders may claim adds up to the size of the airdrop, within half a
-- unit for each of them, given that there is a holder, that none has an error, and that no two have the
-- same wallet.
airdrop_calculations_bounds :
    (size : ℕ) (hs hs' : List Holder)
    → 0 < length hs
    → HasDistinctWallets hs
    → airdrop_calculations size hs ≡ ok hs'
    → (2 * claimed hs' hs' ≤ 2 * size + length hs) × (2 * size ≤ 2 * claimed hs' hs' + length hs)
unfolding airdrop_calculations
airdrop_calculations_bounds size [] hs' n d e = absurd (omega (arith, n))
airdrop_calculations_bounds size (x ∷ hs) hs' n d e =
    elim (if_cases (total_amount (x ∷ hs) == 0) _ _ e) [
      | inl (_, k) ↦ cc
      | inr (c, k) ↦
          let all = x ∷ hs in
          let total = total_amount (x ∷ hs) in
          let positive : 0 < total = ground (arith, c) in
          let found =
            All-IsFound (with_claims size total all)
              (with_claims-HasDistinctWallets size total all d) in
          let same = claimed-rounded size total (with_claims size total all) all found in
          let near =
            subst (λ p. IsNear total p (length all) (rounded size total all)) (swap_mul size total)
              (rounded-IsNear size total all positive) in
          let bounds =
            IsNear-whole total size (length all) (rounded size total all) positive near in
          subst
            (λ x'.
              (2 * claimed x' x' ≤ 2 * size + length all)
              × (2 * size ≤ 2 * claimed x' x' + length all))
            (ok_inj k)
            (subst (λ m. (2 * m ≤ 2 * size + length all) × (2 * size ≤ 2 * m + length all))
              (sym same) bounds)
    ]
