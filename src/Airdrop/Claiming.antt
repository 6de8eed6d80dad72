-- ===== src/Airdrop/Claiming.antt =====
-- `createClaimTransaction` (src/airdrop/airdrop.service.ts): a holder's claim is signed for it to send.
-- What the checks of the wallet (whom it follows, and how much it uses DePlan) come to is a parameter
-- of each call; a call in which signing throws changes nothing, as one whose checks fail.
use mathlib.Core.Path.{subst}
use mathlib.Core.Option.{some-injective}
use impact_wallet_server.Base.{
  ℕ, ◌≡◌, refl, sym, ap, ◌∙◌, ◌⊎◌, inl, inr, Bool, true, false, ◌||◌, Option, none, some, List, [],
  ◌∷◌, ◌++◌, ◌==◌, ==_iff, is_nil, find, filter, filter-append, update_first, if◌then◌else◌,
  if_cases, Bool-cases, arith,
}
use impact_wallet_server.Base.Http.{Result, ok, err}
use impact_wallet_server.Airdrop.Claims.{
  Holder, Claim, has_valid_wallet, claim_amount, get_claim_by_wallet,
}

abbrev pub has_wallet : ℕ → Holder → Bool
has_wallet w h = h.wallet == w

abbrev pub mark_claimed : Holder → Holder
mark_claimed h = record h { is_claim = true }

-- The amount of the transaction that is signed, if any.
unfoldable pub sign_claim : ℕ → Claim → List Holder → List Holder × Result (Option ℕ)
sign_claim w c hs =
    if (c.amount == 0) || c.is_claim
    then (hs, ok none)
    else (update_first (has_wallet w) mark_claimed hs, ok (some c.amount))

unfoldable pub create_claim_transaction :
    Result (Unit {0}) → ℕ → List Holder → List Holder × Result (Option ℕ)
unfolding get_claim_by_wallet sign_claim
create_claim_transaction (err e) w hs = (hs, err e)
create_claim_transaction (ok _) w hs = sign_claim w (get_claim_by_wallet w hs) hs

abbrev pub signed : ℕ → Result (Option ℕ) → List (ℕ × ℕ)
signed w (err e) = []
signed w (ok none) = []
signed w (ok (some n)) = (w, n) ∷ []

-- The calls, each with its wallet and its checks, and the transactions that are signed.
unfoldable pub claim_all : List (ℕ × Result (Unit {0})) → List Holder → List (ℕ × ℕ)
unfolding create_claim_transaction
claim_all [] hs = []
claim_all ((w, checks) ∷ rs) hs =
    let (hs', r) = create_claim_transaction checks w hs in signed w r ++ claim_all rs hs'

abbrev pub is_for : ℕ → ℕ × ℕ → Bool
is_for w c = c.0 == w

-- The holder of a wallet is found, and has no error.
abbrev HasHolder : ℕ → List Holder → Holder → Type 0
HasHolder w hs h = (find (has_wallet w) hs ≡ some h) × (is_nil h.error ≡ true)

get_claim_found :
    (w : ℕ) (hs : List Holder) {h : Holder}
    → HasHolder w hs h
    → find (has_valid_wallet w) hs ≡ some h
get_claim_found w [] (f, e) = cc
get_claim_found w (x ∷ hs) {h} (f, e) = elim (if_cases (has_wallet w x) _ _ f) [
  | inl (c, k) ↦
      let same = some-injective x h k in
      let clean : is_nil x.error ≡ true = subst (λ y. is_nil y.error ≡ true) (sym same) e in
      rw (c, clean) (ap some same)
  | inr (c, k) ↦ rw c (get_claim_found w hs (k, e))
]

marked_same :
    (w : ℕ) (hs : List Holder) {h : Holder}
    → find (has_wallet w) hs ≡ some h
    → find (has_wallet w) (update_first (has_wallet w) mark_claimed hs) ≡ some (mark_claimed h)
marked_same w [] f = cc
marked_same w (x ∷ hs) {h} f = elim (if_cases (has_wallet w x) _ _ f) [
  | inl (c, k) ↦ rw (c, c) (ap (λ y. some (mark_claimed y)) (some-injective x h k))
  | inr (c, k) ↦ rw (c, c) (marked_same w hs k)
]

marked_other :
    (v w : ℕ) (hs : List Holder)
    → (v == w) ≡ false
    → find (has_wallet w) (update_first (has_wallet v) mark_claimed hs) ≡ find (has_wallet w) hs
marked_other v w [] h = refl
marked_other v w (x ∷ hs) h = elim (Bool-cases (has_wallet v x)) [
  | inl c ↦ let n : (x.wallet == w) ≡ false = ground (arith, c, h) in rw (c, n) refl
  | inr c ↦ rw c (elim (Bool-cases (has_wallet w x)) [
    | inl d ↦ rw d refl
    | inr d ↦ rw d (marked_other v w hs h)
  ])
]

-- What one call does for another wallet.
other_call :
    (v w : ℕ) (checks : Result (Unit {0})) (hs : List Holder)
    → (v == w) ≡ false
    → (find (has_wallet w) (create_claim_transaction checks v hs).0 ≡ find (has_wallet w) hs)
      × (filter (is_for w) (signed v (create_claim_transaction checks v hs).1) ≡ [])
unfolding create_claim_transaction sign_claim
other_call v w (err e) hs h = (refl, refl)
other_call v w (ok _) hs h =
    let c = get_claim_by_wallet v hs in
    elim (Bool-cases ((c.amount == 0) || c.is_claim)) [
      | inl g ↦ rw g (refl, refl)
      | inr g ↦ rw (g, h) (marked_other v w hs h, refl)
    ]

claim_of :
    (w : ℕ) (hs : List Holder) {h : Holder}
    → HasHolder w hs h
    → get_claim_by_wallet w hs ≡ record { amount = claim_amount h; is_claim = h.is_claim }
unfolding get_claim_by_wallet
claim_of w hs k = rw (get_claim_found w hs k, get_claim_by_wallet) refl

or_true : (b c : Bool) → c ≡ true → (b || c) ≡ true
or_true true c h = refl
or_true false c h = h

-- After a claim, a call for the wallet changes and signs nothing.
done_call :
    (w : ℕ) (checks : Result (Unit {0})) (hs : List Holder) {h : Holder}
    → HasHolder w hs h
    → h.is_claim ≡ true
    → ((create_claim_transaction checks w hs).0 ≡ hs)
      × (signed w (create_claim_transaction checks w hs).1 ≡ [])
unfolding create_claim_transaction sign_claim
done_call w (err e) hs k d = (refl, refl)
done_call w (ok _) hs {h} k d =
    let c : Claim = record { amount = claim_amount h; is_claim = h.is_claim } in
    let g : ((claim_amount h == 0) || h.is_claim) ≡ true = or_true _ _ d in
    subst (λ c. ((sign_claim w c hs).0 ≡ hs) × (signed w (sign_claim w c hs).1 ≡ []))
      (sym (claim_of w hs k)) (rw g (refl, refl))

skip_call :
    (w : ℕ) (xs ys : List (ℕ × ℕ))
    → filter (is_for w) xs ≡ []
    → filter (is_for w) (xs ++ ys) ≡ filter (is_for w) ys
skip_call w xs ys z = filter-append (is_for w) xs ys ∙ ap (λ zs. zs ++ filter (is_for w) ys) z

own_first :
    (w n : ℕ) (xs : List (ℕ × ℕ)) → filter (is_for w) ((w, n) ∷ xs) ≡ (w, n) ∷ filter (is_for w) xs
own_first w n xs = let e : (w == w) ≡ true = ground arith in rw e refl

-- At most one transaction, with the holder's claim.
abbrev IsOnce : ℕ → Holder → List (ℕ × ℕ) → Type 0
IsOnce w h xs = (xs ≡ []) ⊎ (xs ≡ (w, claim_amount h) ∷ [])

sign_own :
    (w : ℕ) (c : Claim) (hs : List Holder)
    → (((sign_claim w c hs).0 ≡ hs) × (signed w (sign_claim w c hs).1 ≡ []))
      ⊎ (((sign_claim w c hs).0 ≡ update_first (has_wallet w) mark_claimed hs)
          × (signed w (sign_claim w c hs).1 ≡ (w, c.amount) ∷ []))
unfolding sign_claim
sign_own w c hs = elim (Bool-cases ((c.amount == 0) || c.is_claim)) [
  | inl g ↦ rw g (inl (refl, refl))
  | inr g ↦ rw g (inr (refl, refl))
]

all_done :
    (w : ℕ) (rs : List (ℕ × Result (Unit {0}))) (hs : List Holder) {h : Holder}
    → HasHolder w hs h
    → h.is_claim ≡ true
    → filter (is_for w) (claim_all rs hs) ≡ []
unfolding claim_all
all_done w [] hs k d = refl
all_done w ((v, checks) ∷ rs) hs {h} (f, e) d = elim (Bool-cases (v == w)) [
  | inr c ↦
      let (f', z) = other_call v w checks hs c in
      skip_call w _ _ z ∙ all_done w rs (create_claim_transaction checks v hs).0 (f' ∙ f, e) d
  | inl c ↦
      let (same, none_signed) = done_call w checks hs (f, e) d in
      subst (λ u. filter (is_for w) (claim_all ((u, checks) ∷ rs) hs) ≡ []) (sym ((==_iff v w).0 c))
        (skip_call w _ _ (ap (filter (is_for w)) none_signed)
          ∙ ap (λ hs'. filter (is_for w) (claim_all rs hs')) same
          ∙ all_done w rs hs (f, e) d)
]

-- What one call does for its own wallet.
own_call :
    (w : ℕ) (checks : Result (Unit {0})) (hs : List Holder) {h : Holder}
    → HasHolder w hs h
    → (((create_claim_transaction checks w hs).0 ≡ hs)
        × (signed w (create_claim_transaction checks w hs).1 ≡ []))
      ⊎ (((create_claim_transaction checks w hs).0 ≡ update_first (has_wallet w) mark_claimed hs)
          × (signed w (create_claim_transaction checks w hs).1 ≡ (w, claim_amount h) ∷ []))
unfolding create_claim_transaction
own_call w (err e) hs k = inl (refl, refl)
own_call w (ok _) hs {h} k =
    subst
      (λ c.
        (((sign_claim w c hs).0 ≡ hs) × (signed w (sign_claim w c hs).1 ≡ []))
        ⊎ (((sign_claim w c hs).0 ≡ update_first (has_wallet w) mark_claimed hs)
            × (signed w (sign_claim w c hs).1 ≡ (w, claim_amount h) ∷ [])))
      (sym (claim_of w hs k))
      (sign_own w (record { amount = claim_amount h; is_claim = h.is_claim }) hs)

-- Whatever calls the server receives, and whatever their checks come to, for a wallet whose holder has no
-- error at most one transaction is signed, and that with the holder's claim.
pub claim_all_once :
    (w : ℕ) (rs : List (ℕ × Result (Unit {0}))) (hs : List Holder) (h : Holder)
    → find (has_wallet w) hs ≡ some h
    → is_nil h.error ≡ true
    → (filter (is_for w) (claim_all rs hs) ≡ [])
      ⊎ (filter (is_for w) (claim_all rs hs) ≡ (w, claim_amount h) ∷ [])
unfolding claim_all
claim_all_once w [] hs h f e = inl refl
claim_all_once w ((v, checks) ∷ rs) hs h f e = elim (Bool-cases (v == w)) [
  | inr c ↦
      let (f', z) = other_call v w checks hs c in
      let hs' = (create_claim_transaction checks v hs).0 in
      subst (IsOnce w h)
        (sym (skip_call w (signed v (create_claim_transaction checks v hs).1) (claim_all rs hs') z))
        (claim_all_once w rs hs' h (f' ∙ f) e)
  | inl c ↦
      subst (λ u. IsOnce w h (filter (is_for w) (claim_all ((u, checks) ∷ rs) hs)))
        (sym ((==_iff v w).0 c))
        (elim (own_call w checks hs (f, e)) [
          | inl (same, z) ↦
              subst (IsOnce w h)
                (sym (
                  skip_call w (signed w (create_claim_transaction checks w hs).1) _
                    (ap (filter (is_for w)) z)
                  ∙ ap (λ hs'. filter (is_for w) (claim_all rs hs')) same))
                (claim_all_once w rs hs h f e)
          | inr (same, z) ↦ inr (
              ap
                (λ xs.
                  filter (is_for w) (xs ++ claim_all rs (create_claim_transaction checks w hs).0))
                z
              ∙ ap (λ hs'. filter (is_for w) ((w, claim_amount h) ∷ claim_all rs hs')) same
              ∙ own_first w (claim_amount h)
                  (claim_all rs (update_first (has_wallet w) mark_claimed hs))
              ∙ ap (λ xs. (w, claim_amount h) ∷ xs)
                  (all_done w rs (update_first (has_wallet w) mark_claimed hs)
                    (marked_same w hs f, e) refl))
        ])
]
