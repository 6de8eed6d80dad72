-- ===== src/Payment/Merchant/Minted.antt =====
-- When a merchant's payment is split (`handleMerchantPayment`, src/payment/payment.service.ts).
use impact_wallet_server.Base.{
  ℕ, ◌+◌, ◌≡◌, refl, ap, ◌⊎◌, inl, inr, String, true, false, Option, none, some, List, [], ◌∷◌,
  ◌++◌, ==_iff, find, update_first, arith, Bool-cases, Option-cases,
}
use impact_wallet_server.Base.Http.{
  Result, ok, err, ◌>>=◌, >>=-eq-ok, or_throw, type_error, Result-cases, bad_request,
}
use impact_wallet_server.Orgs.Schema.{Org}
use impact_wallet_server.Payment.Merchant.{
  ReceivedPayment, MerchantPayment, receive_payment, has_org_wallet, has_payment_id, memo_text,
  merchant_items, all_named, Handled, mint_confirmed, minted_payment, handle_merchant_payment,
}

-- A payment to a collection without its id, with its hash.
with_hash : ℕ → ReceivedPayment → ReceivedPayment
with_hash hash p = record p { txn_hash = some hash }

update-append_last :
    (p : ReceivedPayment) (g : ReceivedPayment → ReceivedPayment) (ps : List ReceivedPayment)
    → find (has_payment_id p.id) ps ≡ none
    → update_first (has_payment_id p.id) g (ps ++ p ∷ []) ≡ ps ++ g p ∷ []
update-append_last p g [] h = rw ((==_iff p.id p.id).1 refl) refl
update-append_last p g (x ∷ ps) h = ground (arith, update-append_last p g ps)

-- The payment of a webhook's request, with its hash when it has one.
abbrev pub merchant_payment : ℕ → Org → MerchantPayment → Option ℕ → ReceivedPayment
merchant_payment fresh org body hash = record {
  id = fresh;
  org = org.id;
  amount = body.amount;
  items = merchant_items body;
  txn_hash = hash;
}

module _ (root : ℕ) (key : Option ℕ → Result ℕ) (mint : ℕ → Option ℕ → ℕ → Option String → Result ℕ)
    (confirm : ℕ → Result ℕ) where
  -- What a request has left: nothing, a payment without a hash, or a payment whose credits have been
  -- minted and confirmed, and which is split.
  abbrev pub IsRecorded : ℕ → MerchantPayment → List Org → List ReceivedPayment → Handled → Type 0
  IsRecorded fresh body orgs payments (payments', none) =
      (payments' ≡ payments)
      ⊎ ((org : Org) × (find (has_org_wallet body.wallet_address) orgs ≡ some org)
          × (payments' ≡ payments ++ merchant_payment fresh org body none ∷ []))
  IsRecorded fresh body orgs payments (payments', some call) =
      (org : Org) × (pk : ℕ) × (sent : ℕ) × (hash : ℕ) × (find (has_org_wallet body.wallet_address)
          orgs
        ≡ some org)
      × (mint pk org.wallet body.amount (memo_text body.memo) ≡ ok sent)
      × (confirm sent ≡ ok hash)
      × (payments' ≡ payments ++ merchant_payment fresh org body (some hash) ∷ [])
      × (call ≡ record { org = org; amount = body.amount; memo = body.memo })

  minted_payment-IsRecorded :
      (fresh pk : ℕ) (org : Org) (body : MerchantPayment) (orgs : List Org)
      (payments : List ReceivedPayment)
      → find (has_payment_id fresh) payments ≡ none
      → find (has_org_wallet body.wallet_address) orgs ≡ some org
      → IsRecorded fresh body orgs payments (
          minted_payment root key mint confirm pk org body
            (merchant_payment fresh org body none)
            (payments ++ merchant_payment fresh org body none ∷ []))
  unfolding minted_payment mint_confirmed
  minted_payment-IsRecorded fresh pk org body orgs payments n f =
      elim (Result-cases (mint_confirmed root key mint confirm pk org body)) [
        | inr (e, c) ↦ rw (c, minted_payment) (inr (org, f, refl))
        | inl (hash, c) ↦
            let (sent, m, k) =
              >>=-eq-ok (mint pk org.wallet body.amount (memo_text body.memo)) _ c in
            let last =
              update-append_last (merchant_payment fresh org body none)
                (λ x. record x { txn_hash = some hash }) payments n in
            rw (c, minted_payment) (org, pk, sent, hash, f, m, k, last, refl)
      ]

  received_lem :
      (fresh : ℕ) (org : Org) (body : MerchantPayment) (payments : List ReceivedPayment)
      → all_named (merchant_items body) ≡ true
      → receive_payment fresh org (merchant_items body) payments
        ≡ ok (
          merchant_payment fresh org body none,
          payments ++ merchant_payment fresh org body none ∷ [],
        )
  unfolding receive_payment
  received_lem fresh org body payments h =
      let whole : body.amount + 0 ≡ body.amount = omega arith in
      let paid : ℕ → ReceivedPayment =
        λ n. record (merchant_payment fresh org body none) { amount = n } in
      rw (receive_payment, h) (ap (λ n. ok (paid n, payments ++ paid n ∷ [])) whole)

  refused_lem :
      (fresh : ℕ) (org : Org) (body : MerchantPayment) (payments : List ReceivedPayment)
      → all_named (merchant_items body) ≡ false
      → receive_payment fresh org (merchant_items body) payments
        ≡ err (bad_request "ValidationError")
  unfolding receive_payment
  refused_lem fresh org body payments h = rw (receive_payment, h) refl

  -- A request of a merchant's webhook, with a new payment's id: the payments are as they were, or the
  -- request's payment to the organization with its wallet is added to them; and the split of the
  -- payment is started only when credits of its amount have been minted to that wallet in a
  -- transaction that is confirmed, of which the payment then has the hash.
  pub handle_merchant_payment-IsRecorded :
      (fresh : ℕ) (body : MerchantPayment) (orgs : List Org) (payments : List ReceivedPayment)
      → find (has_payment_id fresh) payments ≡ none
      → IsRecorded fresh body orgs payments
          (handle_merchant_payment root key mint confirm fresh body orgs payments).0
  unfolding handle_merchant_payment
  handle_merchant_payment-IsRecorded fresh body orgs payments n =
      elim (Option-cases (find (has_org_wallet body.wallet_address) orgs)) [
        | inl c ↦ rw (c, handle_merchant_payment) (inl refl)
        | inr (org, c) ↦ elim (Bool-cases (all_named (merchant_items body))) [
          | inr unnamed ↦
              let refused : receive_payment fresh org (merchant_items body) payments
                  ≡ err (bad_request "ValidationError") =
                refused_lem fresh org body payments unnamed in
              rw (c, refused, handle_merchant_payment) (inl refl)
          | inl named ↦
              let received = received_lem fresh org body payments named in
              elim (Result-cases
                (or_throw (find (has_org_wallet root) orgs) type_error >>= λ o. key o.wallet)) [
                  | inr (e, k) ↦ rw (c, received, k, handle_merchant_payment) (inr (org, c, refl))
                  | inl (pk, k) ↦
                      rw (c, received, k, handle_merchant_payment)
                        (minted_payment-IsRecorded fresh pk org body orgs payments n c)
                ]
        ]
      ]
