-- ===== src/Offers/Lite/Invest/Raised.antt =====
-- What an offer has raised, over the accounts of its prospects, and what an added investment does to it.
use mathlib.Core.Path.{subst}
use mathlib.Core.Option.{some-injective}
use impact_wallet_server.Base.{
  ℕ, ◌+◌, ◌≤◌, ◌≡◌, refl, sym, ap, inl, inr, false, Option, none, some, List, [], ◌∷◌, ◌++◌, ◌==◌,
  ltb, same_option, All, All-append, Bool-cases, if_cases, arith,
}
use impact_wallet_server.Base.Http.{
  ok, or_throw, throw_if, type_error, >>=-eq-ok, throw_if-ok, ok_inj, or_throw-ok,
}
use impact_wallet_server.Offers.Schema.{MemberProspect, OfferInvestorSettings}
use impact_wallet_server.Offers.Status.{Account}
use impact_wallet_server.Offers.Investment.{invested}
use impact_wallet_server.Offers.Lite.Invest.{
  key_of, map_set, map_values, invested_map, invested_amount, equity_allocation, add_investment,
  plan, Plan, new_prospect,
}

same_option_sym : (o p : Option ℕ) → same_option o p ≡ false → same_option p o ≡ false
same_option_sym none none h = h
same_option_sym none (some i) h = refl
same_option_sym (some i) none h = refl
same_option_sym (some i) (some j) h = ground arith

-- What the investors of the prospects have paid.
abbrev pub raised : List MemberProspect → ℕ
raised [] = 0
raised (p ∷ ps) = invested p.investor_settings + raised ps

module _ (a : Account) where
  abbrev pub IsOther : MemberProspect → MemberProspect → Type 0
  IsOther p q = same_option (key_of a q) (key_of a p) ≡ false

  -- No two prospects are of the same account.
  abbrev pub HasDistinctKeys : List MemberProspect → Type 0
  HasDistinctKeys [] = Unit
  HasDistinctKeys (p ∷ ps) = All (IsOther p) ps × HasDistinctKeys ps

  abbrev IsAbsent : List (ℕ × MemberProspect) → MemberProspect → Type 0
  IsAbsent es p = All (λ e. same_option (key_of a p) (some e.0) ≡ false) es

  key_differs :
      (k j : ℕ) (key : Option ℕ)
      → key ≡ some k
      → same_option key (some j) ≡ false
      → (j == k) ≡ false
  key_differs k j none e h = cc
  key_differs k j (some i) e h = ground (arith, some-injective i k e)

  map_set_absent :
      (k : ℕ) (p : MemberProspect) (es : List (ℕ × MemberProspect))
      → key_of a p ≡ some k
      → IsAbsent es p
      → map_set k p es ≡ es ++ (k, p) ∷ []
  map_set_absent k p [] e h = refl
  map_set_absent k p ((j, q) ∷ es) e (h, hs) =
      rw (key_differs k j _ e h) (ap (◌∷◌ (j, q)) (map_set_absent k p es e hs))

  raised-map_values :
      (es : List (ℕ × MemberProspect)) (k : ℕ) (p : MemberProspect)
      → raised (map_values (es ++ (k, p) ∷ []))
        ≡ raised (map_values es) + invested p.investor_settings
  raised-map_values [] k p = omega arith
  raised-map_values ((j, q) ∷ es) k p = omega (arith, raised-map_values es k p)

  invested_amount-eq :
      (es : List (ℕ × MemberProspect)) {n : ℕ}
      → invested_amount es ≡ ok n
      → n ≡ raised (map_values es)
  unfolding invested_amount
  invested_amount-eq [] h = sym (ok_inj h)
  invested_amount-eq ((k, p) ∷ es) h =
      let (settings, hs, h') = >>=-eq-ok (or_throw p.investor_settings type_error) _ h in
      let (rest, hr, h'') = >>=-eq-ok (invested_amount es) _ h' in
      rw (or_throw-ok _ _ hs) (omega (arith, ok_inj h'', invested_amount-eq es hr))

  -- A prospect that is absent from the entries stays so when another's is added.
  append-IsAbsent :
      (es : List (ℕ × MemberProspect)) (k : ℕ) (p : MemberProspect) (ps : List MemberProspect)
      → key_of a p ≡ some k
      → All (IsAbsent es) ps
      → All (IsOther p) ps
      → All (IsAbsent (es ++ (k, p) ∷ [])) ps
  append-IsAbsent es k p [] e h o = tt
  append-IsAbsent es k p (q ∷ ps) e (h, hs) (o, os) =
      (All-append _ es _ h (cc, tt), append-IsAbsent es k p ps e hs os)

  invested_map-raised :
      (es : List (ℕ × MemberProspect)) (ps : List MemberProspect) {fs : List (ℕ × MemberProspect)}
      → HasDistinctKeys ps
      → All (IsAbsent es) ps
      → invested_map a es ps ≡ ok fs
      → raised (map_values fs) ≡ raised (map_values es) + raised ps
  unfolding invested_map
  invested_map-raised es [] d h e = rw (sym (ok_inj e)) (omega arith)
  invested_map-raised es (p ∷ ps) {fs} (o, d) (h, hs) e =
      let (k, hk, e') = >>=-eq-ok (or_throw (key_of a p) type_error) _ e in
      let key = or_throw-ok _ _ hk in
      let set = map_set_absent k p es key h in
      let rest =
        invested_map-raised (es ++ (k, p) ∷ []) ps {fs = fs} d (append-IsAbsent es k p ps key hs o)
          (rw (sym set) e') in
      omega (arith, rest, raised-map_values es k p)

  -- The accepted amount is added to what is raised, and the accounts stay distinct.
  module _ (amount equity : ℕ) (new : MemberProspect) where
    pub add_investment-raised :
        (ps : List MemberProspect) {qs : List MemberProspect}
        → invested new.investor_settings ≡ amount
        → add_investment a amount equity new ps ≡ ok qs
        → raised qs ≡ raised ps + amount
    unfolding add_investment
    add_investment-raised [] n e = rw (sym (ok_inj e), n) (omega arith)
    add_investment-raised (p ∷ ps) n e =
        elim (if_cases (same_option (key_of a p) (some a.id)) _ _ e) [
          | inl (c, e') ↦
              let (settings, hs, e'') = >>=-eq-ok (or_throw p.investor_settings type_error) _ e' in
              rw (sym (ok_inj e''), or_throw-ok _ _ hs) (omega arith)
          | inr (c, e') ↦
              let (rest, hr, e'') = >>=-eq-ok (add_investment a amount equity new ps) _ e' in
              rw (sym (ok_inj e'')) (omega (arith, add_investment-raised ps n hr))
        ]

    -- What holds of the keys of the prospects and of the new one holds of those that come out.
    add_investment_keys :
        (P : Option ℕ → Type 0) (ps : List MemberProspect) {qs : List MemberProspect}
        → All (λ p. P (key_of a p)) ps
        → P (key_of a new)
        → add_investment a amount equity new ps ≡ ok qs
        → All (λ p. P (key_of a p)) qs
    unfolding add_investment
    add_investment_keys P [] h n e = subst (All (λ p. P (key_of a p))) (ok_inj e) (n, tt)
    add_investment_keys P (p ∷ ps) (h, hs) n e =
        elim (if_cases (same_option (key_of a p) (some a.id)) _ _ e) [
          | inl (c, e') ↦
              let (settings, _, e'') = >>=-eq-ok (or_throw p.investor_settings type_error) _ e' in
              subst (All (λ p. P (key_of a p))) (ok_inj e'') (h, hs)
          | inr (c, e') ↦
              let (rest, hr, e'') = >>=-eq-ok (add_investment a amount equity new ps) _ e' in
              subst (All (λ p. P (key_of a p))) (ok_inj e'') (h, add_investment_keys P ps hs n hr)
        ]

    pub add_investment-HasDistinctKeys :
        (ps : List MemberProspect) {qs : List MemberProspect}
        → key_of a new ≡ some a.id
        → HasDistinctKeys ps
        → add_investment a amount equity new ps ≡ ok qs
        → HasDistinctKeys qs
    unfolding add_investment
    add_investment-HasDistinctKeys [] n d e = subst HasDistinctKeys (ok_inj e) (tt, tt)
    add_investment-HasDistinctKeys (p ∷ ps) n (o, d) e =
        elim (if_cases (same_option (key_of a p) (some a.id)) _ _ e) [
          | inl (c, e') ↦
              let (settings, _, e'') = >>=-eq-ok (or_throw p.investor_settings type_error) _ e' in
              subst HasDistinctKeys (ok_inj e'') (o, d)
          | inr (c, e') ↦
              let (rest, hr, e'') = >>=-eq-ok (add_investment a amount equity new ps) _ e' in
              subst HasDistinctKeys (ok_inj e'') (
                add_investment_keys (λ k. same_option k (key_of a p) ≡ false) ps o
                    (rw n (same_option_sym (key_of a p) (some a.id) c)) hr,
                add_investment-HasDistinctKeys ps n d hr,
              )
        ]

  nil-IsAbsent : (ps : List MemberProspect) → All (IsAbsent []) ps
  nil-IsAbsent [] = tt
  nil-IsAbsent (p ∷ ps) = (tt, nil-IsAbsent ps)

  pub plan-raised :
      (amount : ℕ) (settings : OfferInvestorSettings) (ps : List MemberProspect) {p : Plan}
      → HasDistinctKeys ps
      → plan a amount settings ps ≡ ok p
      → (p.invested ≡ raised ps) × (raised ps + amount ≤ settings.amount)
  unfolding plan
  plan-raised amount settings ps d e =
      let (es, he, e1) = >>=-eq-ok (invested_map a [] ps) _ e in
      let (n, hn, e2) = >>=-eq-ok (invested_amount es) _ e1 in
      let (_, hc, e3) = >>=-eq-ok (throw_if (ltb settings.amount (n + amount)) _) _ e2 in
      let (equity, _, e4) = >>=-eq-ok (equity_allocation amount settings) _ e3 in
      let total = invested_amount-eq es hn in
      let map = invested_map-raised [] ps d (nil-IsAbsent ps) he in
      let cap = throw_if-ok (ltb settings.amount (n + amount)) _ hc in
      rw (sym (ok_inj e4)) (omega (arith, total, map), ground (arith, total, map, cap))

  pub new_prospect_key :
      (org_id amount equity : ℕ) → key_of a (new_prospect a org_id amount equity) ≡ some a.id
  new_prospect_key org_id amount equity = elim (Bool-cases a.is_user) [
    | inl e ↦ rw e refl
    | inr e ↦ rw e refl
  ]
