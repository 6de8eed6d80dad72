-- ===== src/Offers/Lite/Equity/Bounds.antt =====
-- How far the equity that is collected is from the equity that is promised.
use mathlib.Core.Path.{subst}
use impact_wallet_server.Base.{
  ℕ, ◌+◌, ◌-◌, ◌*◌, ◌≤◌, ◌<◌, ◌≡◌, refl, sym, ap, ◌∙◌, true, false, Option, List, [], ◌∷◌, ◌++◌,
  ◌==◌, ltb, filter, length, length-append, arith, Bool-cases, inl, inr,
}
use impact_wallet_server.Base.Int.{ℤ, pos, ◌+ℤ◌, sum_by, sum_by-append, int_laws}
use impact_wallet_server.Base.Round.{
  round_div, IsNear, IsNear-zero, IsNear-add, IsNear-round_div, IsNear-whole,
}
use impact_wallet_server.Base.Http.{ok, err, >>=-eq-ok, ok_inj}
use impact_wallet_server.Members.Schema.{Member}
use impact_wallet_server.Orgs.Schema.{Org}
use impact_wallet_server.Users.Schema.{User}
use impact_wallet_server.Offers.Schema.{MemberProspect}
use impact_wallet_server.Offers.Create.{whole}
use impact_wallet_server.Offers.Lite.Equity.{
  MemberData, part_of, data_for, wallet_of, member_data, each_member, calculate_equity,
  gives_equity, skip_amount,
}

abbrev pub taken_amount : MemberData → ℤ
taken_amount d = d.amount

+ℤ_pos : (s t : ℕ) → pos s +ℤ pos t ≡ pos (s + t)
+ℤ_pos s t = omega int_laws

distribute : (a b e : ℕ) → a * e + b * e ≡ (a + b) * e
distribute a b e = grind arith

module _ (token_balance : Option ℕ → Option ℕ → ℕ) (users : List User) (orgs : List Org) where
  -- What a member holds, where it has a wallet.
  abbrev pub held_by : Option ℕ → Member → ℕ
  held_by mint m = elim (wallet_of users orgs m) [ ok w ↦ token_balance mint w | err e ↦ 0 ]

  abbrev pub held : Option ℕ → List Member → ℕ
  held mint [] = 0
  held mint (m ∷ ms) = held_by mint m + held mint ms

  -- What the parts add up to, next to the exact part `p / d`.
  abbrev IsTaken : ℕ → ℕ → List MemberData → Type 0
  IsTaken d p ds = (s : ℕ) × (sum_by taken_amount ds ≡ pos s) × IsNear d p (length ds) s

  IsTaken-none : (d p : ℕ) → p ≡ 0 → IsTaken d p []
  IsTaken-none d p e = subst (λ x. IsTaken d x []) (sym e) (0, refl, IsNear-zero d)

  IsTaken-one :
      (d p : ℕ) (x : MemberData) → 0 < d → x.amount ≡ pos (round_div p d) → IsTaken d p (x ∷ [])
  IsTaken-one d p x h e =
      (round_div p d, ap (λ a. a +ℤ pos 0) e ∙ omega int_laws, IsNear-round_div d p h)

  IsTaken-append :
      (d p q : ℕ) (xs ys : List MemberData)
      → IsTaken d p xs
      → IsTaken d q ys
      → IsTaken d (p + q) (xs ++ ys)
  IsTaken-append d p q xs ys (s, es, ns) (t, et, nt) = (
    s + t,
    sum_by-append taken_amount xs ys
        ∙ ap (λ a. a +ℤ sum_by taken_amount ys) es
        ∙ ap (λ a. pos s +ℤ a) et
        ∙ +ℤ_pos s t,
    subst (λ n. IsNear d (p + q) n (s + t)) (sym (length-append xs ys))
        (IsNear-add d p (length xs) s q (length ys) t ns nt),
  )

  data_for-IsTaken :
      (id : ℕ) (w : Option ℕ) (b equity skipped : ℕ) {ds : List MemberData}
      → skipped < whole
      → data_for id w b equity skipped ≡ ok ds
      → IsTaken (whole - skipped) (b * equity) ds
  unfolding data_for part_of
  data_for-IsTaken id w b equity skipped {ds} h e = elim (Bool-cases (b == 0)) [
    | inl z ↦
        let none_taken : [] ≡ ds = cc (e, z) in
        subst (IsTaken _ _) none_taken (IsTaken-none _ _ (grind arith))
    | inr nz ↦
        let less : ltb skipped whole ≡ true = ground arith in
        let r = round_div (b * equity) (whole - skipped) in
        let x : MemberData = record {
          member = id;
          wallet = w;
          amount = pos r;
          processed = false;
          failed = false;
        } in
        let one_taken : x ∷ [] ≡ ds = ok_inj (rw (nz, less) at e) in
        subst (IsTaken _ _) one_taken (IsTaken-one _ _ x (omega arith) refl)
  ]

  member_data-IsTaken :
      (mint : Option ℕ) (equity skipped : ℕ) (m : Member) {ds : List MemberData}
      → skipped < whole
      → member_data token_balance users orgs mint equity skipped m ≡ ok ds
      → IsTaken (whole - skipped) (held_by mint m * equity) ds
  unfolding member_data
  member_data-IsTaken mint equity skipped m {ds} h e =
      let (w, ew, e1) = >>=-eq-ok (wallet_of users orgs m) _ e in
      rw (held_by, ew) (data_for-IsTaken m.id w (token_balance mint w) equity skipped h e1)

  each_member-IsTaken :
      (mint : Option ℕ) (equity skipped : ℕ) (ms : List Member) {ds : List MemberData}
      → skipped < whole
      → each_member token_balance users orgs mint equity skipped ms ≡ ok ds
      → IsTaken (whole - skipped) (held mint ms * equity) ds
  unfolding each_member
  each_member-IsTaken mint equity skipped [] {ds} h e =
      subst (IsTaken _ _) (ok_inj e) (IsTaken-none _ _ (omega arith))
  each_member-IsTaken mint equity skipped (m ∷ ms) {ds} h e =
      let (d, ed, e1) =
        >>=-eq-ok (member_data token_balance users orgs mint equity skipped m) _ e in
      let (rest, er, e2) =
        >>=-eq-ok (each_member token_balance users orgs mint equity skipped ms) _ e1 in
      let both =
        IsTaken-append (whole - skipped) (held_by mint m * equity) (held mint ms * equity) d rest
          (member_data-IsTaken mint equity skipped m h ed)
          (each_member-IsTaken mint equity skipped ms h er) in
      subst (IsTaken _ _) (ok_inj e2) (
        subst (λ p. IsTaken (whole - skipped) p (d ++ rest))
          (distribute (held_by mint m) (held mint ms) equity) both)

  -- Where the members that give up equity hold together all that the skipped ones do not, what they
  -- give up adds up to the promised equity, up to half a unit for each of them.
  pub calculate_equity_bounds :
      (org : Org) (member : Option Member) (equity : ℕ) (skip : List MemberProspect)
      (ms : List Member) {ds : List MemberData}
      → skip_amount skip < whole
      → held org.mint (filter (gives_equity org.id member skip) ms) ≡ whole - skip_amount skip
      → calculate_equity token_balance users orgs org member equity skip ms ≡ ok ds
      → (s : ℕ) × (sum_by taken_amount ds ≡ pos s)
        × (2 * s ≤ 2 * equity + length ds)
        × (2 * equity ≤ 2 * s + length ds)
  unfolding calculate_equity
  calculate_equity_bounds org member equity skip ms {ds} h all e =
      let (s, es, ns) =
        each_member-IsTaken org.mint equity (skip_amount skip)
          (filter (gives_equity org.id member skip) ms) {ds = ds} h e in
      let (lo, hi) =
        IsNear-whole (whole - skip_amount skip) equity (length ds) s (omega arith)
          (subst (λ x. IsNear (whole - skip_amount skip) (x * equity) (length ds) s) all ns) in
      (s, es, lo, hi)
