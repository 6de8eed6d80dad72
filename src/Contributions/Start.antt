-- ===== src/Contributions/Start.antt =====
-- `startContribution`
use impact_wallet_server.Base.{
  ℕ, ◌≡◌, ap, Bool, true, not, ◌&&◌, none, some, List, [], ◌∷◌, ◌++◌, ◌==◌, ◌≤◌, filter, find,
  is_nil, is_nil→none, ◌∙◌, if◌then◌else◌, find-none-filter, filter-append, length-append, length,
  arith, Bool-cases, inl, inr,
}
use mathlib.Core.Path.{subst, sym}
use impact_wallet_server.Base.Int.{pos}
use impact_wallet_server.Base.Http.{
  Result, ok, ◌>>=◌, ◌>>◌, throw_if, or_throw, unauthorized, forbidden, thrown, >>=-eq-ok,
  throw_if-ok, ok_inj,
}
use impact_wallet_server.Members.Schema.{Member}
use impact_wallet_server.Members.{get_member_by_id}
use impact_wallet_server.Orgs.Mint.{get_by_org_id}
use impact_wallet_server.Payment.Split.{populated_user}
use impact_wallet_server.Users.Schema.{User}
use impact_wallet_server.Contributions.Schema.{Contribution, Store}

-- A contribution of this member to this organization that goes on.
unfoldable pub is_active : ℕ → ℕ → Contribution → Bool
is_active member_id org_id c = (c.member == member_id) && (c.org == org_id) && is_nil c.stopped_at

-- `defaultTo(member.user, member.orgUser)._id`, with `user` populated and `orgUser` an id, whose
-- `_id` is itself
abbrev pub account_id_of : List User → Member → Result ℕ
account_id_of users m = elim (populated_user users m) [
  | some u ↦ ok u.id
  | none ↦ or_throw m.org_user (thrown "Cannot read properties of undefined (reading '_id')")
]

-- `new contributionModel({ … })`, with the schema's defaults
abbrev pub new_contribution : ℕ → ℕ → ℕ → Member → ℕ → Contribution
new_contribution id now org_id m member_id = record {
  id = id;
  member = member_id;
  org = org_id;
  impact_ratio = m.impact_ratio;
  stopped_at = none;
  txn_hash = none;
  txn_status = none;
  txn_error = none;
  lamports_earned = pos 0;
  split = [];
  created_at = now;
}

-- `id` and `now` are the new document's; the account is named by its id.
unfoldable pub start_contribution : ℕ → ℕ → ℕ → ℕ → ℕ → Store → Result Store
unfolding get_by_org_id get_member_by_id is_active
start_contribution id now org_id member_id account s = get_by_org_id org_id s.orgs >>= λ org.
    get_member_by_id member_id s.members >>= λ m. account_id_of s.users m >>= λ user_id.
    throw_if (not (user_id == account))
      (unauthorized "It is not allowed to start contribution for another user")
    >> throw_if (not (m.org == org_id)) (forbidden "Member does not belong to the organisation")
    >> throw_if (not (is_nil (find (is_active member_id org_id) s.contributions)))
        (forbidden "There are already active contributions")
    >> ok (record s {
      contributions = s.contributions ++ new_contribution id now org_id m member_id ∷ [];
    })

active_keys : (m o : ℕ) (c : Contribution) → is_active m o c ≡ true → (m ≡ c.member) × (o ≡ c.org)
unfolding is_active
active_keys m o c y = ground arith

-- Nobody has two contributions to an organization that go on.
abbrev pub IsSingle : List Contribution → Type 0
IsSingle cs = (m o : ℕ) → length (filter (is_active m o) cs) ≤ 1

-- The conditions under which a contribution starts.
abbrev pub MayStart : ℕ → ℕ → ℕ → Store → Type 0
MayStart org_id member_id account s =
    (m : Member) × (get_member_by_id member_id s.members ≡ ok m)
    × (m.org ≡ org_id)
    × (account_id_of s.users m ≡ ok account)
    × (find (is_active member_id org_id) s.contributions ≡ none)

at_most_one : (b : Bool) (c : Contribution) → length (if b then c ∷ [] else []) ≤ 1
at_most_one b c = ground arith

IsSingle-append :
    (c : Contribution) (cs : List Contribution)
    → find (is_active c.member c.org) cs ≡ none
    → IsSingle cs
    → IsSingle (cs ++ c ∷ [])
IsSingle-append c cs e h = λ m o. elim (Bool-cases (is_active m o c)) [
  | inl y ↦
      let (em, eo) = active_keys m o c y in
      rw (filter-append (is_active m o) cs (c ∷ []), em, eo, find-none-filter _ cs e)
        (at_most_one _ c)
  | inr n ↦
      rw (filter-append (is_active m o) cs (c ∷ []), n)
        (omega (arith, length-append (filter (is_active m o) cs) [], h m o))
]

-- Where nobody has two contributions to an organization that go on, a contribution that starts is the
-- account's own, to the member's organization, and the only one of this member there that goes on;
-- afterwards too nobody has two, and the members and the organizations are unchanged.
pub start_contribution-IsSingle :
    (id now org_id member_id account : ℕ) (s s' : Store)
    → IsSingle s.contributions
    → start_contribution id now org_id member_id account s ≡ ok s'
    → MayStart org_id member_id account s
      × IsSingle s'.contributions
      × (s'.members ≡ s.members)
      × (s'.orgs ≡ s.orgs)
unfolding start_contribution
start_contribution-IsSingle id now org_id member_id account s s' h e =
    let (org, _, e1) = >>=-eq-ok (get_by_org_id org_id s.orgs) _ e in
    let (m, em, e2) = >>=-eq-ok (get_member_by_id member_id s.members) _ e1 in
    let (u, eu, e3) = >>=-eq-ok (account_id_of s.users m) _ e2 in
    let (_, e4, done) = >>=-eq-ok _ _ e3 in
    let (_, e5, e6) = >>=-eq-ok _ _ e4 in
    let (_, e7, e8) = >>=-eq-ok _ _ e5 in
    let own = throw_if-ok (not (u == account)) _ e7 in
    let there = throw_if-ok (not (m.org == org_id)) _ e8 in
    let free =
      throw_if-ok (not (is_nil (find (is_active member_id org_id) s.contributions))) _ e6 in
    let none_active =
      is_nil→none (find (is_active member_id org_id) s.contributions) (ground (arith, free)) in
    (
      (m, em, ground arith, eu ∙ ap ok (ground arith), none_active),
      subst (λ x. IsSingle x.contributions) (ok_inj done)
          (IsSingle-append (new_contribution id now org_id m member_id) s.contributions none_active
            h),
      ap (λ x. x.members) (sym (ok_inj done)),
      ap (λ x. x.orgs) (sym (ok_inj done)),
    )
