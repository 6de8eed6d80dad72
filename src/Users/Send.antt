-- ===== src/Users/Send.antt =====
-- `sendAssets` (src/users/users.service.ts): shares of an organization go from the account's wallet to
-- another, and from its member to the recipient's. Shares are counted in 10^-9, so that an amount
-- times LAMPORTS_PER_SOL is the amount. The chain's transfer is a parameter; a transaction that throws
-- writes nothing.
pub mod Conservation
pub mod Lite
use mathlib.Core.Path.{subst}
use impact_wallet_server.Base.{
  ℕ, String, Bool, true, false, not, ◌&&◌, ◌||◌, Option, none, some, List, [], ◌∷◌, ◌++◌, ◌==◌,
  find, find_sound, ==_iff, is_nil, same_option, same_option-some, if◌then◌else◌, ◌≡◌, refl, sym,
  ◌⊎◌, inl, inr, arith,
}
use impact_wallet_server.Base.Int.{ℤ, pos, neg_ℤ, ltb_ℤ}
use impact_wallet_server.Base.Http.{
  Result, ok, err, ◌>>=◌, throw_if, or_throw, not_found, bad_request, thrown, type_error,
  match_option, >>=-eq-ok, ok_inj, or_throw-ok,
}
use impact_wallet_server.Members.Schema.{Member, member}
use impact_wallet_server.Members.{Saved, saved, refused, save_new, update_contributed}
use impact_wallet_server.Orgs.Schema.{Org}
use impact_wallet_server.Users.Schema.{User}
use impact_wallet_server.Payment.Split.{has_user_id, has_org_id}

pub record SendAssetsDto : Type 0 where
  pub recipient_id : Option ℕ
  pub recipient_org_id : Option ℕ
  pub recipient_address : Option ℕ
  pub amount : ℕ

-- Who receives: a user, or an organization.
pub data Recipient : Type 0 where
  user_recipient : User → Recipient
  org_recipient : Org → Recipient

-- The collections that the transaction reads and writes.
pub record SendStore : Type 0 where
  pub users : List User
  pub orgs : List Org
  pub members : List Member

-- The transfer that has been sent.
pub record Transfer : Type 0 where
  pub mint : Option ℕ
  pub wallet : Option ℕ
  pub amount : ℕ

unfoldable pub find_recipient : SendAssetsDto → SendStore → Result (Option Recipient)
find_recipient dto s = elim dto.recipient_id [
  | some i ↦ or_throw (find (has_user_id i) s.users) (not_found "User not found") >>= λ u.
      ok (some (user_recipient u))
  | none ↦ elim dto.recipient_org_id [
    | some i ↦ or_throw (find (has_org_id i) s.orgs) type_error >>= λ o. ok (some (org_recipient o))
    | none ↦ ok none
  ]
]

-- `{ $or: [{ user: account.id }, { orgUser: account.id }], org }`
abbrev pub is_account_member : ℕ → ℕ → Member → Bool
is_account_member account org_id m =
    (same_option m.user (some account) || same_option m.org_user (some account))
    && (m.org == org_id)

-- `memberQuery`
abbrev pub is_recipient_member : Recipient → ℕ → Member → Bool
is_recipient_member (user_recipient u) org_id m =
    (m.org == org_id) && same_option m.user (some u.id)
is_recipient_member (org_recipient o) org_id m =
    (m.org == org_id) && same_option m.org_user (some o.id)

abbrev pub user_of : Recipient → Option ℕ
user_of (user_recipient u) = some u.id
user_of (org_recipient o) = none

abbrev pub org_user_of : Recipient → Option ℕ
org_user_of (user_recipient u) = none
org_user_of (org_recipient o) = some o.id

-- A member document with the schema's defaults.
abbrev pub new_member : ℕ → String → Recipient → ℕ → ℤ → Member
new_member id occupation r org_id lamports = record {
  id = id;
  occupation = some occupation;
  role = member;
  impact_ratio = 1000000;
  equity_type = none;
  equity_period = none;
  compensation = none;
  is_auto_contributing = false;
  hours_per_week = 40;
  agreement = none;
  user = user_of r;
  org_user = org_user_of r;
  org = org_id;
  contributed = pos 0;
  lamports_earned = lamports;
  investor_settings = none;
  profit = pos 0;
}

-- The recipient's member gets the shares; `fresh` is the id of a new one.
unfoldable pub credit_recipient : ℕ → Recipient → ℕ → ℕ → List Member → Result (List Member)
unfolding save_new update_contributed
credit_recipient fresh r org_id amount ms = elim (find (is_recipient_member r org_id) ms) [
  | some m ↦ ok (update_contributed m.id (pos 0) (pos amount) ms)
  | none ↦ elim (save_new (new_member fresh "Receiver" r org_id (pos amount)) ms) [
    | saved ms' ↦ ok ms'
    | refused e ↦ err (thrown "MongoServerError")
  ]
]

unfoldable pub credit : ℕ → Option Recipient → ℕ → ℕ → List Member → Result (List Member)
unfolding credit_recipient
credit fresh none org_id amount ms = ok ms
credit fresh (some r) org_id amount ms = credit_recipient fresh r org_id amount ms

-- The recipient that a request names: the user of its id, or else the organization of its id, or none.
abbrev pub IsNamed : SendAssetsDto → SendStore → Option Recipient → Type 0
IsNamed dto s none = (dto.recipient_id ≡ none) × (dto.recipient_org_id ≡ none)
IsNamed dto s (some (user_recipient u)) =
    (dto.recipient_id ≡ some u.id) × (find (has_user_id u.id) s.users ≡ some u)
IsNamed dto s (some (org_recipient o)) =
    (dto.recipient_id ≡ none)
    × (dto.recipient_org_id ≡ some o.id)
    × (find (has_org_id o.id) s.orgs ≡ some o)

IsNamed-user :
    (dto : SendAssetsDto) (s : SendStore) (i : ℕ) {u : User}
    → dto.recipient_id ≡ some i
    → find (has_user_id i) s.users ≡ some u
    → IsNamed dto s (some (user_recipient u))
IsNamed-user dto s i {u} e f =
    let same = (==_iff u.id i).0 (find_sound (has_user_id i) s.users f) in
    (
      subst (λ j. dto.recipient_id ≡ some j) (sym same) e,
      subst (λ j. find (has_user_id j) s.users ≡ some u) (sym same) f,
    )

IsNamed-org :
    (dto : SendAssetsDto) (s : SendStore) (i : ℕ) {o : Org}
    → dto.recipient_id ≡ none
    → dto.recipient_org_id ≡ some i
    → find (has_org_id i) s.orgs ≡ some o
    → IsNamed dto s (some (org_recipient o))
IsNamed-org dto s i {o} n e f =
    let same = (==_iff o.id i).0 (find_sound (has_org_id i) s.orgs f) in
    (
      n,
      subst (λ j. dto.recipient_org_id ≡ some j) (sym same) e,
      subst (λ j. find (has_org_id j) s.orgs ≡ some o) (sym same) f,
    )

pub find_recipient-IsNamed :
    (dto : SendAssetsDto) (s : SendStore) {r : Option Recipient}
    → find_recipient dto s ≡ ok r
    → IsNamed dto s r
unfolding find_recipient
find_recipient-IsNamed dto s h = elim (match_option dto.recipient_id _ _ h) [
  | inr (i, e, k) ↦
      let (u, f, k') = >>=-eq-ok (or_throw (find (has_user_id i) s.users) _) _ k in
      subst (IsNamed dto s) (ok_inj k') (IsNamed-user dto s i e (or_throw-ok _ _ f))
  | inl (n, k) ↦ elim (match_option dto.recipient_org_id _ _ k) [
    | inl (m, k') ↦ subst (IsNamed dto s) (ok_inj k') (n, m)
    | inr (i, e, k') ↦
        let (o, f, k'') = >>=-eq-ok (or_throw (find (has_org_id i) s.orgs) type_error) _ k' in
        subst (IsNamed dto s) (ok_inj k'') (IsNamed-org dto s i n e (or_throw-ok _ _ f))
  ]
]

-- Whose member of the organization a document is: the account's, or the recipient's.
abbrev pub IsAccountMember : ℕ → ℕ → Member → Type 0
IsAccountMember account org_id m =
    ((m.user ≡ some account) ⊎ (m.org_user ≡ some account)) × (m.org ≡ org_id)

abbrev pub IsRecipientMember : Recipient → ℕ → Member → Type 0
IsRecipientMember (user_recipient u) org_id m = (m.org ≡ org_id) × (m.user ≡ some u.id)
IsRecipientMember (org_recipient o) org_id m = (m.org ≡ org_id) × (m.org_user ≡ some o.id)

or_cases : (b c : Bool) → (b || c) ≡ true → (b ≡ true) ⊎ (c ≡ true)
or_cases true c h = inl refl
or_cases false c h = inr h

and_both : (b c : Bool) → (b && c) ≡ true → (b ≡ true) × (c ≡ true)
and_both true c h = (refl, h)
and_both false c h = cc

pub is_account_member_sound :
    (account org_id : ℕ) (m : Member)
    → is_account_member account org_id m ≡ true
    → IsAccountMember account org_id m
is_account_member_sound account org_id m h =
    let (who, here) = and_both _ _ h in
    (
      elim (or_cases _ _ who) [
        | inl u ↦ inl (same_option-some m.user account u)
        | inr o ↦ inr (same_option-some m.org_user account o)
      ],
      (==_iff m.org org_id).0 here,
    )

pub is_recipient_member_sound :
    (r : Recipient) (org_id : ℕ) (m : Member)
    → is_recipient_member r org_id m ≡ true
    → IsRecipientMember r org_id m
is_recipient_member_sound (user_recipient u) org_id m h =
    let (here, who) = and_both _ _ h in
    ((==_iff m.org org_id).0 here, same_option-some m.user u.id who)
is_recipient_member_sound (org_recipient o) org_id m h =
    let (here, who) = and_both _ _ h in
    ((==_iff m.org org_id).0 here, same_option-some m.org_user o.id who)

-- `transfer mint wallet amount` sends the transaction and answers its signature.
module _ (transfer : Option ℕ → Option ℕ → ℕ → Result ℕ) where
  -- The block that sets `recipientAddress` a last time stands behind the `if` without an `else`.
  unfoldable pub send_assets :
      ℕ → SendAssetsDto → ℕ → ℕ → SendStore → Result (List Member × Transfer)
  unfolding find_recipient credit
  send_assets fresh dto account org_id s = find_recipient dto s >>= λ recipient.
      let recipient_address = dto.recipient_address in
      or_throw (find (is_account_member account org_id) s.members)
        (not_found "Sender member not found")
      >>= λ sender.
          throw_if (ltb_ℤ sender.lamports_earned (pos dto.amount))
            (bad_request "Not enough tokens to send")
          >>= λ _. or_throw (find (has_org_id sender.org) s.orgs) type_error >>= λ org.
              transfer org.mint recipient_address dto.amount >>= λ signature.
              credit fresh recipient org_id dto.amount s.members >>= λ ms. ok (
                update_contributed sender.id (pos 0) (neg_ℤ (pos dto.amount)) ms,
                record { mint = org.mint; wallet = recipient_address; amount = dto.amount },
              )
