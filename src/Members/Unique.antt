-- ===== src/Members/Unique.antt =====
-- The validators and the unique index of the members (src/members/schema/member.schema.ts): what
-- every write to the collection keeps.
use impact_wallet_server.Base.{
  ℕ, ◌≡◌, refl, ◌∙◌, true, false, Option, none, some, List, [], ◌∷◌, ◌++◌, arith, find, same_option,
  All, All-append, Bool-cases, inl, inr, ◌⊎◌, ◌≢◌,
}
use impact_wallet_server.Base.Int.{ℤ}
use impact_wallet_server.Base.Http.{Result, ok, err, conflict, bad_request}
use impact_wallet_server.Members.Schema.{Member, member_valid}
use impact_wallet_server.Members.{
  same_key, save_new, create_member, add_member_to_org, update_contributed,
}

-- No two members share user, org and orgUser.
abbrev pub IsUnique : List Member → Type 0
IsUnique [] = Unit
IsUnique (m ∷ ms) = (find (same_key m) ms ≡ none) × IsUnique ms

-- Every member passes the validators, and the index holds.
pub record IsSound (ms : List Member) : Type 0 where
  pub valid : All (λ m. member_valid m ≡ true) ms
  pub unique : IsUnique ms

same_option_sym : (a b : Option ℕ) → same_option a b ≡ same_option b a
same_option_sym none none = refl
same_option_sym none (some _) = refl
same_option_sym (some _) none = refl
same_option_sym (some a) (some b) = ground arith

same_key_sym : (a b : Member) → same_key a b ≡ same_key b a
same_key_sym a b =
    ground (arith, same_option_sym a.user b.user, same_option_sym a.org_user b.org_user)

find-append_none :
    (m x : Member) (ms : List Member)
    → find (same_key x) ms ≡ none
    → same_key x m ≡ false
    → find (same_key x) (ms ++ m ∷ []) ≡ none
find-append_none m x [] h k = ground arith
find-append_none m x (y ∷ ms) h k = ground (arith, find-append_none m x ms)

IsUnique-append :
    (m : Member) (ms : List Member)
    → IsUnique ms
    → find (same_key m) ms ≡ none
    → IsUnique (ms ++ m ∷ [])
IsUnique-append m [] u e = (refl, tt)
IsUnique-append m (x ∷ ms) u e = elim (Bool-cases (same_key m x)) [
  | inl same ↦ ground arith
  | inr other ↦ (
    find-append_none m x ms u.0 (same_key_sym x m ∙ other),
    IsUnique-append m ms u.1 (ground arith),
  )
]

IsSound-append :
    (m : Member) (ms : List Member)
    → IsSound ms
    → member_valid m ≡ true
    → find (same_key m) ms ≡ none
    → IsSound (ms ++ m ∷ [])
IsSound-append m ms h v e = record {
  valid = All-append _ ms (m ∷ []) h.valid (v, tt);
  unique = IsUnique-append m ms h.unique e;
}

-- What an attempt to add the member `m` to a collection has come to.
abbrev pub Added : Member → List Member → Result (List Member) → Type 0
Added m ms (ok ms') =
    IsSound ms' × (ms' ≡ ms ++ m ∷ []) × (member_valid m ≡ true) × (find (same_key m) ms ≡ none)
Added m ms (err e) =
    ((e ≡ bad_request "ValidationError") × (member_valid m ≡ false))
    ⊎ ((e ≡ conflict "E11000") × (member_valid m ≡ true) × (find (same_key m) ms ≢ none))

-- Adding a member to an organization: a valid document with a new key is appended, with its org set,
-- and the validators and the unique index hold of the result; an invalid one is answered by 400, and
-- a repeated key by 409.
pub add_member_to_org-Added :
    (org_id : ℕ) (m : Member) (ms : List Member)
    → IsSound ms
    → Added (record m { org = org_id }) ms (add_member_to_org org_id m ms)
unfolding add_member_to_org create_member save_new
add_member_to_org-Added org_id m ms h =
    ground (arith, IsSound-append (record m { org = org_id }) ms h)

find-update_key :
    (x : Member) (i : ℕ) (d l : ℤ) (ms : List Member)
    → find (same_key x) ms ≡ none
    → find (same_key x) (update_contributed i d l ms) ≡ none
unfolding update_contributed
find-update_key x i d l [] h = refl
find-update_key x i d l (y ∷ ms) h = ground (arith, find-update_key x i d l ms)

IsUnique-update_contributed :
    (i : ℕ) (d l : ℤ) (ms : List Member) → IsUnique ms → IsUnique (update_contributed i d l ms)
unfolding update_contributed
IsUnique-update_contributed i d l [] u = tt
IsUnique-update_contributed i d l (y ∷ ms) u =
    ground (arith, find-update_key y i d l ms, IsUnique-update_contributed i d l ms u.1)

valid-update_contributed :
    (i : ℕ) (d l : ℤ) (ms : List Member)
    → All (λ m. member_valid m ≡ true) ms
    → All (λ m. member_valid m ≡ true) (update_contributed i d l ms)
unfolding update_contributed member_valid
valid-update_contributed i d l [] u = tt
valid-update_contributed i d l (y ∷ ms) u = ground (arith, valid-update_contributed i d l ms u.1)

-- Booking earned shares keeps the validators and the unique index.
update_contributed-IsSound :
    (i : ℕ) (d l : ℤ) (ms : List Member) → IsSound ms → IsSound (update_contributed i d l ms)
update_contributed-IsSound i d l ms h = record {
  valid = valid-update_contributed i d l ms h.valid;
  unique = IsUnique-update_contributed i d l ms h.unique;
}
