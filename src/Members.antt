-- ===== src/Members.antt =====
-- src/members: the member documents and the operations of `MembersService`
-- (src/members/members.service.ts).
pub mod Schema
pub mod Unique
pub mod Books
use impact_wallet_server.Base.{
  ℕ, ◌≡◌, refl, ◌⊎◌, inl, inr, String, Bool, true, false, Option, none, some, List, [], ◌∷◌, ◌++◌,
  ◌==◌, ◌&&◌, not, if◌then◌else◌, find, update_first, same_option,
}
use impact_wallet_server.Base.Int.{ℤ, ◌+ℤ◌}
use impact_wallet_server.Base.Http.{
  Result, ok, err, thrown, conflict, bad_request, or_throw, not_found,
}
use impact_wallet_server.Members.Schema.{Member, member_valid}

abbrev pub has_id : ℕ → Member → Bool
has_id i m = m.id == i

-- `MemberSchema.index({ user: 1, org: 1, orgUser: 1 }, { unique: true })`: a missing field is an
-- index key of its own.
abbrev pub same_key : Member → Member → Bool
same_key a b = same_option a.user b.user && (a.org == b.org) && same_option a.org_user b.org_user

-- What `save` may answer: it validates the document, and the index refuses a repeated key.
pub data SaveError : Type 0 where
  validation_failed : SaveError
  duplicate_key : SaveError

pub data Saved (A : Type 0) : Type 0 where
  saved : A → Saved A
  refused : SaveError → Saved A

pub Saved-cases :
    {A : Type 0} (r : Saved A) → ((a : A) × (r ≡ saved a)) ⊎ ((e : SaveError) × (r ≡ refused e))
Saved-cases (saved a) = inl (a, refl)
Saved-cases (refused e) = inr (e, refl)

-- `new memberRepository(dto).save()` of a document that is not in the collection yet
unfoldable pub save_new : Member → List Member → Saved (List Member)
save_new m ms =
    if not (member_valid m) then refused validation_failed else elim (find (same_key m) ms) [
      | none ↦ saved (ms ++ m ∷ [])
      | some _ ↦ refused duplicate_key
    ]

unfoldable pub create_member : Member → List Member → Saved (List Member)
unfolding save_new
create_member m ms = save_new m ms

-- `OrgsService.addMemberToOrg`, which turns the database's errors into HTTP errors
unfoldable pub add_member_to_org : ℕ → Member → List Member → Result (List Member)
unfolding create_member
add_member_to_org org_id m ms = elim (create_member (record m { org = org_id }) ms) [
  | saved ms' ↦ ok ms'
  | refused duplicate_key ↦ err (conflict "E11000")
  | refused validation_failed ↦ err (bad_request "ValidationError")
]

unfoldable pub get_member_by_id : ℕ → List Member → Result Member
get_member_by_id i ms = or_throw (find (has_id i) ms) (not_found "Member not found")

-- `$inc: { contributed: duration, lamportsEarned }` on the member with this id
abbrev pub add_earned : ℤ → ℤ → Member → Member
add_earned duration lamports m = record m {
  contributed = m.contributed +ℤ duration;
  lamports_earned = m.lamports_earned +ℤ lamports;
}

unfoldable pub update_contributed : ℕ → ℤ → ℤ → List Member → List Member
update_contributed i duration lamports ms =
    update_first (has_id i) (add_earned duration lamports) ms
