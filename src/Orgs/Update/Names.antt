-- ===== src/Orgs/Update/Names.antt =====
-- Writing an organization (src/orgs/orgs.service.ts) and the unique usernames
-- (src/orgs/schema/org.schema.ts).
use mathlib.Core.Path.{subst}
use impact_wallet_server.Base.{
  ℕ, ◌≡◌, refl, sym, ◌∙◌, ◌≢◌, inl, inr, Bool, false, none, List, [], ◌∷◌, ◌==◌, ==_iff, is_nil,
  find, update_first, arith, Bool-cases, same_text_sym,
}
use impact_wallet_server.Orgs.Schema.{Org}
use impact_wallet_server.Orgs.Mint.{has_id}
use impact_wallet_server.Orgs.Create.{same_username}
use impact_wallet_server.Orgs.Create.Founded.{HasUniqueNames}
use impact_wallet_server.Orgs.Update.{is_other_named}

-- No two organizations have the same id.
abbrev pub HasUniqueIds : List Org → Type 0
HasUniqueIds [] = Unit
HasUniqueIds (o ∷ os) = (find (has_id o.id) os ≡ none) × HasUniqueIds os

find-none-head : (p : Org → Bool) (x : Org) (os : List Org) → find p (x ∷ os) ≡ none → p x ≡ false
find-none-head p x os h = ground arith

find-none-tail :
    (p : Org → Bool) (x : Org) (os : List Org) → find p (x ∷ os) ≡ none → find p os ≡ none
find-none-tail p x os h = ground arith

not_named :
    (o x : Org) → (x.id == o.id) ≡ false → is_other_named o x ≡ false → same_username o x ≡ false
not_named o x h k = ground arith

find-none_named :
    (o : Org) (os : List Org)
    → find (has_id o.id) os ≡ none
    → find (is_other_named o) os ≡ none
    → find (same_username o) os ≡ none
find-none_named o [] h k = refl
find-none_named o (x ∷ os) h k = ground (arith, find-none_named o os)

find-update_named :
    (i : ℕ) (o x : Org) (os : List Org)
    → find (same_username x) os ≡ none
    → same_username x o ≡ false
    → find (same_username x) (update_first (has_id i) (λ y. o) os) ≡ none
find-update_named i o x [] h k = refl
find-update_named i o x (y ∷ os) h k = ground (arith, find-update_named i o x os)

pub HasUniqueNames-update :
    (o : Org) (os : List Org)
    → HasUniqueIds os
    → HasUniqueNames os
    → find (is_other_named o) os ≡ none
    → HasUniqueNames (update_first (has_id o.id) (λ y. o) os)
HasUniqueNames-update o [] d u k = tt
HasUniqueNames-update o (x ∷ os) d u k = elim (Bool-cases (x.id == o.id)) [
  | inl same ↦
      let eq : x.id ≡ o.id = (==_iff x.id o.id).0 same in
      let alone : find (has_id o.id) os ≡ none = subst (λ i. find (has_id i) os ≡ none) eq d.0 in
      rw same (find-none_named o os alone (find-none-tail (is_other_named o) x os k), u.1)
  | inr other ↦
      let differ : same_username o x ≡ false =
        not_named o x other (find-none-head (is_other_named o) x os k) in
      rw other (
        find-update_named o.id o x os u.0 (same_text_sym x.username o.username ∙ differ),
        HasUniqueNames-update o os d.1 u.1 (find-none-tail (is_other_named o) x os k),
      )
]

pub find-update_other :
    (i j : ℕ) (o : Org) (os : List Org)
    → o.id ≡ i
    → j ≢ i
    → find (has_id j) (update_first (has_id i) (λ y. o) os) ≡ find (has_id j) os
find-update_other i j o [] e n = refl
find-update_other i j o (x ∷ os) e n = ground (arith, find-update_other i j o os)

has_other_id : (i : ℕ) (o : Org) (j : ℕ) → o.id ≡ i → (j == i) ≡ false → has_id j o ≡ false
has_other_id i o j e c = ground arith

find_id-write :
    (i : ℕ) (o : Org) (j : ℕ) (os : List Org)
    → find (has_id j) os ≡ none
    → has_id j o ≡ false
    → find (has_id j) (update_first (has_id i) (λ y. o) os) ≡ none
find_id-write i o j [] h k = refl
find_id-write i o j (y ∷ os) h k = ground (arith, find_id-write i o j os)

pub HasUniqueIds-write :
    (i : ℕ) (o : Org) (os : List Org)
    → o.id ≡ i
    → HasUniqueIds os
    → HasUniqueIds (update_first (has_id i) (λ y. o) os)
HasUniqueIds-write i o [] e h = tt
HasUniqueIds-write i o (y ∷ os) e h = elim (Bool-cases (y.id == i)) [
  | inl c ↦
      let same : y.id ≡ o.id = (==_iff y.id i).0 c ∙ sym e in
      rw c (subst (λ n. find (has_id n) os ≡ none) same h.0, h.1)
  | inr c ↦
      rw c
        (find_id-write i o y.id os h.0 (has_other_id i o y.id e c), HasUniqueIds-write i o os e h.1)
]

pub is_nil-find-write :
    (j i : ℕ) (o : Org) (os : List Org)
    → o.id ≡ i
    → is_nil (find (has_id j) (update_first (has_id i) (λ y. o) os)) ≡ is_nil (find (has_id j) os)
is_nil-find-write j i o [] e = refl
is_nil-find-write j i o (y ∷ os) e = ground (arith, is_nil-find-write j i o os)
