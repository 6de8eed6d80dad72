-- ===== src/Members/Books.antt =====
-- The books of the members: what `updateContributed` does to the sum of what they have earned, and
-- how it is taken back.
use impact_wallet_server.Base.{
  ℕ, ◌≡◌, refl, ap, ◌∙◌, Bool, false, some, List, [], ◌∷◌, ◌==◌, arith, find, Bool-cases, inl, inr,
  is_nil,
}
use mathlib.Core.Path.{subst}
use impact_wallet_server.Base.Int.{ℤ, ◌+ℤ◌, neg_ℤ, sum_by, int_laws, +ℤ-neg_ℤ}
use impact_wallet_server.Members.Schema.{Member}
use impact_wallet_server.Members.{has_id, add_earned, update_contributed}

with_books : Member → ℤ → ℤ → Member
with_books m x y = record m { contributed = x; lamports_earned = y }

swap_ℤ : (a b c : ℤ) → a +ℤ b +ℤ c ≡ a +ℤ c +ℤ b
swap_ℤ a b c = omega int_laws

add_earned_comm :
    (a b c d : ℤ) (m : Member)
    → add_earned a b (add_earned c d m) ≡ add_earned c d (add_earned a b m)
unfolding with_books
add_earned_comm a b c d m =
    ap (λ x. with_books m x (m.lamports_earned +ℤ d +ℤ b)) (swap_ℤ m.contributed c a)
    ∙ ap (λ y. with_books m (m.contributed +ℤ a +ℤ c) y) (swap_ℤ m.lamports_earned d b)

add_earned_back : (a b : ℤ) (m : Member) → add_earned (neg_ℤ a) (neg_ℤ b) (add_earned a b m) ≡ m
unfolding with_books
add_earned_back a b m =
    ap (λ x. with_books m x (m.lamports_earned +ℤ b +ℤ neg_ℤ b)) (+ℤ-neg_ℤ m.contributed a)
    ∙ ap (λ y. with_books m m.contributed y) (+ℤ-neg_ℤ m.lamports_earned b)

pub update_comm :
    (i j : ℕ) (a b c d : ℤ) (ms : List Member)
    → update_contributed i a b (update_contributed j c d ms)
      ≡ update_contributed j c d (update_contributed i a b ms)
unfolding update_contributed
update_comm i j a b c d [] = refl
update_comm i j a b c d (m ∷ ms) = elim (Bool-cases (m.id == i)) [
  | inl e ↦ elim (Bool-cases (m.id == j)) [
    | inl f ↦ rw (f, e, f) (ap (λ x. x ∷ ms) (add_earned_comm a b c d m))
    | inr f ↦ rw (f, e, f) refl
  ]
  | inr e ↦ elim (Bool-cases (m.id == j)) [
    | inl f ↦ rw (f, e, f) refl
    | inr f ↦ rw (f, e, f) (ap (◌∷◌ m) (update_comm i j a b c d ms))
  ]
]

pub update_back :
    (i : ℕ) (a b : ℤ) (ms : List Member)
    → update_contributed i (neg_ℤ a) (neg_ℤ b) (update_contributed i a b ms) ≡ ms
unfolding update_contributed
update_back i a b [] = refl
update_back i a b (m ∷ ms) = elim (Bool-cases (m.id == i)) [
  | inl e ↦ rw (e, e) (ap (λ x. x ∷ ms) (add_earned_back a b m))
  | inr e ↦ rw (e, e) (ap (λ xs. m ∷ xs) (update_back i a b ms))
]

-- Somebody has the id.
abbrev pub IsMember : List Member → ℕ → Type 0
IsMember ms i = is_nil (find (has_id i) ms) ≡ false

abbrev pub earned : Member → ℤ
earned m = m.lamports_earned

pub IsMember-update :
    (i j : ℕ) (a b : ℤ) (ms : List Member)
    → IsMember ms j
    → IsMember (update_contributed i a b ms) j
unfolding update_contributed
IsMember-update i j a b [] h = cc
IsMember-update i j a b (m ∷ ms) h = ground (arith, IsMember-update i j a b ms)

pub sum-update :
    (i : ℕ) (a b : ℤ) (ms : List Member)
    → IsMember ms i
    → sum_by earned (update_contributed i a b ms) ≡ sum_by earned ms +ℤ b
unfolding update_contributed
sum-update i a b [] h = cc
sum-update i a b (m ∷ ms) h = elim (Bool-cases (m.id == i)) [
  | inl e ↦ rw e (omega int_laws)
  | inr e ↦ rw (e, sum-update i a b ms (ground arith)) (omega int_laws)
]

pub IsMember-self : (m : Member) (ms : List Member) → IsMember (m ∷ ms) m.id
IsMember-self m ms = ground arith

pub IsMember-cons : (m : Member) (ms : List Member) (i : ℕ) → IsMember ms i → IsMember (m ∷ ms) i
IsMember-cons m ms i h = ground arith

pub find-IsMember :
    (p : Member → Bool) (ms : List Member) {m : Member} → find p ms ≡ some m → IsMember ms m.id
find-IsMember p [] h = cc
find-IsMember p (x ∷ xs) {m} h = elim (Bool-cases (p x)) [
  | inl e ↦
      let same : x ≡ m = ground arith in
      subst (λ y. IsMember (x ∷ xs) y.id) same (IsMember-self x xs)
  | inr e ↦ IsMember-cons x xs m.id (find-IsMember p xs {m = m} (ground arith))
]
