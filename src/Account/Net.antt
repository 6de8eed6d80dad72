-- ===== src/Account/Net.antt =====
-- What a transaction does to the balance of an account, and the sum of its history items.
use impact_wallet_server.Base.{
  ℕ, ◌≡◌, refl, sym, ap, ◌∙◌, inl, inr, Bool, true, false, not, ◌&&◌, ◌||◌, Option, none, some,
  List, [], ◌∷◌, is_some_eq, is_nil, All, Bool-cases, arith,
}
use impact_wallet_server.Base.Int.{
  ℤ, pos, neg_ℤ, ◌+ℤ◌, eqb_ℤ, sum_by, sum_by-append, int_laws, pos_part, neg_part,
}
use impact_wallet_server.Account.{
  ParsedInstruction, HistoryItem, InstructionType, Description, transfer, mint_to, burn, other,
  received, is_mint_to, is_burn_type, concerns, amount_in, description_in, items, reversed,
  get_txn_amount, is_sent, is_received, is_sent_commission, is_deposit, is_burn, negate_if,
}

abbrev pub item_amount : HistoryItem → ℤ
item_amount h = h.amount

add_zero : (a b c : ℤ) → a ≡ c → b ≡ pos 0 → a ≡ b +ℤ c
add_zero a b c h k = omega (int_laws, ap pos_part h, ap neg_part h, ap pos_part k, ap neg_part k)

add_same : (a b c d : ℤ) → a ≡ b → c ≡ d → a +ℤ c ≡ b +ℤ d
add_same a b c d h k = omega (int_laws, ap pos_part h, ap neg_part h, ap pos_part k, ap neg_part k)

add_swap : (a b c : ℤ) → a ≡ c → a +ℤ (b +ℤ pos 0) ≡ b +ℤ c
add_swap a b c h = omega (int_laws, ap pos_part h, ap neg_part h)

eqb_ℤ_eq : (a b : ℤ) → eqb_ℤ a b ≡ true → a ≡ b
eqb_ℤ_eq a b h = ground arith

module _ (address root : ℕ) where
  abbrev pub part : Bool → ℕ → ℤ
  part true n = pos n
  part false n = pos 0

  -- What an instruction adds to the balance of the address, by the meaning of its type.
  unfoldable pub effect : ParsedInstruction → ℤ
  effect i =
      part (is_some_eq i.destination address) i.amount
      +ℤ neg_ℤ (part (is_some_eq i.source address) i.amount)
      +ℤ part (is_mint_to i.type && is_some_eq i.account address) i.amount
      +ℤ neg_ℤ (part (is_burn_type i.type && is_some_eq i.account address) i.amount)

  -- An instruction is a transfer between two accounts, or a mint or a burn, which has neither a source
  -- nor a destination.
  abbrev pub IsProper : ParsedInstruction → Type 0
  IsProper i =
      ((is_some_eq i.source address && is_some_eq i.destination address) ≡ false)
      × (((is_mint_to i.type || is_burn_type i.type)
            && not (is_nil i.source && is_nil i.destination))
          ≡ false)

  roles_amount :
      (s d c m b : Bool) (n : ℕ)
      → (s && d) ≡ false
      → ((m || b) && (s || d)) ≡ false
      → (m && b) ≡ false
      → (s || d || (c && s) || m || b) ≡ true
      → negate_if address root b
          (negate_if address root (not (c && s) && s) (negate_if address root (c && s) (pos n)))
        ≡ part d n +ℤ neg_ℤ (part s n) +ℤ part m n +ℤ neg_ℤ (part b n)
  roles_amount true true c m b n h1 h2 h3 h4 = cc
  roles_amount true false c true b n h1 h2 h3 h4 = cc
  roles_amount true false c false true n h1 h2 h3 h4 = cc
  roles_amount true false true false false n h1 h2 h3 h4 = omega int_laws
  roles_amount true false false false false n h1 h2 h3 h4 = omega int_laws
  roles_amount false true c true b n h1 h2 h3 h4 = cc
  roles_amount false true c false true n h1 h2 h3 h4 = cc
  roles_amount false true true false false n h1 h2 h3 h4 = omega int_laws
  roles_amount false true false false false n h1 h2 h3 h4 = omega int_laws
  roles_amount false false c true true n h1 h2 h3 h4 = cc
  roles_amount false false true true false n h1 h2 h3 h4 = omega int_laws
  roles_amount false false false true false n h1 h2 h3 h4 = omega int_laws
  roles_amount false false true false true n h1 h2 h3 h4 = omega int_laws
  roles_amount false false false false true n h1 h2 h3 h4 = omega int_laws
  roles_amount false false true false false n h1 h2 h3 h4 = cc
  roles_amount false false false false false n h1 h2 h3 h4 = cc

  -- A mint or a burn neither sends nor receives.
  no_transfer :
      (t : Bool) (source destination : Option ℕ)
      → (t && not (is_nil source && is_nil destination)) ≡ false
      → (t && (is_some_eq source address || is_some_eq destination address)) ≡ false
  no_transfer false source destination h = refl
  no_transfer true none none h = refl
  no_transfer true none (some d) h = cc
  no_transfer true (some x) none h = cc
  no_transfer true (some x) (some d) h = cc

  narrow : (m b e u : Bool) → ((m || b) && u) ≡ false → (((m && e) || (b && e)) && u) ≡ false
  narrow m b true u h = ground (arith, h)
  narrow m b false u h = ground arith

  not_both :
      (t : InstructionType) (e : Bool) → ((is_mint_to t && e) && (is_burn_type t && e)) ≡ false
  not_both transfer e = refl
  not_both mint_to true = refl
  not_both mint_to false = refl
  not_both burn e = refl
  not_both other e = refl

  amount_in-effect :
      (i : ParsedInstruction)
      → IsProper i
      → concerns address root i ≡ true
      → amount_in address root i ≡ effect i
  unfolding amount_in effect
  amount_in-effect i (a, b) h =
      let e = is_some_eq i.account address in
      roles_amount (is_sent address root i) (is_received address root i)
        (is_some_eq i.destination root) (is_deposit address root i) (is_burn address root i)
        i.amount a
        (narrow (is_mint_to i.type) (is_burn_type i.type) e _
          (no_transfer _ i.source i.destination b))
        (not_both i.type e) h

  zero_parts :
      (s d x m b : Bool) (n : ℕ)
      → (s || d || x || m || b) ≡ false
      → part d n +ℤ neg_ℤ (part s n) +ℤ part m n +ℤ neg_ℤ (part b n) ≡ pos 0
  zero_parts true d x m b n h = cc
  zero_parts false true x m b n h = cc
  zero_parts false false true m b n h = cc
  zero_parts false false false true b n h = cc
  zero_parts false false false false true n h = cc
  zero_parts false false false false false n h = omega int_laws

  -- An instruction that does not concern the address does nothing to its balance.
  effect_zero : (i : ParsedInstruction) → concerns address root i ≡ false → effect i ≡ pos 0
  unfolding effect
  effect_zero i h =
      zero_parts (is_sent address root i) (is_received address root i)
        (is_sent_commission address root i) (is_deposit address root i) (is_burn address root i)
        i.amount h

  items-effect :
      (all : List ParsedInstruction) (before : Description) (is : List ParsedInstruction)
      → All IsProper is
      → sum_by item_amount (items address root all before is) ≡ sum_by effect is
  unfolding items
  items-effect all before [] h = refl
  items-effect all before (i ∷ is) (h, hs) = elim (Bool-cases (concerns address root i)) [
    | inr c ↦ rw c (add_zero _ _ _ (items-effect all before is hs) (effect_zero i c))
    | inl c ↦
        let rest = items-effect all (description_in address root all before i) is hs in
        let same = amount_in-effect i h c in
        elim (Bool-cases (eqb_ℤ (amount_in address root i) (pos 0))) [
          | inl z ↦ rw (c, z) (add_zero _ _ _ rest (sym same ∙ eqb_ℤ_eq _ _ z))
          | inr z ↦ rw (c, z) (add_same _ _ _ _ same rest)
        ]
  ]

  reversed-sum :
      (xs : List HistoryItem)
      → sum_by item_amount (reversed address root xs) ≡ sum_by item_amount xs
  reversed-sum [] = refl
  reversed-sum (x ∷ xs) =
      sum_by-append item_amount (reversed address root xs) (x ∷ [])
      ∙ add_swap _ _ _ (reversed-sum xs)

  -- The amounts of the history items of a transaction add up to what it does to the balance of the
  -- account, given that each of its instructions is a mint, a burn, or a transfer that is not from the
  -- account to itself.
  get_txn_amount-effect :
      (is : List ParsedInstruction)
      → All IsProper is
      → sum_by item_amount (get_txn_amount address root is) ≡ sum_by effect is
  unfolding get_txn_amount
  get_txn_amount-effect is h =
      reversed-sum (items address root is received is) ∙ items-effect is received is h
