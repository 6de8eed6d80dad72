-- ===== src/Account.antt =====
-- src/account: `_getTxnAmount` (src/account/account.service.ts), the items of an account's history that a
-- transaction comes to. The chain's client parses the instructions; an address that an instruction does
-- not have is `none`.
pub mod Net
use impact_wallet_server.Base.{
  ℕ, Bool, true, false, not, ◌&&◌, ◌||◌, Option, none, some, List, [], ◌∷◌, ◌++◌, if◌then◌else◌,
  find, is_nil, is_some_eq,
}
use impact_wallet_server.Base.Int.{ℤ, pos, neg_ℤ, eqb_ℤ}

-- `parsed.type`, as far as it is asked for
pub data InstructionType : Type 0 where
  transfer mint_to burn other : InstructionType

-- `parsed.info` of an instruction
pub record ParsedInstruction : Type 0 where
  pub type : InstructionType
  pub authority : Option ℕ
  pub source : Option ℕ
  pub destination : Option ℕ
  pub account : Option ℕ
  pub amount : ℕ

pub data Description : Type 0 where
  received commission sent deposited burnt withdrawn : Description

-- `TransactionHistoryDto`
pub record HistoryItem : Type 0 where
  pub amount : ℤ
  pub description : Description
  pub authority : Option ℕ

abbrev pub is_mint_to : InstructionType → Bool
is_mint_to mint_to = true
is_mint_to _ = false

abbrev pub is_burn_type : InstructionType → Bool
is_burn_type burn = true
is_burn_type _ = false

abbrev pub is_transfer : ParsedInstruction → Bool
is_transfer i = elim i.type [ transfer ↦ true | mint_to ↦ false | burn ↦ false | other ↦ false ]

module _ (address root : ℕ) where
  abbrev pub is_sent : ParsedInstruction → Bool
  is_sent i = is_some_eq i.source address

  abbrev pub is_received : ParsedInstruction → Bool
  is_received i = is_some_eq i.destination address

  abbrev pub is_sent_commission : ParsedInstruction → Bool
  is_sent_commission i = is_some_eq i.destination root && is_some_eq i.source address

  abbrev pub is_deposit : ParsedInstruction → Bool
  is_deposit i = is_mint_to i.type && is_some_eq i.account address

  abbrev pub is_burn : ParsedInstruction → Bool
  is_burn i = is_burn_type i.type && is_some_eq i.account address

  abbrev pub concerns : ParsedInstruction → Bool
  concerns i = is_sent i || is_received i || is_sent_commission i || is_deposit i || is_burn i

  abbrev pub negate_if : Bool → ℤ → ℤ
  negate_if true a = neg_ℤ a
  negate_if false a = a

  -- `amount` at the end of the loop's body
  unfoldable pub amount_in : ParsedInstruction → ℤ
  amount_in i = negate_if (is_burn i) (
      negate_if (not (is_sent_commission i) && is_sent i)
        (negate_if (is_sent_commission i) (pos i.amount)))

  abbrev pub burn_description : List ParsedInstruction → Description
  burn_description all = if is_nil (find is_transfer all) then burnt else withdrawn

  -- `description` at the end of the loop's body, from what it was before
  unfoldable pub description_in :
      List ParsedInstruction → Description → ParsedInstruction → Description
  description_in all before i =
      if is_burn i
      then burn_description all
      else if is_deposit i
      then deposited
      else if not (is_sent_commission i) && is_sent i
      then sent
      else if is_sent_commission i
      then commission
      else before

  -- The loop: the items in the order of the instructions.
  unfoldable pub items :
      List ParsedInstruction → Description → List ParsedInstruction → List HistoryItem
  unfolding amount_in description_in
  items all before [] = []
  items all before (i ∷ is) =
      let amount = amount_in i in
      let description = description_in all before i in
      let rest = items all description is in
      let skipped = items all before is in
      if not (concerns i)
      then skipped
      else if eqb_ℤ amount (pos 0)
      then rest
      else record { amount = amount; description = description; authority = i.authority } ∷ rest

  abbrev pub reversed : List HistoryItem → List HistoryItem
  reversed [] = []
  reversed (x ∷ xs) = reversed xs ++ x ∷ []

  unfoldable pub get_txn_amount : List ParsedInstruction → List HistoryItem
  unfolding items
  get_txn_amount is = reversed (items is received is)
