-- ===== src/Airdrop/Usage.antt =====
-- `deplanWalletCheck` (src/airdrop/airdrop.service.ts) with `getTokenHistory`
-- (src/api-service/api.service.ts): how long a wallet has used DePlan in the period of the claims,
-- read page by page from the chain. Times are in seconds. The page that the chain answers, every
-- transaction of it parsed, is a parameter, and a memo is the number that it is read as.
pub mod Paged
pub mod Total
use Prim.Native.Char.{code}
use Prim.Native.String.{String, [] as no_text, ◌∷◌ as text_of}
use impact_wallet_server.Base.{
  ℕ, zero, suc, ◌+◌, ◌-◌, ◌*◌, ◌/◌, Bool, true, false, ◌&&◌, ◌||◌, Option, none, some, List, [],
  ◌∷◌, ◌==◌, ltb, leb, find, filter, same_option, if◌then◌else◌,
}
use impact_wallet_server.Base.Http.{Result, ok, err, bad_request}

pub record UsageInstruction : Type 0 where
  pub type : String
  pub authority : Option ℕ
  pub program_id : ℕ
  pub parsed : ℕ

pub record UsageTxn : Type 0 where
  pub signature : ℕ
  pub block_time : ℕ
  pub instructions : List UsageInstruction

-- `usagePerDay[dayOfPeriod]`
pub record DayUsage : Type 0 where
  pub day : ℕ
  pub times : ℕ
  pub duration : ℕ

abbrev pub lower_code : ℕ → ℕ
lower_code n = if leb 65 n && leb n 90 then n + 32 else n

-- `a.toLowerCase() === b`, for a text `b` of small letters
abbrev pub same_lower : String → String → Bool
same_lower no_text no_text = true
same_lower no_text (text_of d t) = false
same_lower (text_of c s) no_text = false
same_lower (text_of c s) (text_of d t) = (lower_code (code c) == code d) && same_lower s t

-- `TRANSFER_IX_TYPES.includes(type.toLowerCase()) && authority === deplanWallet`
abbrev pub is_own_transfer : ℕ → UsageInstruction → Bool
is_own_transfer wallet ix =
    (same_lower ix.type "transferchecked" || same_lower ix.type "transfer")
    && same_option ix.authority (some wallet)

abbrev pub is_memo : ℕ → UsageInstruction → Bool
is_memo memo_program ix = ix.program_id == memo_program

-- `Math.ceil((to - from) / 86400)`, for a time that is not before the other
abbrev pub days_between : ℕ → ℕ → ℕ
days_between from to = (to - from + 86399) / 86400

abbrev pub add_usage : ℕ → ℕ → List DayUsage → List DayUsage
add_usage day duration [] = record { day = day; times = 1; duration = duration } ∷ []
add_usage day duration (u ∷ us) =
    if u.day == day
    then record u { times = u.times + 1; duration = u.duration + duration } ∷ us
    else u ∷ add_usage day duration us

abbrev pub total_usage : List DayUsage → ℕ
total_usage [] = 0
total_usage (u ∷ us) = u.duration + total_usage us

-- `last(parsedTxns)`
abbrev pub last_txn : List UsageTxn → Option UsageTxn
last_txn [] = none
last_txn (t ∷ []) = some t
last_txn (t ∷ u ∷ ts) = last_txn (u ∷ ts)

module _ (wallet memo_program from : ℕ) where
  abbrev pub is_in_period : UsageTxn → Bool
  is_in_period t = leb from t.block_time

  -- The number in the memo of a transfer of the wallet's own.
  abbrev pub memo_of : UsageTxn → Option ℕ
  memo_of t = elim (find (is_own_transfer wallet) t.instructions) [
    | none ↦ none
    | some transfer ↦ elim (find (is_memo memo_program) t.instructions) [
      | none ↦ none
      | some memo ↦ some memo.parsed
    ]
  ]

  unfoldable pub count_txn : UsageTxn → List DayUsage → List DayUsage
  count_txn t usage =
      if is_in_period t
      then (elim (memo_of t) [
        | none ↦ usage
        | some duration ↦ add_usage (days_between from t.block_time) duration usage
      ])
      else usage

  unfoldable pub count_txns : List UsageTxn → List DayUsage → List DayUsage
  unfolding count_txn
  count_txns [] usage = usage
  count_txns (t ∷ ts) usage = count_txns ts (count_txn t usage)

  module _ (page : Option ℕ → List UsageTxn) where
    -- `getTokenHistory` leaves out what is before the period.
    unfoldable pub token_history : Option ℕ → List UsageTxn
    token_history before = filter is_in_period (page before)

    -- The `do ... while` loop, with fuel.
    unfoldable pub usage_pages : ℕ → Option ℕ → List DayUsage → Option (List DayUsage)
    unfolding token_history count_txns
    usage_pages zero before usage = none
    usage_pages (suc fuel) before usage =
        let txns = token_history before in
        let counted = count_txns txns usage in
        elim (last_txn txns) [
          | none ↦ some counted
          | some t ↦
              if is_in_period t then usage_pages fuel (some t.signature) counted else some counted
        ]

    -- `deplanWalletCheck`: the statistics that it writes, and whether it throws.
    unfoldable pub deplan_wallet_check :
        ℕ → ℕ → ℕ → Option (Option (List DayUsage) × Result (Unit {0}))
    unfolding usage_pages
    deplan_wallet_check fuel to now =
        let refusal = bad_request "Please use DePlan" in
        if ltb (days_between from now) (days_between from to)
        then some (none, err refusal)
        else elim (usage_pages fuel none []) [
          | none ↦ none
          | some usage ↦ some (
            some usage,
            (if ltb (total_usage usage) (days_between from to * 10) then err refusal else ok tt),
          )
        ]
