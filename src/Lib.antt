-- ===== src/Lib.antt =====
-- The wallet server's books: members and their shares of organizations, payments that are split
-- between the holders of shares, contributions that earn shares, offers, and the airdrop.
--
-- The parts, and the files that model them (paths from the repository's root):
--   Members        src/members/members.service.ts and its schema; addMemberToOrg
--   Orgs           src/orgs/schema; of src/orgs/orgs.service.ts the token of an organization (Mint),
--                  createOrganization and createOrg, with createOrgLite (Create), and updateOrg
--                  (Update); the handlers of src/orgs/orgs.controller.ts that change an organization,
--                  and sendUsdc (Controller)
--   Users          src/users/schema; of src/users/users.service.ts createUser and restoreUser (Create),
--                  the bonus wallets (Bonus), withdrawals and sendUsdc (Withdraw) and sendAssets
--                  (Send), that of src/users/users.service.lite.ts included (Send/Lite)
--   Payment        src/payment/payment.service.ts: handleRegularPayment (Split, Batches, Regular) and
--                  performPayment (Perform); the events of CandyPay (Webhook) and the webhook of
--                  merchants (Merchant)
--   Contributions  src/contributions/contributions.service.ts
--   Account        _getTxnAmount in src/account/account.service.ts
--   Deposit        src/deposit/deposit.service.ts
--   Auth           src/auth; loginAsOrg and generateToken
--   Offers         src/offers/offers.service.ts and handleInvestmentPayment; the offers of the lite
--                  client in src/offers/offers.service.lite.ts (Lite); sales of shares (Sale), with
--                  handleAssetsSale
--   Airdrop        src/airdrop/airdrop.service.ts
--   Api            confirmTxnWithRetry and getParsedTransaction (Confirm), transfer and
--                  createAndSendTxn (Send) in src/api-service/api.service.ts
--   Tests          the theorems at concrete inputs
-- A contribution that is stopped books shares for members (Members) and an organization (Orgs) and is
-- minted and confirmed (Api); a payment reads the holders of an organization (Members) and pays
-- organizations among them in turn; an offer that is accepted makes a member; an investment collects
-- its equity from the holders (Lite/Equity) and is booked by handleInvestmentPayment. The abstract
-- machine of the offers' statuses is in Offers/Lite/Accept/Machine.
--
-- The collections of the database are lists of records, and an operation is a function from the
-- collections to the collections, with an error as a value (Base.Http). A transaction that throws
-- gives an error and no collections; an operation outside a transaction gives both. Ids, wallets and
-- mints are numbers. Amounts are whole counts of a smallest unit: credits in 10^-6, shares in 10^-9,
-- the impact ratio in 10^-6, times in milliseconds; rounding is written out (Base.Round). A new
-- document's id, the clock, the chain's answers and the balances are parameters.
--
-- What a call starts and does not await runs to its end before the next call begins.
--
-- Fuel: `normalize_amount` has one more than the excess over the amount, which is enough; the nested
-- payments have the depth of the calls, and `confirm_txn_with_retry` the number of rounds, for which
-- no bound holds in general. The pages of a wallet's history have one more than its transactions,
-- which is enough.
--
-- Not modelled: routing, files, configuration, the aggregations of the database, the signing of
-- transactions, the texts of the history, the notifications, and that writes of the database fail for
-- other reasons than its validators and its unique index. Nested payments run in turn, while the
-- source runs up to three at a time.
-- Amounts, balances and hours are whole numbers of a smallest unit, and their sums are exact. The
-- source adds doubles in the lite client's investments, the members' profits, the hours contributed and
-- the usage that the memos of a wallet tell, where a memo may besides be no number, and it rounds the
-- quotient of an airdrop's claim to 20 digits: the entries below state nothing of these sums.
pub mod Base
pub mod Members
pub mod Orgs
pub mod Users
pub mod Auth
pub mod Deposit
pub mod Account
pub mod Payment
pub mod Airdrop
pub mod Api
pub mod Contributions
pub mod Offers
pub mod Tests
