-- ===== src/Tests.antt =====
-- The theorems at concrete inputs: one organization with a member, an investor and their wallets.
mod Data
mod PaymentTests
mod BooksTests
mod OrgsTests
mod OffersTests
mod LiteTests
mod SaleTests
mod ServiceTests
mod DepositTests
mod AccountTests
mod AirdropTests
mod RequestTests
mod UserTests
mod UsageTests
