-- ===== src/Users.antt =====
-- src/users: the user documents and the transfer of shares (`UsersService`).
pub mod Schema
pub mod Send
pub mod Create
pub mod Bonus
pub mod Withdraw
