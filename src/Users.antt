-- ===== src/Users.antt =====
-- internal/users: the password records of password.go, the policy document of policy.go, and the
-- login path of login.go, over the account store of internal/store/sqlite/users.go.
pub mod Password
pub mod Policy
pub mod Login
pub mod Store
