-- ===== src/Tests.antt =====
-- Concrete files, systems and strings, and the theorems of the library at them.
mod Glib
mod Files
mod Strings
mod Groups
mod Users
mod Accounts
mod Disposables
mod Daemons
mod Scripts
mod Configurations
mod Services
mod Clients
mod Servers
