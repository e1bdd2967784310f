-- ===== src/Examples.antt =====
-- Examples: each theorem that has hypotheses or takes arguments, applied to concrete data.
mod Data
mod Net
mod Network
mod Gate
mod Routing
mod Links
mod Restart
mod Database
mod Sqlite
mod Suite
