-- ===== src/Tests.antt =====
-- Runs of the definitions on concrete inputs, and the theorems applied where their hypotheses hold.
mod Data
mod RateLimits
mod Addresses
mod Wallets
mod Alerts
mod Workers
mod Services
mod Logins
mod Chain
mod Logs
mod Explanations
mod Network
mod Sessions
mod Http
mod Callers
mod InitData
mod Endpoints
