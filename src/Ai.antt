-- ===== src/Ai.antt =====
-- apps/api/app/ai and apps/api/app/services/ai_explain.py: explanations of wallets and transactions by
-- a language model.
pub mod Sanitize
pub mod Characters
pub mod Words
pub mod Clean
pub mod Prompt
pub mod Providers
pub mod Service
pub mod Repeats
pub mod Cache
pub mod Stored
