-- ===== src/Tests.antt =====
-- Runs of the model on concrete inputs, and each property at an input that meets its hypotheses.
mod Samples
mod Ring
mod Routing
mod Cache
mod Table
mod Server
mod Parser
mod Response
mod Wire
mod Commands
mod Load
