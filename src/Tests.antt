-- ===== src/Tests.antt =====
-- Runs of the model on small inputs, and each theorem at a concrete input.
mod Protocol
mod Names
mod Flow
mod Buffers
mod Server
mod Control
mod PolicyFile
mod EventQueue
mod Files
mod Client
mod Authorizers
mod Pumps
mod Cli
