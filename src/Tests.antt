-- ===== src/Tests.antt =====
-- Tests: a scripted environment, runs of the model at concrete inputs, and each theorem at an input.
mod World
mod Nom
mod Parser
mod Answers
mod Answered
mod Stream
mod Client
mod Commands
mod Mail
mod Readers
mod Fetched
mod Whole
mod Fields
