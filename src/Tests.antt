-- ===== src/Tests.antt =====
-- The theorems at concrete inputs: a small environment, tables with one administrator, and runs of
-- the handlers on them.
mod Toy
mod Sessions
mod Recovery
mod Administrators
mod Answers
mod Host
mod Process
mod Accounts
mod Grants
mod Disabled
