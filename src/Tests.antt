-- ===== src/Tests.antt =====
-- The theorems at concrete inputs, and runs of the code on them.
mod Reconciling
mod Removing
mod Tracing
mod Objects
mod Webhook
mod Client
mod Starting
mod Running
mod Flags
mod Serving
mod Entry
mod Runs
mod Copying
mod CatchingUp
mod Sending
mod Restarting
mod Reclassing
mod Pages
