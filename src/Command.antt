-- ===== src/Command.antt =====
-- internal/cmd/rootcmd: the environment's values for flags (Env), and the way from the flags to the
-- running servers (Root, and Entry for what holds of it).
pub mod Env
pub mod Root
pub mod Entry
