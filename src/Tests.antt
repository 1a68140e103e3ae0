-- ===== src/Tests.antt =====
-- Every theorem of the list in Lib.antt that has conditions, applied to concrete data, and runs of
-- the definitions.
mod Files
mod Days
mod Engine
mod Server
mod Kit
mod Excelddl
mod Lifetime
mod Render
mod Sql
mod Tiers
mod Served
