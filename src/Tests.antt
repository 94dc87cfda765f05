-- ===== src/Tests.antt =====
-- Runs, and the theorems at sample values.
mod Runs
mod Samples
mod Screens
mod Terminals
mod Emitters
mod Tabs
mod Rows
mod Mice
mod Pages
