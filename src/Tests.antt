-- ===== src/Tests.antt =====
-- Concrete runs of the theorems of each part.
mod Server
mod Screens
mod Session
mod Auth
mod Cards
mod Money
mod Business
mod Pages
