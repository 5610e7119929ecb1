-- ===== src/Tests.antt =====
-- The theorems at concrete inputs, and runs of the definitions.
mod PointerTable
mod Slots
mod Hashes
mod Lists
mod Pools
mod Memory
mod Texts
mod Ranges
mod Stacks
mod Variables
mod Files
mod Programs
mod Elements
mod Escapes
mod Objects
mod Tokens
