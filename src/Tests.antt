-- ===== src/Tests.antt =====
-- The theorems at concrete inputs: small kernels that the modelled calls build from the one at boot.
mod Caps
mod Calls
mod Rings
mod Grants
mod UserRings
mod Pages
mod PageTables
mod Threads
mod Tasks
mod Messages
mod Archives
mod Keys
mod Files
mod Syscalls
