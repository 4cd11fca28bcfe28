-- ===== src/Tests.antt =====
-- The theorems at concrete systems and command lines.
mod Hex
mod Lwip
mod Tcp
mod Sockets
mod Server
mod Client
mod Bridge
mod Gnrc
mod EthMinimal
mod Libcoap
mod Xbd
