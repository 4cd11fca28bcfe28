-- ===== src/Lwip.antt =====
-- examples/native-lwip/main: the shell commands of the lwIP test application.
pub mod Hex
pub mod Sock
pub mod Udp
pub mod Ip
pub mod Tcp
