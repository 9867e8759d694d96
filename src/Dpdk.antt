-- ===== src/Dpdk.antt =====
-- dpdk/main.c: the forwarder over DPDK. Which port a packet goes out at (`Ports`), and what the main
-- loop does with received packets and counts (`Loop`), the numbers on the command line (`Args`), and
-- which core reads which port (`Queues`).
pub mod Ports
pub mod PortMap
pub mod Options
pub mod Loop
pub mod Args
pub mod Queues
