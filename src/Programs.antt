-- ===== src/Programs.antt =====
-- The XDP programs of xdp_progs/.
pub mod Tx
pub mod Ping
pub mod Firewall
pub mod Fwadm
pub mod Drop
pub mod Dump
pub mod Observer
pub mod Hash
pub mod Balancer
pub mod Tunnel
pub mod AdjustTail
pub mod Redirect
pub mod Acl
pub mod Counters
pub mod Csum
pub mod Classify
