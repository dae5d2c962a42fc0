-- ===== src/Tests.antt =====
-- Runs of the models at concrete inputs, and the theorems at inputs that meet their hypotheses.
mod Gai
mod Io
mod Server
mod Sock
mod Dial
mod Web
mod Retry
mod Structures
mod Queues
mod Nonblock
mod Pool
mod Icmp
mod Icmpd
