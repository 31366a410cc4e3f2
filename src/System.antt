-- ===== src/System.antt =====
-- How the parts work together: the daemons of two machines, and a daemon with its terminal client.
pub mod Delivery
pub mod Terminal
