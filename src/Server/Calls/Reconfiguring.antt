-- ===== src/Server/Calls/Reconfiguring.antt =====
-- A configuration that `reconfigure` takes: omnipaxos/src/omni_paxos.rs.
