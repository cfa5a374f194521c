-- ===== src/Paxos/Tests/Trimming.antt =====
-- Server 1 leads a cluster of three, with three entries of which the others have accepted two.
