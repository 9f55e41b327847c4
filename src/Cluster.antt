-- ===== src/Cluster.antt =====
-- Clients and storage nodes together: what a client sends of a file, what nodes make of it
-- (storagenode.go), and what the client that asks for the file (client.go) gets.
pub mod Fetched
pub mod Whole
