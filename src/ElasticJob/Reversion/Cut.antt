-- ===== src/ElasticJob/Reversion/Cut.antt =====
-- storage/etcd.go: a node that is closed between two events of one response.
