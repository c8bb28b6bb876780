-- ===== src/Cluster.antt =====
-- fusion_code_modelization/cluster: the nodes, and the tasks that are dispatched to them.
mod Models
mod Scheduler
mod Tests
