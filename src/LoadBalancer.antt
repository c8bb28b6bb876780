-- ===== src/LoadBalancer.antt =====
-- fusion_code_modelization/loadbalancer: the choice of a node for a task.
pub mod Metrics
pub mod Tenths
pub mod Strategy
pub mod Balancer
