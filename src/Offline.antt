-- ===== src/Offline.antt =====
-- fusion_code_modelization/offline: what is kept for work without a network.
mod Cache
mod Tests
