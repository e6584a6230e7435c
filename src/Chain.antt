-- ===== src/Chain.antt =====
-- The on-chain anchor and what watches it: registry_chain/{anchor,publish}.py, registry_mirror/
-- app.py and transparency/{auditor,app}.py under blindage/. The chain and the HTTP client are
-- parameters.
pub mod Tests
pub mod Cache
pub mod Mirror
pub mod Audit
pub mod Publish
pub mod Log
