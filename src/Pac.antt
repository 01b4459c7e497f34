-- ===== src/Pac.antt =====
-- internal/pac: the evaluator of proxy auto-configuration files and its result cache.
pub mod Cache
pub mod Result
pub mod Evaluator
