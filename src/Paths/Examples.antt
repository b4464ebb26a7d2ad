-- ===== src/Paths/Examples.antt =====
-- Paths on which the theorems are applied.
