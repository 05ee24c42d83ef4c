-- ===== src/Examples/Reporting.antt =====
-- The incident and the services of two events.
