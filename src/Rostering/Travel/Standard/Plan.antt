-- ===== src/Rostering/Travel/Standard/Plan.antt =====
-- The instants of a standard plan that the code accepts.
