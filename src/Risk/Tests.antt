-- ===== src/Risk/Tests.antt =====
-- The tiers at concrete inputs.
