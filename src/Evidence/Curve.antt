-- ===== src/Evidence/Curve.antt =====
-- core/bitmod/cache_engine.py: the curve from a similarity to a confidence.
