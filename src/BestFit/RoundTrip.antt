-- ===== src/BestFit/RoundTrip.antt =====
-- `my_malloc` followed by `my_free` in malloc.c.
