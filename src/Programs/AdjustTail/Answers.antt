-- ===== src/Programs/AdjustTail/Answers.antt =====
-- The whole program on a frame that is too big.
