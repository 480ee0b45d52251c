-- ===== src/Kernel/Console/Keys.antt =====
-- `consoleintr` against line editing on lists.
