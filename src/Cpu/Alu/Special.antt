-- ===== src/Cpu/Alu/Special.antt =====
-- The decoder and the functions give each operation the result of its description.
