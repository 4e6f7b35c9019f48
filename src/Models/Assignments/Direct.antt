-- ===== src/Models/Assignments/Direct.antt =====
-- Which bindings an assignment may make.
