-- ===== src/Linter.antt =====
-- The linter of walnats/_linter: a flake8 plugin that checks calls of `walnats.Event`,
-- `walnats.Actor` and `walnats.Limits`. The tree is Python's; `ast.walk` gives the list of its nodes.
pub mod Tree
pub mod Finders
pub mod Checker
