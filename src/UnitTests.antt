-- ===== src/UnitTests.antt =====
-- The tests that stand beside the code, as statements about the model of that code, and that the model
-- passes them.
mod Common
mod Sizes
mod Runtime
