-- ===== src/Ame.antt =====
-- Programs that check the matrix extension, apps/ame-*: the data they give to the matrix unit and
-- the results they expect. The unit itself is a parameter.
pub mod Pack4
mod Tests
