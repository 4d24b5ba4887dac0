-- ===== src/Rustc.antt =====
-- The compiler that the program is a plugin of. None of it is in the repository, so it is a
-- parameter: the types that the program handles without looking inside (`Names`), the syntax of
-- MIR and of types as far as the program matches on it (`Mir`), and the queries (`Queries`).
pub mod Names
pub mod Mir
pub mod Queries
pub mod Serialize
