-- ===== src/Conf.antt =====
-- src/lingx/core/conf_file.cc and conf_file.h: the configuration language, in three layers: tokens,
-- the directive that a token sequence names, and the loop over a file, a block or a parameter.
pub mod Lexer
pub mod Directives
pub mod Parse
pub mod Values
