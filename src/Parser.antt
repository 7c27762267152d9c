-- ===== src/Parser.antt =====
-- src/mellowlang/parsing: the parser of expressions, from the tokens to the tree.
pub mod Result
pub mod Postfix
pub mod Atoms
pub mod Templates
pub mod Prefix
pub mod Expressions
pub mod Bounded
pub mod PostfixBounds
pub mod AtomBounds
pub mod TemplateBounds
pub mod Total
pub mod Operators
pub mod Steps
pub mod RoundTrip
pub mod TemplateScan
mod Tests
