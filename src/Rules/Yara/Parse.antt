-- ===== src/Rules/Yara/Parse.antt =====
-- pkg/rules/yara_loader.go: from the lines of a rule file to rules. An error of a string is `none`:
-- its caller only skips the line.
pub mod Condition
pub mod Strings
pub mod Blocks
pub mod HexStrings
pub mod Ends
