-- ===== src/Lint.antt =====
-- The style checker tools/cpplint.py of the SDK: the parts of it that keep state over the lines and
-- the files, those that clear strings and comments, and those that match brackets over lines. A line
-- is the list of its code points.
pub mod State
pub mod Nolint
pub mod Report
pub mod Includes
pub mod Functions
pub mod Comments
pub mod Brackets
pub mod Cleanse
pub mod Strings
pub mod Lines
pub mod FileInfo
pub mod HeaderGuard
pub mod IncludeLine
pub mod FileChecks
pub mod Reports
pub mod StyleChecks
pub mod Methods
pub mod LineChecks
pub mod Features
pub mod Spacing
pub mod HeaderIncluded
pub mod Blocks
pub mod Nesting
