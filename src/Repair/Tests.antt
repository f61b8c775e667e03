-- ===== src/Repair/Tests.antt =====
-- Tests of the repair.
use mneme_universal_context.Prelude.Text.{Text, codes}

-- The text `x{a[1, `, and what it becomes.
abbrev truncated : Text
truncated = codes "x{a[1, "
