-- ===== src/Provider/Mode.antt =====
-- pkg/provider/mode.go. The empty string is `unset`.
use dnsweaver.Base.{String, Bool, true, false, Option, none, some, to_lower, if◌then◌else◌, ◌==◌}
use dnsweaver.Base.Blanks.{trim_space}

pub data OperationalMode : Type 0 where
  unset managed authoritative additive : OperationalMode

-- the modes by their names
abbrev pub mode_named : String → Option OperationalMode
mode_named name =
    if name == "managed"
    then some managed
    else if name == "authoritative"
    then some authoritative
    else if name == "additive"
    then some additive
    else none

-- `ParseOperationalMode`
unfoldable pub parse_operational_mode : String → Option OperationalMode
parse_operational_mode s = if s == "" then some managed else mode_named (to_lower (trim_space s))

-- `IsValid`
unfoldable pub is_valid : OperationalMode → Bool
is_valid unset = false
is_valid _ = true

-- `AllowsDelete`
unfoldable pub allows_delete : OperationalMode → Bool
allows_delete additive = false
allows_delete _ = true

-- `RequiresOwnership`
unfoldable pub requires_ownership : OperationalMode → Bool
requires_ownership managed = true
requires_ownership unset = true
requires_ownership _ = false
