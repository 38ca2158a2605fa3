-- ===== src/Target.antt =====
-- internal/target/target.go: the ways to find a target at run time. What a resolver answers comes from
-- the network or the interfaces, and is given with each attempt.
pub mod Refresh
use dnsweaver.Base.{String, if◌then◌else◌, ◌==◌, to_lower, is_some}
use dnsweaver.Base.Blanks.{trim_space}
use dnsweaver.Provider.Ownership.Parts.{strip_prefix}

-- `Family`
pub data Family : Type 0 where
  ipv4 ipv6 : Family

-- the resolvers, `PublicResolver` with its default endpoints
pub data Resolver : Type 0 where
  public : Family → Resolver
  interface : String → Family → Resolver

-- what `Parse` returns: no resolver, a resolver, or an error
pub data Parsed : Type 0 where
  literal : Parsed
  resolved_by : Resolver → Parsed
  name_required : Parsed
  invalid_mode : Parsed

-- `m[len(prefix):]`
unfoldable pub drop_as : String → String → String
drop_as String.[] s = s
drop_as (String.◌∷◌ c p) String.[] = String.[]
drop_as (String.◌∷◌ c p) (String.◌∷◌ d s) = drop_as p s

abbrev pub named_interface : String → Family → Parsed
named_interface name family =
    if name == "" then name_required else resolved_by (interface name family)

-- `Parse`
unfoldable pub parse : String → Family → Parsed
unfolding strip_prefix drop_as trim_space
parse mode family =
    let m = trim_space mode in
    if m == ""
    then literal
    else if to_lower m == "public"
    then resolved_by (public family)
    else if is_some (strip_prefix "interface:" (to_lower m))
    then named_interface (trim_space (drop_as "interface:" m)) family
    else invalid_mode
