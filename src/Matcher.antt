-- ===== src/Matcher.antt =====
-- internal/matcher/matcher.go. `regexp.Compile` is the parameter `compile_regexp`: the match of a
-- pattern that it accepts is a Boolean function. The bytes of a glob pattern are its characters.
pub mod Routing
use Prim.Native.Char.{Char, code}
use Prim.Native.String
use Prim.Native.String.{◌++◌ as append}
use text.Mathlib.Text.{starts_with}
use dnsweaver.Base.{
  ℕ, String, Bool, true, false, ◌||◌, Option, none, some, List, [], ◌∷◌, if◌then◌else◌, nat_eq,
  to_lower, trim_dot,
}

pub data PatternType : Type 0 where
  glob regex : PatternType

pub record CompiledPattern : Type 0 where
  pub original : String
  pub regex : String → Bool

pub record DomainMatcher : Type 0 where
  pub includes : List CompiledPattern
  pub excludes : List CompiledPattern
  pub pattern_type : PatternType

pub record DomainMatcherConfig : Type 0 where
  pub includes : List String
  pub excludes : List String
  pub use_regex : Bool

-- the characters that `regexp.QuoteMeta` puts a backslash before
is_meta : ℕ → Bool
is_meta n =
    nat_eq n b'\\'
    || nat_eq n b'.'
    || nat_eq n b'+'
    || nat_eq n b'*'
    || nat_eq n b'?'
    || nat_eq n b'('
    || nat_eq n b')'
    || nat_eq n b'|'
    || nat_eq n b'['
    || nat_eq n b']'
    || nat_eq n b'{'
    || nat_eq n b'}'
    || nat_eq n b'^'
    || nat_eq n b'$'

quote_meta : Char → String → String
unfolding is_meta
quote_meta c rest = if is_meta (code c) then append "\\" (String.◌∷◌ c rest) else String.◌∷◌ c rest

has_close : String → Bool
has_close String.[] = false
has_close (String.◌∷◌ c s) = nat_eq (code c) b']' || has_close s

-- the loop of `globToRegex`; `true` while a character class is copied
glob_from : Bool → String → String
unfolding quote_meta has_close
glob_from in_class String.[] = "$"
glob_from true (String.◌∷◌ c s) =
    String.◌∷◌ c (glob_from (if nat_eq (code c) b']' then false else true) s)
glob_from false (String.◌∷◌ c s) =
    let opens = if nat_eq (code c) b'[' then has_close s else false in
    let rest = glob_from opens s in
    if nat_eq (code c) b'*'
    then append ".*" rest
    else if nat_eq (code c) b'?'
    then append "[^.]" rest
    else if opens
    then String.◌∷◌ c rest
    else quote_meta c rest

-- `globToRegex`
pub glob_to_regex : String → String
unfolding glob_from
glob_to_regex pattern = append "^" (glob_from false pattern)

-- the text that `compile` hands to `regexp.Compile`
regex_text : PatternType → String → String
regex_text regex pattern = pattern
regex_text glob pattern = glob_to_regex pattern

case_insensitive : String → String
case_insensitive s = if starts_with s "(?i)" then s else append "(?i)" s

module _ (compile_regexp : String → Option (String → Bool)) where
  -- `compile`
  compile : PatternType → String → Option CompiledPattern
  unfolding case_insensitive regex_text
  compile t pattern = elim (compile_regexp (case_insensitive (regex_text t pattern))) [
    | none ↦ none
    | some re ↦ some (record { original = pattern; regex = re })
  ]

  abbrev join :
      Option CompiledPattern → Option (List CompiledPattern) → Option (List CompiledPattern)
  join (some p) (some ps) = some (p ∷ ps)
  join _ _ = none

  -- the loops of `NewDomainMatcher`
  compile_all : PatternType → List String → Option (List CompiledPattern)
  unfolding compile
  compile_all t [] = some []
  compile_all t (p ∷ ps) = join (compile t p) (compile_all t ps)

  abbrev assemble :
      PatternType
      → Option (List CompiledPattern)
      → Option (List CompiledPattern)
      → Option DomainMatcher
  assemble t (some includes) (some excludes) =
      some (record { includes = includes; excludes = excludes; pattern_type = t })
  assemble t _ _ = none

  -- `NewDomainMatcher`, without the text of its errors
  unfoldable pub new_domain_matcher : DomainMatcherConfig → Option DomainMatcher
  unfolding compile_all
  new_domain_matcher cfg =
      let t = if cfg.use_regex then regex else glob in
      elim cfg.includes [
        | [] ↦ none
        | p ∷ ps ↦ assemble t (compile_all t (p ∷ ps)) (compile_all t cfg.excludes)
      ]

matches_any : String → List CompiledPattern → Bool
matches_any hostname [] = false
matches_any hostname (p ∷ ps) = if p.regex hostname then true else matches_any hostname ps

-- `Matches`
unfoldable pub matches : DomainMatcher → String → Bool
unfolding matches_any
matches m hostname =
    let h = trim_dot (to_lower hostname) in
    if matches_any h m.excludes then false else matches_any h m.includes
