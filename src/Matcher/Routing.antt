-- ===== src/Matcher/Routing.antt =====
-- What `DomainMatcher.Matches` reads of a hostname.
use dnsweaver.Base.{String, ◌≡◌, refl, sym, ◌∙◌, trim_dot-to_lower, if◌then◌else◌, false}
use dnsweaver.Hostname.{normalize_hostname}
use dnsweaver.Matcher.{DomainMatcher, matches, matches_any, glob_to_regex}

matches-normalize :
    (m : DomainMatcher) (h : String)
    → matches m h ≡ (
        if matches_any (normalize_hostname h) m.excludes
        then false
        else matches_any (normalize_hostname h) m.includes)
unfolding matches normalize_hostname
matches-normalize m h = rw (trim_dot-to_lower h)

-- Hostnames with one canonical form are matched alike.
pub matches-same_name :
    (m : DomainMatcher) (g h : String)
    → normalize_hostname g ≡ normalize_hostname h
    → matches m g ≡ matches m h
matches-same_name m g h e = matches-normalize m g ∙ rw e (sym (matches-normalize m h))

glob_example : glob_to_regex "*.ex[ab.].c?" ≡ "^.*\\.ex[ab.]\\.c[^.]$"
unfolding glob_to_regex
glob_example = refl

glob_unclosed : glob_to_regex "a[b" ≡ "^a\\[b$"
unfolding glob_to_regex
glob_unclosed = refl
