-- ===== src/Hostname/Normal.antt =====
-- The canonical form of a hostname.
use Prim.Native.Char.{code}
use dnsweaver.Base.{String, ◌≡◌, ◌≢◌, refl, ap, arith, trim_dot, to_lower_idem, trim_dot-to_lower}
use dnsweaver.Hostname.{normalize_hostname}

-- The text does not end in a dot.
abbrev pub EndsPlain : String → Type 0
EndsPlain String.[] = Unit
EndsPlain (String.◌∷◌ c String.[]) = code c ≢ b'.'
EndsPlain (String.◌∷◌ c (String.◌∷◌ d s)) = EndsPlain (String.◌∷◌ d s)

trim_dot_plain : (s : String) → EndsPlain s → trim_dot s ≡ s
unfolding trim_dot
trim_dot_plain String.[] h = refl
trim_dot_plain (String.◌∷◌ c String.[]) h = ground arith
trim_dot_plain (String.◌∷◌ c (String.◌∷◌ d s)) h =
    ap (λ t. String.◌∷◌ c t) (trim_dot_plain (String.◌∷◌ d s) h)

-- The canonical form of a canonical form is itself, unless the hostname ended in two dots.
pub normalize_idem :
    (h : String)
    → EndsPlain (trim_dot h)
    → normalize_hostname (normalize_hostname h) ≡ normalize_hostname h
unfolding normalize_hostname
normalize_idem h plain =
    rw (trim_dot-to_lower (trim_dot h), trim_dot_plain (trim_dot h) plain)
      (to_lower_idem (trim_dot h))
