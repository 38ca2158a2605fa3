-- ===== src/Provider/Instance/Recovery.antt =====
-- What an ownership marker that an instance writes says when it is recovered at the next start.
use Prim.Native.String.{◌++◌ as append}
use text.Mathlib.TextLemmas.{nil-append, cons-append}
use dnsweaver.Base.{ℕ, sym, String, ◌≡◌, refl, ap, false, some, [], ◌∷◌, ◌==◌, eq_refl, All}
use dnsweaver.Base.Map.{Map}
use dnsweaver.Provider.Record.{type_eq}
use dnsweaver.Provider.Ownership.{
  ownership_record, ownership_record_name, extract_hostname, parse_ownership_value,
  make_ownership_value,
}
use dnsweaver.Provider.Ownership.Parts.{Lacks, strip_prefix-append}
use dnsweaver.Provider.Ownership.Rendered.{IsWritable}
use dnsweaver.Provider.Ownership.RoundTrip.{matches-make}
use dnsweaver.Provider.Instance.{recovered_hostnames}

append_assoc : (p q s : String) → append (append p q) s ≡ append p (append q s)
append_assoc String.[] q s = rw (nil-append, nil-append) refl
append_assoc (String.◌∷◌ c p) q s =
    rw (cons-append, cons-append, cons-append) (ap (String.◌∷◌ c) (append_assoc p q s))

extract-name :
    (h : String) → (h == "") ≡ false → extract_hostname (ownership_record_name h) ≡ some h
unfolding extract_hostname ownership_record_name
extract-name h e =
    rw
      (
        sym (append_assoc "_dnsweaver" "." h),
        extract_hostname,
        strip_prefix-append "_dnsweaver." h,
        e,
      )
      refl

-- The marker that an instance writes for a hostname is recovered, by the same instance and after
-- any listing that holds nothing else, as that hostname with what its value says; if the hostname is
-- not empty, the instance holds no comma, no metadata key a comma or `=`, and no value a comma.
pub recovered-written :
    (h : String) (ttl : ℕ) (id : String) (m : Map String)
    → (h == "") ≡ false
    → Lacks b',' id
    → All IsWritable m
    → recovered_hostnames id (ownership_record h ttl id m ∷ [])
      ≡ record {
        hostname = h;
        metadata = (parse_ownership_value (make_ownership_value id m)).metadata;
      }
        ∷ []
unfolding recovered_hostnames ownership_record type_eq
recovered-written h ttl id m e hid hm =
    rw (matches-make id id m hid hm, eq_refl id, extract-name h e) refl
