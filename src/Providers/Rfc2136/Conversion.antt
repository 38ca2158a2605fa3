-- ===== src/Providers/Rfc2136/Conversion.antt =====
-- A record that is written and read back.
use Prim.Native.Char.{code}
use Prim.Native.String.{◌++◌ as append}
use text.Mathlib.TextEquality.{Char-path}
use text.Mathlib.TextLemmas.{cons-append}
use dnsweaver.Base.{
  ℕ, ◌<◌, ◌≤◌, String, ◌≡◌, refl, ap, sym, subst, Bool, true, false, Option, none, some, arith,
  nat_eq, nat_eq_iff, trim_dot, ltb, if◌then◌else◌, Bool-cases, inl, inr,
}
use dnsweaver.Base.Chain.{◌>>=◌}
use dnsweaver.Base.Map.{Map}
use dnsweaver.Provider.Record as provider
use dnsweaver.Provider.Record.{RecordType, SrvData}
use dnsweaver.DnsUpdate.Record.{has_suffix, dotted}
use package.dnsweaver.Providers.Rfc2136.{
  clamp_ttl, ensure_fqdn, to_rfc2136_record, from_rfc2136_record,
}

-- The dot that is put behind a text is the one that is taken off.
trim_dot-append : (s : String) → trim_dot (append s ".") ≡ s
unfolding trim_dot
trim_dot-append String.[] = refl
trim_dot-append (String.◌∷◌ c String.[]) = rw (cons-append c "" ".") refl
trim_dot-append (String.◌∷◌ c (String.◌∷◌ d s)) =
    let rest : trim_dot (String.◌∷◌ d (append s ".")) ≡ String.◌∷◌ d s =
      subst (λ t. trim_dot t ≡ String.◌∷◌ d s) (cons-append d s ".")
        (trim_dot-append (String.◌∷◌ d s)) in
    rw (cons-append c (String.◌∷◌ d s) ".", cons-append d s ".") (ap (λ t. String.◌∷◌ c t) rest)

-- A text without a final dot is left as it is.
trim_dot_undotted : (s : String) → has_suffix s "." ≡ false → trim_dot s ≡ s
unfolding trim_dot has_suffix
trim_dot_undotted String.[] h = refl
trim_dot_undotted (String.◌∷◌ c String.[]) h = elim (Bool-cases (nat_eq (code c) b'.')) [
  | inl dot ↦
      let same : String.◌∷◌ c String.[] ≡ "." =
        ap (λ d. String.◌∷◌ d String.[]) (Char-path c "." ((nat_eq_iff (code c) b'.').0 dot)) in
      subst (λ s. has_suffix s "." ≡ false → trim_dot s ≡ s) (sym same) (λ no. ground (arith, no)) h
  | inr other ↦ rw (trim_dot, other) refl
]
trim_dot_undotted (String.◌∷◌ c (String.◌∷◌ d s)) h =
    ap (λ t. String.◌∷◌ c t) (trim_dot_undotted (String.◌∷◌ d s) (ground (arith, h)))

-- The name of a hostname in the zone is the hostname with a dot.
ensure_fqdn_inside :
    (zone name : String)
    → has_suffix name "." ≡ false
    → has_suffix name (trim_dot zone) ≡ true
    → ensure_fqdn zone name ≡ append name "."
unfolding ensure_fqdn
ensure_fqdn_inside zone name undotted inside = rw (undotted, inside) refl

-- A TTL of 32 bits is kept.
clamp_ttl_small : (ttl : ℕ) → ttl ≤ 4294967295 → clamp_ttl ttl ≡ ttl
unfolding clamp_ttl
clamp_ttl_small ttl small = ground (arith, small)

-- The SRV data is what the type asks for, and the type is one that can be written.
abbrev pub is_writable : RecordType → Option SrvData → Bool
is_writable RecordType.a none = true
is_writable RecordType.aaaa none = true
is_writable RecordType.cname none = true
is_writable RecordType.txt none = true
is_writable RecordType.srv (some data_) = true
is_writable _ _ = false

abbrev pub map_kept : {A B : Type 0} → (A → B) → Option A → Option B
map_kept f none = none
map_kept f (some a) = some (f a)

-- what a DNS server keeps of a record
abbrev pub kept : provider.Record → String × RecordType × String × ℕ × Option SrvData
kept r = (r.hostname, r.type, r.target, r.ttl, r.srv)

ttl_lem :
    (default_ttl ttl : ℕ)
    → 0 < ttl
    → ttl ≤ 4294967295
    → (if ltb 0 ttl then clamp_ttl ttl else clamp_ttl default_ttl) ≡ ttl
unfolding clamp_ttl
ttl_lem default_ttl ttl positive small = ground (arith, positive, small)

module _ (zone : String) (default_ttl : ℕ) (hostname target : String) (ttl : ℕ)
    (provider_id : String) (https : Option provider.HttpsData) (metadata : Map String) where
  abbrev written : RecordType → Option SrvData → provider.Record
  written type srv = record {
    hostname = hostname;
    type = type;
    target = target;
    ttl = ttl;
    provider_id = provider_id;
    srv = srv;
    https = https;
    metadata = metadata;
  }

  read_lem :
      (type : RecordType) (srv : Option SrvData)
      → has_suffix hostname "." ≡ false
      → has_suffix hostname (trim_dot zone) ≡ true
      → has_suffix target "." ≡ false
      → 0 < ttl
      → ttl ≤ 4294967295
      → is_writable type srv ≡ true
      → map_kept kept
          (to_rfc2136_record zone default_ttl (written type srv) >>= from_rfc2136_record)
        ≡ some (hostname, type, target, ttl, srv)
  unfolding to_rfc2136_record from_rfc2136_record dotted
  read_lem RecordType.a none undotted inside target_undotted positive small fits =
      rw
        (
          ensure_fqdn_inside zone hostname undotted inside,
          ttl_lem default_ttl ttl positive small,
          trim_dot-append hostname,
          trim_dot_undotted target target_undotted,
        )
        refl
  read_lem RecordType.aaaa none undotted inside target_undotted positive small fits =
      rw
        (
          ensure_fqdn_inside zone hostname undotted inside,
          ttl_lem default_ttl ttl positive small,
          trim_dot-append hostname,
          trim_dot_undotted target target_undotted,
        )
        refl
  read_lem RecordType.cname none undotted inside target_undotted positive small fits =
      rw
        (
          ensure_fqdn_inside zone hostname undotted inside,
          ttl_lem default_ttl ttl positive small,
          trim_dot-append hostname,
          target_undotted,
          trim_dot-append target,
        )
        refl
  read_lem RecordType.txt none undotted inside target_undotted positive small fits =
      rw
        (
          ensure_fqdn_inside zone hostname undotted inside,
          ttl_lem default_ttl ttl positive small,
          trim_dot-append hostname,
          trim_dot_undotted target target_undotted,
        )
        refl
  read_lem RecordType.srv (some data_) undotted inside target_undotted positive small fits =
      rw
        (
          ensure_fqdn_inside zone hostname undotted inside,
          ttl_lem default_ttl ttl positive small,
          trim_dot-append hostname,
          target_undotted,
          trim_dot-append target,
        )
        refl
  read_lem _ _ undotted inside target_undotted positive small fits = ground (arith, fits)

-- A record that a DNS server can hold, of a hostname in the zone, with a TTL of its own that fits in
-- 32 bits and without final dots, is converted to a record of the server from which the same
-- hostname, type, target, TTL and SRV data are read back.
pub from_rfc2136_record-to_rfc2136_record :
    (zone : String) (default_ttl : ℕ) (r : provider.Record)
    → has_suffix r.hostname "." ≡ false
    → has_suffix r.hostname (trim_dot zone) ≡ true
    → has_suffix r.target "." ≡ false
    → 0 < r.ttl
    → r.ttl ≤ 4294967295
    → is_writable r.type r.srv ≡ true
    → map_kept kept (to_rfc2136_record zone default_ttl r >>= from_rfc2136_record) ≡ some (kept r)
from_rfc2136_record-to_rfc2136_record zone default_ttl r =
    read_lem zone default_ttl r.hostname r.target r.ttl r.provider_id r.https r.metadata r.type
      r.srv
