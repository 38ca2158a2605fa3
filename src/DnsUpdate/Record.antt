-- ===== src/DnsUpdate/Record.antt =====
-- pkg/dnsupdate/record.go. `net.ParseIP` with `To4` is the parameter `parse_ipv4`: the text of the
-- IPv4 address that a text names; `parse_ipv6` is the same for the addresses that `To4` refuses.
-- `caa_parts` is what `ToRR` reads with `strings.SplitN` and `strconv.ParseUint`, `decimal` is `%d`.
use Prim.Native.String.{◌++◌ as append}
use dnsweaver.Base.{
  ℕ, String, Bool, Option, none, some, List, [], ◌∷◌, if◌then◌else◌, nat_eq, ◌==◌, ◌||◌, any,
}

-- the record types that the package names
pub data RrType : Type 0 where
  a ns cname ptr mx txt aaaa srv caa : RrType
  unlisted : ℕ → RrType

abbrev type_number : RrType → ℕ
type_number a = 1
type_number ns = 2
type_number cname = 5
type_number ptr = 12
type_number mx = 15
type_number txt = 16
type_number aaaa = 28
type_number srv = 33
type_number caa = 257
type_number (unlisted n) = n

abbrev pub same_type : RrType → RrType → Bool
same_type s t = nat_eq (type_number s) (type_number t)

pub record Record : Type 0 where
  pub name : String
  pub type : RrType
  pub ttl : ℕ
  pub rdata : String
  pub priority : ℕ
  pub weight : ℕ
  pub port : ℕ

-- The resource records of the DNS library, with an address as its text.
pub data Body : Type 0 where
  a : String → Body
  aaaa : String → Body
  cname : String → Body
  txt : List String → Body
  mx : ℕ → String → Body
  srv : ℕ → ℕ → ℕ → String → Body
  ptr : String → Body
  ns : String → Body
  caa : ℕ → String → String → Body
  unsupported : Body

pub record Rr : Type 0 where
  pub name : String
  pub type : RrType
  pub ttl : ℕ
  pub body : Body

-- strings.HasSuffix
unfoldable pub has_suffix : String → String → Bool
has_suffix String.[] suffix = "" == suffix
has_suffix (String.◌∷◌ c s) suffix = String.◌∷◌ c s == suffix || has_suffix s suffix

-- a name with its final dot
unfoldable pub dotted : String → String
unfolding has_suffix
dotted name = if has_suffix name "." then name else append name "."

-- strings.Join(parts, " ")
unfoldable pub join_words : List String → String
join_words [] = ""
join_words (w ∷ []) = w
join_words (w ∷ v ∷ ws) = append w (append " " (join_words (v ∷ ws)))

module _ (parse_ipv4 parse_ipv6 : String → Option String)
    (caa_parts : String → Option (ℕ × String × String)) where
  abbrev body_of_caa : Option (ℕ × String × String) → Option Body
  body_of_caa none = none
  body_of_caa (some (flag, tag, value)) = some (Body.caa flag tag value)

  abbrev body_of : (String → Body) → Option String → Option Body
  body_of make none = none
  body_of make (some s) = some (make s)

  -- the cases of `ToRR`
  body_of_record : Record → Option Body
  unfolding dotted
  body_of_record r = elim r.type [
    | a ↦ body_of Body.a (parse_ipv4 r.rdata)
    | aaaa ↦ body_of Body.aaaa (parse_ipv6 r.rdata)
    | cname ↦ some (Body.cname (dotted r.rdata))
    | txt ↦ some (Body.txt (r.rdata ∷ []))
    | mx ↦ some (Body.mx r.priority (dotted r.rdata))
    | srv ↦ some (Body.srv r.priority r.weight r.port (dotted r.rdata))
    | ptr ↦ some (Body.ptr (dotted r.rdata))
    | ns ↦ some (Body.ns (dotted r.rdata))
    | caa ↦ body_of_caa (caa_parts r.rdata)
    | unlisted _ ↦ none
  ]

  -- `ToRR`, without the text of its errors
  pub to_rr : Record → Option Rr
  unfolding body_of_record
  to_rr r = elim (body_of_record r) [
    | none ↦ none
    | some body ↦ some (record { name = dotted r.name; type = r.type; ttl = r.ttl; body = body })
  ]

module _ (decimal : ℕ → String) where
  abbrev record_of : Rr → String → ℕ → ℕ → ℕ → Record
  record_of rr rdata priority weight port = record {
    name = rr.name;
    type = rr.type;
    ttl = rr.ttl;
    rdata = rdata;
    priority = priority;
    weight = weight;
    port = port;
  }

  -- `RecordFromRR`
  unfoldable pub record_from_rr : Rr → Option Record
  unfolding join_words
  record_from_rr rr = elim rr.body [
    | a ip ↦ some (record_of rr ip 0 0 0)
    | aaaa ip ↦ some (record_of rr ip 0 0 0)
    | cname target ↦ some (record_of rr target 0 0 0)
    | txt strings ↦ some (record_of rr (join_words strings) 0 0 0)
    | mx preference mailserver ↦ some (record_of rr mailserver preference 0 0)
    | srv priority weight port target ↦ some (record_of rr target priority weight port)
    | ptr target ↦ some (record_of rr target 0 0 0)
    | ns nameserver ↦ some (record_of rr nameserver 0 0 0)
    | caa flag tag value ↦
        some
          (record_of rr (append (decimal flag) (append " " (append tag (append " " value)))) 0 0 0)
    | unsupported ↦ none
  ]

-- `SupportedTypes` and `IsTypeSupported`
abbrev supported_types : List RrType
supported_types = a ∷ aaaa ∷ cname ∷ txt ∷ mx ∷ srv ∷ ptr ∷ ns ∷ caa ∷ []

pub is_type_supported : RrType → Bool
is_type_supported t = any (λ s. same_type s t) supported_types
