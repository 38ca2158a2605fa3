-- ===== src/DnsUpdate/Client.antt =====
-- pkg/dnsupdate/client.go. What the server and the DNS library do with a message is the parameter
-- `exchange`, over the state `W` of the server; it signs the message if a key is configured. A
-- cancelled context is an error of `exchange`. The time of the last update is left out.
pub mod Reading
use dnsweaver.Base.{
  ℕ, String, Bool, not, Option, none, some, List, [], ◌∷◌, if◌then◌else◌, ◌==◌, to_lower,
}
use package.dnsweaver.DnsUpdate.Record.{
  Record, Rr, RrType, to_rr, record_from_rr, has_suffix, dotted,
}

-- the sentinels, with the text that is put behind them
pub data ClientError : Type 0 where
  update_failed connection_failed authentication_failed invalid : String → ClientError
  record_not_found record_exists zone_mismatch hostname_too_long query_failed : ClientError

pub data Outcome {ℓ} (A : Type ℓ) : Type ℓ where
  ok : A → Outcome A
  err : ClientError → Outcome A

pub data Rcode : Type 0 where
  success name_error yx_rrset nx_rrset not_auth refused not_zone : Rcode
  other : ℕ → Rcode

-- The changes of an update: delete a set of records (class ANY), delete one, add one.
pub data Change : Type 0 where
  delete_rrset : String → RrType → Change
  remove insert : Rr → Change

pub data Message : Type 0 where
  question : String → RrType → Message
  update : String → List Change → Message

pub record Response : Type 0 where
  pub rcode : Rcode
  pub answer : List Rr
  pub is_tsig : Bool

-- `checkResponse`; `none` is a success
unfoldable pub check_response : Response → Option ClientError
check_response resp = elim resp.rcode [
  | success ↦ none
  | yx_rrset ↦ some record_exists
  | nx_rrset ↦ some record_not_found
  | not_auth ↦
      if resp.is_tsig
      then some (authentication_failed "NOTAUTH")
      else some (update_failed "server not authoritative for zone")
  | refused ↦ some (update_failed "update refused (check server policy or TSIG configuration)")
  | not_zone ↦ some zone_mismatch
  | name_error ↦ some (update_failed "NXDOMAIN")
  | other _ ↦ some (update_failed "other code")
]

-- `isInZone`
unfoldable pub is_in_zone : String → String → Bool
unfolding dotted has_suffix
is_in_zone zone fqdn = has_suffix (to_lower fqdn) (to_lower (dotted zone))

-- `validateRecord`
unfoldable pub validate_record : String → Record → Option ClientError
unfolding is_in_zone
validate_record zone r =
    if r.name == ""
    then some (invalid "record name is required")
    else if not (is_in_zone zone (dotted r.name))
    then some zone_mismatch
    else none

module _ {W : Type 0} (exchange : Message → W → Outcome Response × W) (zone : String)
    (parse_ipv4 parse_ipv6 : String → Option String)
    (caa_parts : String → Option (ℕ × String × String)) where
  -- the answer to an update
  updated : Outcome Response × W → Option ClientError × W
  updated (err e, w) = (some (update_failed "exchange"), w)
  updated (ok resp, w) = (check_response resp, w)

  abbrev bad_record : Option ClientError
  bad_record = some (invalid "invalid record")

  -- sends the changes that the record stands for
  submit : Option (List Change) → W → Option ClientError × W
  unfolding updated
  submit none w = (bad_record, w)
  submit (some changes) w = updated (exchange (update zone changes) w)

  abbrev one_change : (Rr → Change) → Option Rr → Option (List Change)
  one_change change none = none
  one_change change (some rr) = some (change rr ∷ [])

  abbrev two_changes : Option Rr → Option Rr → Option (List Change)
  two_changes (some old) (some new) = some (remove old ∷ insert new ∷ [])
  two_changes _ _ = none

  -- `Create`
  pub create : Record → W → Option ClientError × W
  unfolding submit
  create r w = elim (validate_record zone r) [
    | some e ↦ (some e, w)
    | none ↦ submit (one_change insert (to_rr parse_ipv4 parse_ipv6 caa_parts r)) w
  ]

  -- `Update`: the old record is removed and the new one added in one message
  pub update_record : Record → Record → W → Option ClientError × W
  unfolding submit
  update_record old new w = elim (validate_record zone old) [
    | some e ↦ (some e, w)
    | none ↦ elim (validate_record zone new) [
      | some e ↦ (some e, w)
      | none ↦
          submit
            (two_changes (to_rr parse_ipv4 parse_ipv6 caa_parts old)
              (to_rr parse_ipv4 parse_ipv6 caa_parts new))
            w
    ]
  ]

  -- `Delete`
  pub delete : Record → W → Option ClientError × W
  unfolding submit
  delete r w = elim (validate_record zone r) [
    | some e ↦ (some e, w)
    | none ↦ submit (one_change remove (to_rr parse_ipv4 parse_ipv6 caa_parts r)) w
  ]

  -- `DeleteAll`
  pub delete_all : String → RrType → W → Option ClientError × W
  unfolding updated
  delete_all name type w =
      if not (is_in_zone zone (dotted name))
      then (some zone_mismatch, w)
      else updated (exchange (update zone (delete_rrset (dotted name) type ∷ [])) w)

module _ (decimal : ℕ → String) where
  -- the loop of `Query`: what cannot be read is skipped
  pub records_of : List Rr → List Record
  records_of [] = []
  records_of (rr ∷ rrs) =
      let rest = records_of rrs in
      elim (record_from_rr decimal rr) [ none ↦ rest | some r ↦ r ∷ rest ]

  module _ {W : Type 0} where
    pub queried : Outcome Response × W → Outcome (List Record) × W
    unfolding records_of
    queried (err e, w) = (err query_failed, w)
    queried (ok resp, w) = elim resp.rcode [
      | success ↦ (ok (records_of resp.answer), w)
      | name_error ↦ (ok [], w)
      | _ ↦ (err query_failed, w)
    ]

module _ {W : Type 0} (exchange : Message → W → Outcome Response × W) where
  -- `Query`
  pub query : (ℕ → String) → String → RrType → W → Outcome (List Record) × W
  unfolding queried
  query decimal name type w = queried decimal (exchange (question (dotted name) type) w)

  abbrev soa : RrType
  soa = RrType.unlisted 6

  pinged : Outcome Response × W → Option ClientError × W
  pinged (err e, w) = (some (connection_failed "exchange"), w)
  pinged (ok resp, w) = elim resp.rcode [
    | success ↦ (none, w)
    | _ ↦ (some (connection_failed "server returned an error"), w)
  ]

  -- `Ping`
  pub ping : String → W → Option ClientError × W
  unfolding pinged
  ping zone w = pinged (exchange (question zone soa) w)
