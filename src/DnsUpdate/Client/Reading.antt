-- ===== src/DnsUpdate/Client/Reading.antt =====
-- What `Query` makes of the answers of a server.
use dnsweaver.Base.{ℕ, String, ◌≡◌, refl, false, List, [], ◌∷◌}
use package.dnsweaver.DnsUpdate.Record.{Record, txt, Body, dotted, join_words, record_from_rr}
use package.dnsweaver.DnsUpdate.Client.{
  Outcome, ok, Message, question, Response, success, name_error, query, queried, records_of,
}

-- The answer of a server that holds these strings in one TXT record of the name, or no record.
abbrev pub txt_answer : String → ℕ → List String → Response
txt_answer name ttl [] = record { rcode = name_error; answer = []; is_tsig = false }
txt_answer name ttl (h ∷ hs) = record {
  rcode = success;
  answer = record { name = name; type = txt; ttl = ttl; body = Body.txt (h ∷ hs) } ∷ [];
  is_tsig = false;
}

-- the record that `Query` makes of it
abbrev pub txt_records : String → ℕ → List String → List Record
txt_records name ttl [] = []
txt_records name ttl (h ∷ hs) =
    record {
      name = name;
      type = txt;
      ttl = ttl;
      rdata = join_words (h ∷ hs);
      priority = 0;
      weight = 0;
      port = 0;
    }
    ∷ []

module _ {W : Type 0} (exchange : Message → W → Outcome Response × W) (decimal : ℕ → String) where
  queried-txt_answer :
      (name : String) (ttl : ℕ) (strings : List String) (w : W)
      → queried decimal (ok (txt_answer name ttl strings), w)
        ≡ (ok (txt_records name ttl strings), w)
  unfolding queried records_of record_from_rr
  queried-txt_answer name ttl [] w = refl
  queried-txt_answer name ttl (h ∷ hs) w = refl

  pub query-txt_answer :
      (name owner : String) (ttl : ℕ) (strings : List String) (w : W)
      → exchange (question (dotted name) txt) w ≡ (ok (txt_answer owner ttl strings), w)
      → query exchange decimal name txt w ≡ (ok (txt_records owner ttl strings), w)
  unfolding query
  query-txt_answer name owner ttl strings w answers =
      rw (query, answers) (queried-txt_answer owner ttl strings w)
