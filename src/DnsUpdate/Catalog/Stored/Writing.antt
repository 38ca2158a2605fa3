-- ===== src/DnsUpdate/Catalog/Stored/Writing.antt =====
-- What `writeChunk` and `deleteChunk` do on a server that accepts the update.
use dnsweaver.Base.{ℕ, String, ◌≡◌, refl, false, none, []}
use package.dnsweaver.DnsUpdate.Client.{
  Outcome, ok, Message, update, Response, success, check_response,
}
use package.dnsweaver.DnsUpdate.Catalog.{Catalog, chunk_at}
use package.dnsweaver.DnsUpdate.Catalog.Stored.{answered, write_changes, write_chunk}

-- the answer to an update that was made
abbrev pub accepted : Response
accepted = record { rcode = success; answer = []; is_tsig = false }

module _ {W : Type 0} (exchange : Message → W → Outcome Response × W) (zone : String)
    (chunk_record_name : ℕ → String) where
  pub write_chunk-accepted :
      (i : ℕ) (c : Catalog) (w w' : W)
      → exchange (update zone (write_changes chunk_record_name i (chunk_at i c.chunks))) w
        ≡ (ok accepted, w')
      → write_chunk exchange zone chunk_record_name i c w ≡ (none, w')
  unfolding write_chunk answered check_response
  write_chunk-accepted i c w w' answers = rw (write_chunk, answers) refl
