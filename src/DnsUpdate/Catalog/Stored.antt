-- ===== src/DnsUpdate/Catalog/Stored.antt =====
-- pkg/dnsupdate/catalog.go: how the catalog is read from the server and written to it. `W` is the
-- state of the server, read with `Client.Query` and changed with updates. The loop that loads the
-- chunks has fuel: `none` is a loop that has not ended.
pub mod Loading
pub mod Served
pub mod Writing
use dnsweaver.Base.{
  ℕ, zero, suc, String, true, Option, none, some, List, [], ◌∷◌, ◌++◌, if◌then◌else◌,
}
use package.dnsweaver.DnsUpdate.Record.{Record, RrType, txt, Body}
use package.dnsweaver.DnsUpdate.Client.{
  ClientError, update_failed, Outcome, ok, err, Message, update, Change, delete_rrset, insert,
  Response, check_response,
}
use package.dnsweaver.DnsUpdate.Catalog.{
  Catalog, new_catalog, hostnames_of, index_chunk, sort, chunk_at, catalog_ttl,
}

-- The outcome of an operation: the error, the catalog and the server.
abbrev pub Done : Type 0 → Type 0
Done W = Option ClientError × Catalog × W

module _ {W : Type 0} (query : String → RrType → W → Outcome (List Record) × W)
    (chunk_record_name : ℕ → String) where
  -- `loadLocked` from chunk `i` on
  pub load_from : ℕ → ℕ → Catalog → W → Option (Done W)
  unfolding hostnames_of index_chunk
  load_from zero i c w = none
  load_from (suc fuel) i c w =
      let (answer, w') = query (chunk_record_name i) txt w in
      elim answer [
        | err e ↦ some (some e, c, w')
        | ok [] ↦ some (none, record c { loaded = true }, w')
        | ok (r ∷ rs) ↦
            let hostnames = hostnames_of (r ∷ rs) in
            load_from fuel (suc i)
              (record c {
                chunks = c.chunks ++ hostnames ∷ [];
                hostnames = index_chunk i hostnames c.hostnames;
              })
              w'
      ]

  -- `Load`
  pub load : ℕ → W → Option (Done W)
  unfolding load_from
  load fuel w = load_from fuel 0 new_catalog w

  -- `Hostnames`, `Contains`, `Compact` and `Clear` load only what is not loaded yet.
  pub load_once : ℕ → Catalog → W → Option (Done W)
  unfolding load
  load_once fuel c w = if c.loaded then some (none, c, w) else load fuel w

-- "Insert new record (only if chunk has entries)"
abbrev pub insertion : String → List String → List Change
insertion name [] = []
insertion name (h ∷ hs) =
    insert (record { name = name; type = txt; ttl = catalog_ttl; body = Body.txt (h ∷ hs) }) ∷ []

-- the changes of `writeChunk`
unfoldable pub write_changes : (ℕ → String) → ℕ → List String → List Change
unfolding sort
write_changes chunk_record_name i chunk =
    delete_rrset (chunk_record_name i) txt ∷ insertion (chunk_record_name i) (sort chunk)

module _ {W : Type 0} (exchange : Message → W → Outcome Response × W) (zone : String)
    (chunk_record_name : ℕ → String) where
  pub answered : Outcome Response × W → Option ClientError × W
  answered (err e, w) = (some (update_failed "exchange"), w)
  answered (ok resp, w) = (check_response resp, w)

  -- `writeChunk`
  pub write_chunk : ℕ → Catalog → W → Option ClientError × W
  unfolding answered write_changes chunk_at
  write_chunk i c w =
      answered (exchange (update zone (write_changes chunk_record_name i (chunk_at i c.chunks))) w)

  -- `deleteChunk`
  pub delete_chunk : ℕ → W → Option ClientError × W
  unfolding answered
  delete_chunk i w =
      answered (exchange (update zone (delete_rrset (chunk_record_name i) txt ∷ [])) w)
