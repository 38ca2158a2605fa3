-- ===== src/DnsUpdate/Catalog/Changing.antt =====
-- pkg/dnsupdate/catalog.go: the operations on the catalog. Each gives back its error, the cached
-- state, and the state of the server; `none` is a load that has not ended.
pub mod Bounded
pub mod Adding
use Prim.Native.String.{len}
use dnsweaver.Base.{
  ℕ, zero, suc, ◌-◌, String, Bool, not, ◌&&◌, Option, none, some, List, [], ◌∷◌, ◌++◌,
  if◌then◌else◌, ltb, nat_eq, ◌==◌, is_some, length, select,
}
use dnsweaver.Base.Map.{lookup, insert, delete, keys}
use package.dnsweaver.DnsUpdate.Record.{Record, RrType}
use package.dnsweaver.DnsUpdate.Client.{
  ClientError, hostname_too_long, Outcome, ok, err, Message, Response,
}
use package.dnsweaver.DnsUpdate.Catalog.{
  Catalog, new_catalog, normalize, catalog_max_hostname_len, find_chunk, with_room, set_chunk,
  chunk_at, drop_last, reindex_after_delete, pack, sort, index_from,
}
use package.dnsweaver.DnsUpdate.Catalog.Stored.{Done, load, load_once, write_chunk, delete_chunk}

-- the hostname in the first chunk with space
pub put : String → Catalog → Catalog
unfolding find_chunk with_room set_chunk chunk_at
put hostname c =
    let target = find_chunk hostname c.chunks in
    let chunks = with_room target c.chunks in
    record c {
      chunks = set_chunk target (chunk_at target chunks ++ hostname ∷ []) chunks;
      hostnames = insert hostname target c.hostnames;
    }

module _ {W : Type 0} where
  -- the end of `Add`: a failed write takes the hostname back
  pub added : ℕ → String → Catalog → Option ClientError × W → Done W
  unfolding set_chunk chunk_at drop_last
  added target hostname c (none, w) = (none, c, w)
  added target hostname c (some e, w) = (
    some e,
    record c {
      chunks = set_chunk target (drop_last (chunk_at target c.chunks)) c.chunks;
      hostnames = delete hostname c.hostnames;
    },
    w,
  )

  -- the end of `Remove`: a failed update puts the chunk and the index back
  pub removed : ℕ → String → Catalog → Catalog → Option ClientError × W → Done W
  removed i hostname before after (none, w) = (none, after, w)
  removed i hostname before after (some e, w) = (
    some e,
    record before { hostnames = insert hostname i (delete hostname before.hostnames) },
    w,
  )

module _ {W : Type 0} (exchange : Message → W → Outcome Response × W) (zone : String)
    (chunk_record_name : ℕ → String) where
  pub add_loaded : String → Done W → Done W
  unfolding added put find_chunk
  add_loaded hostname (some e, c, w) = (some e, c, w)
  add_loaded hostname (none, c, w) =
      if is_some (lookup hostname c.hostnames)
      then (none, c, w)
      else added (find_chunk hostname c.chunks) hostname (put hostname c) (
          write_chunk exchange zone chunk_record_name (find_chunk hostname c.chunks)
            (put hostname c) w)

  -- `Remove` for a hostname of chunk `i`
  pub remove_from : ℕ → String → Catalog → W → Done W
  unfolding removed reindex_after_delete set_chunk chunk_at
  remove_from i hostname c w =
      let chunk = select (λ h. not (h == hostname)) (chunk_at i c.chunks) in
      let after : Catalog = record c {
        chunks = set_chunk i chunk c.chunks;
        hostnames = delete hostname c.hostnames;
      } in
      if nat_eq (length chunk) 0 && ltb 0 i
      then removed i hostname c (reindex_after_delete i after)
          (delete_chunk exchange zone chunk_record_name i w)
      else removed i hostname c after (write_chunk exchange zone chunk_record_name i after w)

  pub remove_loaded : String → Done W → Done W
  unfolding remove_from
  remove_loaded hostname (some e, c, w) = (some e, c, w)
  remove_loaded hostname (none, c, w) = elim (lookup hostname c.hostnames) [
    | none ↦ (none, c, w)
    | some i ↦ remove_from i hostname c w
  ]

  -- the loop of `Compact` that writes the new chunks, from chunk `i` on
  pub write_chunks : ℕ → List (List String) → Catalog → W → Option ClientError × W
  write_chunks i [] c w = (none, w)
  write_chunks i (_ ∷ rest) c w =
      let (answer, w') = write_chunk exchange zone chunk_record_name i c w in
      elim answer [ some e ↦ (some e, w') | none ↦ write_chunks (suc i) rest c w' ]

  -- the loop of `Compact` over the chunks that are left over: a failure is only logged
  pub delete_extra : ℕ → ℕ → W → W
  delete_extra zero i w = w
  delete_extra (suc n) i w =
      delete_extra n (suc i) (delete_chunk exchange zone chunk_record_name i w).1

  compact_loaded : Done W → Done W
  unfolding write_chunks delete_extra pack sort index_from
  compact_loaded (some e, c, w) = (some e, c, w)
  compact_loaded (none, c, w) =
      let chunks = pack (sort (keys c.hostnames)) in
      let c' : Catalog = record c { chunks = chunks } in
      let (answer, w') = write_chunks 0 chunks c' w in
      elim answer [
        | some e ↦ (some e, c', w')
        | none ↦ (
          none,
          record c { chunks = chunks; hostnames = index_from 0 chunks [] },
          delete_extra (length c.chunks - length chunks) (length chunks) w',
        )
      ]

  -- the loop of `Clear`
  pub delete_chunks : ℕ → List (List String) → W → Option ClientError × W
  delete_chunks i [] w = (none, w)
  delete_chunks i (_ ∷ rest) w =
      let (answer, w') = delete_chunk exchange zone chunk_record_name i w in
      elim answer [ some e ↦ (some e, w') | none ↦ delete_chunks (suc i) rest w' ]

  clear_loaded : Done W → Done W
  unfolding delete_chunks
  clear_loaded (some e, c, w) = (some e, c, w)
  clear_loaded (none, c, w) =
      let (answer, w') = delete_chunks 0 c.chunks w in
      elim answer [ some e ↦ (some e, c, w') | none ↦ (none, new_catalog, w') ]

module _ {W : Type 0} (query : String → RrType → W → Outcome (List Record) × W)
    (exchange : Message → W → Outcome Response × W) (zone : String)
    (chunk_record_name : ℕ → String) where
  -- `Add`
  pub add : ℕ → String → Catalog → W → Option (Done W)
  unfolding add_loaded
  add fuel hostname c w =
      if ltb catalog_max_hostname_len (len (normalize hostname))
      then some (some hostname_too_long, c, w)
      else elim (load query chunk_record_name fuel w) [
        | none ↦ none
        | some loaded ↦
            some (add_loaded exchange zone chunk_record_name (normalize hostname) loaded)
      ]

  -- `Remove`
  pub remove : ℕ → String → W → Option (Done W)
  unfolding remove_loaded
  remove fuel hostname w = elim (load query chunk_record_name fuel w) [
    | none ↦ none
    | some loaded ↦ some (remove_loaded exchange zone chunk_record_name (normalize hostname) loaded)
  ]

  -- `Compact`
  pub compact : ℕ → Catalog → W → Option (Done W)
  unfolding compact_loaded
  compact fuel c w = elim (load_once query chunk_record_name fuel c w) [
    | none ↦ none
    | some loaded ↦ some (compact_loaded exchange zone chunk_record_name loaded)
  ]

  -- `Clear`
  pub clear : ℕ → Catalog → W → Option (Done W)
  unfolding clear_loaded
  clear fuel c w = elim (load_once query chunk_record_name fuel c w) [
    | none ↦ none
    | some loaded ↦ some (clear_loaded exchange zone chunk_record_name loaded)
  ]

-- `Hostnames`
abbrev sorted_names : {W : Type 0} → Done W → Outcome (List String) × Catalog × W
sorted_names (some e, c, w) = (err e, c, w)
sorted_names (none, c, w) = (ok (sort (keys c.hostnames)), c, w)

-- `Contains`
abbrev has_name : {W : Type 0} → String → Done W → Outcome Bool × Catalog × W
has_name hostname (some e, c, w) = (err e, c, w)
has_name hostname (none, c, w) = (ok (is_some (lookup (normalize hostname) c.hostnames)), c, w)

module _ {W : Type 0} (query : String → RrType → W → Outcome (List Record) × W)
    (chunk_record_name : ℕ → String) where
  pub hostnames : ℕ → Catalog → W → Option (Outcome (List String) × Catalog × W)
  unfolding sort
  hostnames fuel c w = elim (load_once query chunk_record_name fuel c w) [
    | none ↦ none
    | some loaded ↦ some (sorted_names loaded)
  ]

  pub contains : ℕ → String → Catalog → W → Option (Outcome Bool × Catalog × W)
  contains fuel hostname c w = elim (load_once query chunk_record_name fuel c w) [
    | none ↦ none
    | some loaded ↦ some (has_name hostname loaded)
  ]
