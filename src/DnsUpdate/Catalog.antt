-- ===== src/DnsUpdate/Catalog.antt =====
-- pkg/dnsupdate/catalog.go: the catalog's cached state, its chunks and its index.
pub mod Stored
pub mod Changing
pub mod Packing
pub mod Words
pub mod Sets
use Prim.Native.Char.{Char}
use Prim.Native.String.{len, compare, ◌++◌ as append}
use text.Mathlib.Text.{is_le}
use dnsweaver.Base.Blanks.{is_blank}
use dnsweaver.Base.{
  ℕ, zero, suc, ◌+◌, String, Bool, false, not, List, [], ◌∷◌, ◌++◌, if◌then◌else◌, leb, nat_eq,
  ◌==◌, length, select, trim_dot, to_lower,
}
use dnsweaver.Base.Map.{Map, insert}
use package.dnsweaver.DnsUpdate.Record.{Record, txt, same_type}

abbrev pub catalog_max_chunk_bytes : ℕ
catalog_max_chunk_bytes = 3500

abbrev pub catalog_max_hostname_len : ℕ
catalog_max_hostname_len = 253

abbrev pub catalog_chunk_size : ℕ
catalog_chunk_size = 100

abbrev pub catalog_ttl : ℕ
catalog_ttl = 300

pub record Catalog : Type 0 where
  pub chunks : List (List String)
  pub hostnames : Map ℕ
  pub loaded : Bool

-- `NewCatalog`; `loadLocked` starts from it as well
abbrev pub new_catalog : Catalog
new_catalog = record { chunks = []; hostnames = []; loaded = false }

-- `chunkRecordName`, with `%d` as the parameter `decimal`
unfoldable pub chunk_record_name : (ℕ → String) → String → ℕ → String
chunk_record_name decimal zone i =
    append "_dnsweaver-catalog-" (append (decimal i) (append "." zone))

-- `normalizeHostname`
abbrev pub normalize : String → String
normalize hostname = to_lower (trim_dot hostname)

-- `chunkByteSize`
unfoldable pub chunk_byte_size : List String → ℕ
chunk_byte_size [] = 0
chunk_byte_size (h ∷ chunk) = len h + 1 + chunk_byte_size chunk

-- `canFitInChunk`
unfoldable pub can_fit_in_chunk : List String → String → Bool
unfolding chunk_byte_size
can_fit_in_chunk chunk hostname =
    if leb catalog_chunk_size (length chunk)
    then false
    else leb (chunk_byte_size chunk + (len hostname + 1)) catalog_max_chunk_bytes

abbrev onto_first : Char → List String → List String
onto_first c [] = String.◌∷◌ c String.[] ∷ []
onto_first c (w ∷ ws) = String.◌∷◌ c w ∷ ws

-- the words of a text, with an empty one wherever two blanks meet or the text begins or ends
unfoldable pub cut_blanks : String → List String
cut_blanks String.[] = "" ∷ []
cut_blanks (String.◌∷◌ c s) =
    let ws = cut_blanks s in if is_blank c then "" ∷ ws else onto_first c ws

-- `parseTXTHostnames`
unfoldable pub parse_txt_hostnames : String → List String
unfolding cut_blanks
parse_txt_hostnames rdata = select (λ w. not (w == "")) (cut_blanks rdata)

-- sort.Strings
unfoldable pub place : String → List String → List String
place x [] = x ∷ []
place x (y ∷ ys) = let below = place x ys in if is_le (compare x y) then x ∷ y ∷ ys else y ∷ below

unfoldable pub sort : List String → List String
unfolding place
sort [] = []
sort (x ∷ xs) = place x (sort xs)

-- `c.chunks[i]`
unfoldable pub chunk_at : ℕ → List (List String) → List String
chunk_at i [] = []
chunk_at zero (c ∷ cs) = c
chunk_at (suc i) (c ∷ cs) = chunk_at i cs

unfoldable pub set_chunk : ℕ → List String → List (List String) → List (List String)
set_chunk i new [] = []
set_chunk zero new (c ∷ cs) = new ∷ cs
set_chunk (suc i) new (c ∷ cs) = c ∷ set_chunk i new cs

-- the index gets each hostname of a chunk
unfoldable pub index_chunk : ℕ → List String → Map ℕ → Map ℕ
index_chunk i [] index = index
index_chunk i (h ∷ hs) index = index_chunk i hs (insert h i index)

unfoldable pub index_from : ℕ → List (List String) → Map ℕ → Map ℕ
unfolding index_chunk
index_from i [] index = index
index_from i (c ∷ cs) index = index_from (suc i) cs (index_chunk i c index)

-- the hostnames of the TXT records of an answer
unfoldable pub hostnames_of : List Record → List String
unfolding parse_txt_hostnames
hostnames_of [] = []
hostnames_of (r ∷ rs) =
    let rest = hostnames_of rs in
    if same_type r.type txt then parse_txt_hostnames r.rdata ++ rest else rest

-- the search of `Add` for a chunk with space: the number of chunks if there is none
unfoldable pub find_chunk : String → List (List String) → ℕ
unfolding can_fit_in_chunk
find_chunk hostname [] = 0
find_chunk hostname (c ∷ cs) =
    let later = find_chunk hostname cs in if can_fit_in_chunk c hostname then 0 else suc later

-- a new chunk if there is none with space
unfoldable pub with_room : ℕ → List (List String) → List (List String)
with_room target chunks = if nat_eq target (length chunks) then chunks ++ [] ∷ [] else chunks

-- the rollback of `Add`: the slice without its last element
unfoldable pub drop_last : List String → List String
drop_last [] = []
drop_last (x ∷ []) = []
drop_last (x ∷ y ∷ ys) = x ∷ drop_last (y ∷ ys)

unfoldable pub remove_chunk : ℕ → List (List String) → List (List String)
remove_chunk i [] = []
remove_chunk zero (c ∷ cs) = cs
remove_chunk (suc i) (c ∷ cs) = c ∷ remove_chunk i cs

-- `reindexAfterDelete`
unfoldable pub reindex_after_delete : ℕ → Catalog → Catalog
unfolding remove_chunk index_from
reindex_after_delete i c =
    let chunks = remove_chunk i c.chunks in
    record c { chunks = chunks; hostnames = index_from 0 chunks [] }

-- the loop of `Compact`, with the chunk that is being filled
unfoldable pub pack_from : List String → List String → List (List String)
unfolding can_fit_in_chunk
pack_from current [] = elim current [ [] ↦ [] | h ∷ hs ↦ (h ∷ hs) ∷ [] ]
pack_from [] (h ∷ hs) = pack_from (h ∷ []) hs
pack_from (x ∷ xs) (h ∷ hs) =
    let same = pack_from (x ∷ xs ++ h ∷ []) hs in
    let next = pack_from (h ∷ []) hs in
    if can_fit_in_chunk (x ∷ xs) h then same else (x ∷ xs) ∷ next

-- "Ensure chunk 0 exists even if empty"
unfoldable pub pack : List String → List (List String)
unfolding pack_from
pack hostnames = elim (pack_from [] hostnames) [ [] ↦ [] ∷ [] | c ∷ cs ↦ c ∷ cs ]
