-- ===== src/Tests/Cataloguing.antt =====
-- Tests of the catalog, with a server that holds the strings of a chunk under the length of its name.
use Prim.Native.String.{count}
use Prim.Native.String.count
use dnsweaver.Base.{
  ℕ, zero, suc, ◌<◌, String, ◌≡◌, ◌≢◌, refl, ap, ◌∙◌, sym, Bool, true, false, ◌||◌, Option, none,
  some, List, [], ◌∷◌, All, arith, if◌then◌else◌, nat_eq, is_some, ◌==◌,
}
use dnsweaver.DnsUpdate.Record.{txt, dotted, has_suffix}
use dnsweaver.DnsUpdate.Client.{
  Outcome, ok, err, zone_mismatch, Message, question, update, Change, delete_rrset, insert,
  Response, query,
}
use dnsweaver.DnsUpdate.Client.Reading.{txt_answer, query-txt_answer}
use dnsweaver.DnsUpdate.Catalog.{
  Catalog, new_catalog, catalog_ttl, normalize, sort, index_from, pack, place,
}
use dnsweaver.DnsUpdate.Catalog.Packing.{IsBounded, IsShort, concat, pack-IsPacking}
use dnsweaver.DnsUpdate.Catalog.Sets.{in_chunks}
use dnsweaver.DnsUpdate.Catalog.Stored.{Done, load, insertion, write_changes}
use dnsweaver.DnsUpdate.Catalog.Stored.Loading.{load-ends}
use dnsweaver.DnsUpdate.Catalog.Stored.Served.{chunks_from, AreFull, load-served}
use dnsweaver.DnsUpdate.Catalog.Stored.Writing.{accepted}
use dnsweaver.DnsUpdate.Catalog.Changing.{add, add_loaded}
use dnsweaver.DnsUpdate.Catalog.Changing.Bounded.{chunks_of, add-loaded, add-IsBounded}
use dnsweaver.DnsUpdate.Catalog.Changing.Adding.{add-inserts}

abbrev Held : Type 0
Held = ℕ → List String

abbrev strings_of : List Change → List String
strings_of (insert (rr) ∷ _) = elim rr.body [ txt hs ↦ hs | _ ↦ [] ]
strings_of _ = []

abbrev set : ℕ → List String → Held → Held
set key strings held n = if nat_eq n key then strings else held n

abbrev served : Message → Held → Outcome Response × Held
served (question name _) held = (ok (txt_answer name catalog_ttl (held (count name))), held)
served (update _ (delete_rrset name _ ∷ changes)) held =
    (ok accepted, set (count (dotted name)) (strings_of changes) held)
served (update _ _) held = (ok accepted, held)

-- the names of the chunks: `.`, `i.`, `ii.` and so on
abbrev name_of : ℕ → String
name_of zero = "."
name_of (suc i) = String.◌∷◌ "i" (name_of i)

or-true : (b : Bool) → (b || true) ≡ true
or-true true = refl
or-true false = refl

has_suffix-name_of : (i : ℕ) → has_suffix (name_of i) "." ≡ true
unfolding has_suffix
has_suffix-name_of zero = refl
has_suffix-name_of (suc i) = rw (has_suffix, has_suffix-name_of i) (or-true _)

dotted-name_of : (i : ℕ) → dotted (name_of i) ≡ name_of i
unfolding dotted
dotted-name_of i = rw (dotted, has_suffix-name_of i) refl

count-name_of : (i : ℕ) → count (name_of i) ≡ suc i
count-name_of zero = refl
count-name_of (suc i) = count.cons "i" (name_of i) ∙ ap suc (count-name_of i)

key_of : (i : ℕ) → count (dotted (name_of i)) ≡ suc i
key_of i = ap count (dotted-name_of i) ∙ count-name_of i

abbrev view : ℕ → Held → List String
view i held = held (count (dotted (name_of i)))

strings_of-insertion : (name : String) (hs : List String) → strings_of (insertion name hs) ≡ hs
strings_of-insertion name [] = refl
strings_of-insertion name (h ∷ hs) = refl

serves :
    (i : ℕ) (w : Held)
    → served (question (dotted (name_of i)) txt) w
      ≡ (ok (txt_answer (dotted (name_of i)) catalog_ttl (view i w)), w)
serves i w = refl

accepts :
    (i : ℕ) (chunk : List String) (w : Held)
    → (served (update "." (write_changes name_of i chunk)) w).0 ≡ ok accepted
unfolding write_changes
accepts i chunk w = refl

stores :
    (i : ℕ) (chunk : List String) (w : Held)
    → view i (served (update "." (write_changes name_of i chunk)) w).1 ≡ sort chunk
unfolding write_changes
stores i chunk w = let held = strings_of-insertion (name_of i) (sort chunk) in ground (arith, held)

leaves :
    (i j : ℕ) (chunk : List String) (w : Held)
    → nat_eq i j ≡ false
    → view j (served (update "." (write_changes name_of i chunk)) w).1 ≡ view j w
unfolding write_changes
leaves i j chunk w other = ground (arith, key_of i, key_of j, other)

-- one chunk, with two hostnames
abbrev one_chunk : Held
one_chunk n = if nat_eq n 1 then "a.org" ∷ "b.org" ∷ [] else []

abbrev decimal : ℕ → String
decimal n = ""

one_chunk-AreFull : AreFull (chunks_from view 0 1 one_chunk)
unfolding dotted has_suffix
one_chunk-AreFull = ground arith

one_chunk-last : view 1 one_chunk ≡ []
unfolding dotted has_suffix
one_chunk-last = refl

load-served_example :
    load (query served decimal) name_of 5 one_chunk
    ≡ some (
      none,
      record {
        chunks = chunks_from view 0 1 one_chunk;
        hostnames = index_from 0 (chunks_from view 0 1 one_chunk) [];
        loaded = true;
      },
      one_chunk,
    )
load-served_example =
    load-served view served decimal name_of serves 1 5 one_chunk one_chunk-AreFull one_chunk-last
      (omega arith)

reads : (name : String) (w : Held) → (query served decimal name txt w).1 ≡ w
reads name w =
    ap (λ p. p.1)
      (query-txt_answer served decimal name (dotted name) catalog_ttl (w (count (dotted name))) w
        refl)

ends : (query served decimal (name_of 1) txt one_chunk).0 ≡ ok []
unfolding dotted has_suffix
ends =
    ap (λ p. p.0)
      (query-txt_answer served decimal (name_of 1) (dotted (name_of 1)) catalog_ttl [] one_chunk
        refl)

load-ends_example : is_some (load (query served decimal) name_of 5 one_chunk) ≡ true
load-ends_example = load-ends (query served decimal) name_of reads 1 5 one_chunk ends (omega arith)

short : IsShort (normalize "C.org.")
unfolding dnsweaver.Base.trim_dot dnsweaver.Base.to_lower dnsweaver.Base.lower_char
short = ground arith

add-inserts_example :
    (c' : Catalog) × (w' : Held) × (add
        (query served decimal)
        served
        "."
        name_of
        5
        "C.org."
        new_catalog
        one_chunk
      ≡ some (none, c', w'))
    × ((x : String)
        → in_chunks x (chunks_from view 0 2 w')
          ≡ (in_chunks x (chunks_from view 0 1 one_chunk) || normalize "C.org." == x))
add-inserts_example =
    add-inserts view served "." name_of accepts stores leaves decimal serves 1 5 "C.org."
      new_catalog one_chunk one_chunk-AreFull one_chunk-last (omega arith) short

abbrev one_chunk_catalog : Catalog
one_chunk_catalog = record {
  chunks = ("a.org" ∷ "b.org" ∷ []) ∷ [];
  hostnames = ("a.org", 0) ∷ ("b.org", 0) ∷ [];
  loaded = true;
}

one_chunk-loaded :
    load (query served decimal) name_of 5 one_chunk ≡ some (none, one_chunk_catalog, one_chunk)
unfolding dotted has_suffix index_from dnsweaver.Base.Map.insert
one_chunk-loaded =
    load-served view served decimal name_of serves 1 5 one_chunk one_chunk-AreFull one_chunk-last
      (omega arith)

one_chunk-IsBounded : All IsBounded one_chunk_catalog.chunks
unfolding dnsweaver.DnsUpdate.Catalog.chunk_byte_size
one_chunk-IsBounded = ground arith

-- a server that takes no update
abbrev read_only : Message → Held → Outcome Response × Held
read_only (question name _) held = (ok (txt_answer name catalog_ttl (held (count name))), held)
read_only (update _ _) held = (err zone_mismatch, held)

abbrev refused : Done Held
refused = add_loaded read_only "." name_of (normalize "c.org") (none, one_chunk_catalog, one_chunk)

add-refused :
    add (query served decimal) read_only "." name_of 5 "c.org" new_catalog one_chunk ≡ some refused
unfolding dnsweaver.Base.trim_dot dnsweaver.Base.to_lower dnsweaver.Base.lower_char
add-refused =
    add-loaded read_only "." name_of (query served decimal) 5 "c.org" new_catalog one_chunk
      (none, one_chunk_catalog, one_chunk) (ground arith) one_chunk-loaded

add-IsBounded_example : All IsBounded (chunks_of refused)
add-IsBounded_example =
    add-IsBounded read_only "." name_of (query served decimal) 5 "c.org" new_catalog one_chunk
      (none, one_chunk_catalog, one_chunk) refused tt one_chunk-loaded one_chunk-IsBounded
      add-refused

pack-IsPacking_example :
    (concat (pack ("a.org" ∷ "b.org" ∷ [])) ≡ "a.org" ∷ "b.org" ∷ [])
    × All IsBounded (pack ("a.org" ∷ "b.org" ∷ []))
pack-IsPacking_example = pack-IsPacking ("a.org" ∷ "b.org" ∷ []) (ground arith)
