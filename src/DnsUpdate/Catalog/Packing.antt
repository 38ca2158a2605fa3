-- ===== src/DnsUpdate/Catalog/Packing.antt =====
-- The chunks that `Compact` makes.
use Prim.Native.String.{len}
use dnsweaver.Base.{
  ◌+◌, ◌≤◌, String, ◌≡◌, refl, ap, ◌∙◌, true, List, [], ◌∷◌, ◌++◌, arith, length, length-append,
  All, Bool-cases, inl, inr,
}
use package.dnsweaver.DnsUpdate.Catalog.{
  chunk_byte_size, can_fit_in_chunk, pack_from, pack, catalog_max_chunk_bytes, catalog_chunk_size,
  catalog_max_hostname_len,
}

-- A chunk within both limits.
abbrev pub IsBounded : List String → Type 0
IsBounded chunk =
    (length chunk ≤ catalog_chunk_size) × (chunk_byte_size chunk ≤ catalog_max_chunk_bytes)

-- A hostname that `Add` accepts.
abbrev pub IsShort : String → Type 0
IsShort h = len h ≤ catalog_max_hostname_len

abbrev pub concat : List (List String) → List String
concat [] = []
concat (c ∷ cs) = c ++ concat cs

pub chunk_byte_size-append :
    (xs ys : List String) → chunk_byte_size (xs ++ ys) ≡ chunk_byte_size xs + chunk_byte_size ys
unfolding chunk_byte_size
chunk_byte_size-append [] ys = omega arith
chunk_byte_size-append (x ∷ xs) ys = omega (arith, chunk_byte_size-append xs ys)

-- A hostname that fits leaves the chunk within its limits.
pub fits-IsBounded :
    (chunk : List String) (h : String)
    → can_fit_in_chunk chunk h ≡ true
    → IsBounded (chunk ++ h ∷ [])
unfolding can_fit_in_chunk chunk_byte_size
fits-IsBounded chunk h fits =
    let size = chunk_byte_size-append chunk (h ∷ []) in
    let count = length-append chunk (h ∷ []) in ground (arith, size, count, fits)

pub one-IsBounded : (h : String) → IsShort h → IsBounded (h ∷ [])
unfolding chunk_byte_size
one-IsBounded h short = (omega arith, omega (arith, short))

append_cons :
    (xs : List String) (h : String) (hs : List String) → (xs ++ h ∷ []) ++ hs ≡ xs ++ h ∷ hs
append_cons [] h hs = refl
append_cons (x ∷ xs) h hs = ap (λ ys. x ∷ ys) (append_cons xs h hs)

append_nil : (xs : List String) → xs ++ [] ≡ xs
append_nil [] = refl
append_nil (x ∷ xs) = ap (λ ys. x ∷ ys) (append_nil xs)

-- The chunks put together again are the hostnames, and each chunk is within its limits.
abbrev IsPacked : List String → List (List String) → Type 0
IsPacked hostnames chunks = (concat chunks ≡ hostnames) × All IsBounded chunks

pack_from-IsPacked :
    (current hs : List String)
    → IsBounded current
    → All IsShort hs
    → IsPacked (current ++ hs) (pack_from current hs)
unfolding pack_from
pack_from-IsPacked [] [] b short = (refl, tt)
pack_from-IsPacked (x ∷ xs) [] b short = (refl, (b, tt))
pack_from-IsPacked [] (h ∷ hs) b (s, short) =
    pack_from-IsPacked (h ∷ []) hs (one-IsBounded h s) short
pack_from-IsPacked (x ∷ xs) (h ∷ hs) b (s, short) =
    elim (Bool-cases (can_fit_in_chunk (x ∷ xs) h)) [
      | inl fits ↦
          let (same, bounded) =
            pack_from-IsPacked (x ∷ xs ++ h ∷ []) hs (fits-IsBounded (x ∷ xs) h fits) short in
          rw (pack_from, fits) (same ∙ append_cons (x ∷ xs) h hs, bounded)
      | inr full ↦
          let (same, bounded) = pack_from-IsPacked (h ∷ []) hs (one-IsBounded h s) short in
          rw (pack_from, full) (ap (λ ys. (x ∷ xs) ++ ys) same, (b, bounded))
    ]

-- `Compact` packs any list of hostnames of at most 253 bytes without losing, adding or reordering
-- any: the chunks put together are the list, and no chunk has more than 100 hostnames or more than
-- 3500 bytes with the length bytes.
pub pack-IsPacking :
    (hostnames : List String)
    → All IsShort hostnames
    → (concat (pack hostnames) ≡ hostnames) × All IsBounded (pack hostnames)
unfolding pack chunk_byte_size
pack-IsPacking hostnames short =
    finish (pack_from [] hostnames)
      (pack_from-IsPacked [] hostnames (omega arith, omega arith) short)
  where
    finish :
        (chunks : List (List String))
        → IsPacked hostnames chunks
        → IsPacked hostnames (elim chunks [ [] ↦ [] ∷ [] | c ∷ cs ↦ c ∷ cs ])
    finish [] (same, _) = (same, ((omega arith, omega arith), tt))
    finish (c ∷ cs) packed = packed
