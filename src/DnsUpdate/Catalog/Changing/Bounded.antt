-- ===== src/DnsUpdate/Catalog/Changing/Bounded.antt =====
-- `Add` keeps the chunks within their limits.
use Prim.Native.String.{len}
use dnsweaver.Base.{
  ℕ, zero, suc, ◌≤◌, String, ◌≡◌, refl, ap, ◌∙◌, subst, sym, false, Option, none, some, List, [],
  ◌∷◌, ◌++◌, arith, length, All, Bool-cases, inl, inr, if◌then◌else◌, ltb, is_some,
}
use dnsweaver.Base.Map.{lookup}
use package.dnsweaver.DnsUpdate.Record.{Record, RrType}
use package.dnsweaver.DnsUpdate.Client.{ClientError, hostname_too_long, Outcome, Message, Response}
use package.dnsweaver.DnsUpdate.Catalog.{
  Catalog, normalize, chunk_byte_size, can_fit_in_chunk, find_chunk, with_room, set_chunk, chunk_at,
  drop_last, catalog_max_hostname_len,
}
use package.dnsweaver.DnsUpdate.Catalog.Stored.{Done, load}
use package.dnsweaver.DnsUpdate.Catalog.Changing.{put, added, add_loaded, add}
use package.dnsweaver.DnsUpdate.Catalog.Packing.{IsBounded, IsShort, fits-IsBounded, one-IsBounded}

-- The hostname at the end of the first chunk with space, or in a new chunk at the end.
unfoldable pub placed : String → List (List String) → List (List String)
placed h [] = (h ∷ []) ∷ []
placed h (c ∷ cs) =
    let below = placed h cs in if can_fit_in_chunk c h then (c ++ h ∷ []) ∷ cs else c ∷ below

with_room-suc :
    (t : ℕ) (c : List String) (cs : List (List String))
    → with_room (suc t) (c ∷ cs) ≡ c ∷ with_room t cs
unfolding with_room
with_room-suc t c cs = ground arith

with_room-zero : (c : List String) (cs : List (List String)) → with_room 0 (c ∷ cs) ≡ c ∷ cs
unfolding with_room
with_room-zero c cs = ground arith

abbrev put_at : ℕ → String → List (List String) → List (List String)
put_at t h chunks = set_chunk t (chunk_at t chunks ++ h ∷ []) chunks

put_at-placed :
    (h : String) (cs : List (List String))
    → put_at (find_chunk h cs) h (with_room (find_chunk h cs) cs) ≡ placed h cs
unfolding placed find_chunk set_chunk chunk_at with_room
put_at-placed h [] = refl
put_at-placed h (c ∷ cs) = elim (Bool-cases (can_fit_in_chunk c h)) [
  | inl fits ↦ rw (find_chunk, placed, fits) (ap (put_at 0 h) (with_room-zero c cs))
  | inr full ↦
      rw (find_chunk, placed, full)
        (ap (put_at (suc (find_chunk h cs)) h) (with_room-suc (find_chunk h cs) c cs)
          ∙ ap (λ rest. c ∷ rest) (put_at-placed h cs))
]

pub put-placed : (h : String) (c : Catalog) → (put h c).chunks ≡ placed h c.chunks
unfolding put
put-placed h c = put_at-placed h c.chunks

placed-IsBounded :
    (h : String) (cs : List (List String))
    → IsShort h
    → All IsBounded cs
    → All IsBounded (placed h cs)
unfolding placed
placed-IsBounded h [] short bs = (one-IsBounded h short, tt)
placed-IsBounded h (c ∷ cs) short (b, bs) = elim (Bool-cases (can_fit_in_chunk c h)) [
  | inl fits ↦ rw (placed, fits) (fits-IsBounded c h fits, bs)
  | inr full ↦ rw (placed, full) (b, placed-IsBounded h cs short bs)
]

drop_last-IsBounded : (chunk : List String) → IsBounded chunk → IsBounded (drop_last chunk)
unfolding drop_last chunk_byte_size
drop_last-IsBounded [] b = b
drop_last-IsBounded (x ∷ []) b = (omega arith, omega arith)
drop_last-IsBounded (x ∷ y ∷ ys) b =
    (omega (arith, b, count (y ∷ ys)), omega (arith, b, bytes (y ∷ ys)))
  where
    count : (c : List String) → length (drop_last c) ≤ length c
    count [] = omega arith
    count (x ∷ []) = omega arith
    count (x ∷ y ∷ ys) = omega (arith, count (y ∷ ys))

    bytes : (c : List String) → chunk_byte_size (drop_last c) ≤ chunk_byte_size c
    bytes [] = omega arith
    bytes (x ∷ []) = omega arith
    bytes (x ∷ y ∷ ys) = omega (arith, bytes (y ∷ ys))

module _ (P : List String → Type 0) where
  All-set_chunk :
      (i : ℕ) (new : List String) (cs : List (List String))
      → P new
      → All P cs
      → All P (set_chunk i new cs)
  unfolding set_chunk
  All-set_chunk i new [] p ps = tt
  All-set_chunk zero new (c ∷ cs) p (q, ps) = (p, ps)
  All-set_chunk (suc i) new (c ∷ cs) p (q, ps) = (q, All-set_chunk i new cs p ps)

  chunk_at-All : (i : ℕ) (cs : List (List String)) → P [] → All P cs → P (chunk_at i cs)
  unfolding chunk_at
  chunk_at-All i [] p ps = p
  chunk_at-All zero (c ∷ cs) p (q, ps) = q
  chunk_at-All (suc i) (c ∷ cs) p (q, ps) = chunk_at-All i cs p ps

module _ {W : Type 0} where
  abbrev Holds : (Done W → Type 0) → Option (Done W) → Type 0
  Holds P none = Unit
  Holds P (some done) = P done

  abbrev pub chunks_of : Done W → List (List String)
  chunks_of (_, c, _) = c.chunks

  added-IsBounded :
      (target : ℕ) (h : String) (c : Catalog) (answer : Option ClientError × W)
      → All IsBounded c.chunks
      → All IsBounded (chunks_of (added target h c answer))
  unfolding added chunk_byte_size
  added-IsBounded target h c (none, w) bs = bs
  added-IsBounded target h c (some e, w) bs =
      All-set_chunk IsBounded target _ c.chunks
        (drop_last-IsBounded (chunk_at target c.chunks)
          (chunk_at-All IsBounded target c.chunks (omega arith, omega arith) bs))
        bs

  module _ (exchange : Message → W → Outcome Response × W) (zone : String)
      (chunk_record_name : ℕ → String) where
    add_loaded-IsBounded :
        (h : String) (loaded : Done W)
        → IsShort h
        → All IsBounded (chunks_of loaded)
        → All IsBounded (chunks_of (add_loaded exchange zone chunk_record_name h loaded))
    unfolding add_loaded
    add_loaded-IsBounded h (some e, c, w) short bs = bs
    add_loaded-IsBounded h (none, c, w) short bs =
        elim (Bool-cases (is_some (lookup h c.hostnames))) [
          | inl there ↦ rw (add_loaded, there) bs
          | inr new ↦
              rw (add_loaded, new)
                (added-IsBounded (find_chunk h c.chunks) h (put h c) _ (
                  subst (All IsBounded) (sym (put-placed h c))
                    (placed-IsBounded h c.chunks short bs)))
        ]

    -- a hostname that is not too long
    pub add-loaded :
        (query : String → RrType → W → Outcome (List Record) × W) (fuel : ℕ) (hostname : String)
        (c : Catalog) (w : W) (loaded : Done W)
        → IsShort (normalize hostname)
        → load query chunk_record_name fuel w ≡ some loaded
        → add query exchange zone chunk_record_name fuel hostname c w
          ≡ some (add_loaded exchange zone chunk_record_name (normalize hostname) loaded)
    unfolding add
    add-loaded query fuel hostname c w loaded short reads =
        let fits : ltb catalog_max_hostname_len (len (normalize hostname)) ≡ false =
          ground (arith, short) in
        rw (add, fits, reads) refl

    -- Whatever the server answers, `Add` leaves every chunk of the catalog within its limits of 100
    -- hostnames and 3500 bytes, also when the hostname is too long, is there already, or when the
    -- write fails and is taken back: if the cached chunks and those that it loads are within them.
    pub add-IsBounded :
        (query : String → RrType → W → Outcome (List Record) × W) (fuel : ℕ) (hostname : String)
        (c : Catalog) (w : W) (loaded outcome : Done W)
        → All IsBounded c.chunks
        → load query chunk_record_name fuel w ≡ some loaded
        → All IsBounded (chunks_of loaded)
        → add query exchange zone chunk_record_name fuel hostname c w ≡ some outcome
        → All IsBounded (chunks_of outcome)
    unfolding add
    add-IsBounded query fuel hostname c w loaded outcome bs reads bounded same =
        elim (Bool-cases (ltb catalog_max_hostname_len (len (normalize hostname)))) [
          | inl long ↦
              let kept : (some (some hostname_too_long, c, w)) ≡ some outcome =
                sym (rw (add, long) refl) ∙ same in
              subst (Holds (λ done. All IsBounded (chunks_of done))) kept bs
          | inr short ↦
              let done = add_loaded exchange zone chunk_record_name (normalize hostname) loaded in
              let result : ◌≡◌ {A = Option (Done W)} (some done) (some outcome) =
                sym (rw (add, short, reads) refl) ∙ same in
              subst (Holds (λ done. All IsBounded (chunks_of done))) result
                (add_loaded-IsBounded (normalize hostname) loaded (ground (arith, short)) bounded)
        ]
