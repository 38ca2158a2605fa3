-- ===== src/DnsUpdate/Catalog/Stored/Served.antt =====
-- What `Load` reads from a server that holds the chunks.
use dnsweaver.Base.{
  ℕ, zero, suc, ◌+◌, ◌<◌, String, ◌≡◌, ◌≢◌, refl, ap, ◌∙◌, subst, sym, true, none, some, List, [],
  ◌∷◌, ◌++◌, arith, All, ◌⊎◌, inl, inr,
}
use package.dnsweaver.DnsUpdate.Record.{txt, dotted}
use package.dnsweaver.DnsUpdate.Client.{Outcome, ok, Message, question, Response, query}
use package.dnsweaver.DnsUpdate.Client.Reading.{txt_answer, txt_records, query-txt_answer}
use package.dnsweaver.DnsUpdate.Catalog.{
  Catalog, new_catalog, catalog_ttl, hostnames_of, index_chunk, index_from,
}
use package.dnsweaver.DnsUpdate.Catalog.Words.{IsWord, parse_txt_hostnames-join_words}
use package.dnsweaver.DnsUpdate.Catalog.Stored.{load_from, load}

append_nil : (xs : List String) → xs ++ [] ≡ xs
append_nil [] = refl
append_nil (x ∷ xs) = ap (λ ys. x ∷ ys) (append_nil xs)

append_step :
    (cs : List (List String)) (c : List String) (ds : List (List String))
    → (cs ++ c ∷ []) ++ ds ≡ cs ++ c ∷ ds
append_step [] c ds = refl
append_step (x ∷ cs) c ds = ap (λ ys. x ∷ ys) (append_step cs c ds)

append_none : (cs : List (List String)) → cs ++ [] ≡ cs
append_none [] = refl
append_none (c ∷ cs) = ap (λ ys. c ∷ ys) (append_none cs)

hostnames_of-txt_records :
    (name : String) (ttl : ℕ) (strings : List String)
    → All IsWord strings
    → hostnames_of (txt_records name ttl strings) ≡ strings
unfolding hostnames_of
hostnames_of-txt_records name ttl [] words = refl
hostnames_of-txt_records name ttl (h ∷ hs) words =
    append_nil _ ∙ parse_txt_hostnames-join_words (h ∷ hs) words

-- chunks with words in them
abbrev pub AreFull : List (List String) → Type 0
AreFull = All (λ c. (c ≢ []) × All IsWord c)

List-cases : (xs : List String) → (xs ≡ []) ⊎ ((h : String) × (hs : List String) × (xs ≡ h ∷ hs))
List-cases [] = inl refl
List-cases (h ∷ hs) = inr (h, hs, refl)

module _ {W : Type 0} (view : ℕ → W → List String) where
  -- the chunks from `i` on, `n` of them
  abbrev pub chunks_from : ℕ → ℕ → W → List (List String)
  chunks_from i zero w = []
  chunks_from i (suc n) w = view i w ∷ chunks_from (suc i) n w

  module _ (exchange : Message → W → Outcome Response × W) (decimal : ℕ → String)
      (chunk_record_name : ℕ → String)
      (serves : (i : ℕ) (w : W)
        → exchange (question (dotted (chunk_record_name i)) txt) w
          ≡ (ok (txt_answer (dotted (chunk_record_name i)) catalog_ttl (view i w)), w)) where
    load_from-round :
        (fuel i : ℕ) (c : Catalog) (w : W) (h : String) (hs : List String)
        → view i w ≡ h ∷ hs
        → All IsWord (h ∷ hs)
        → load_from (query exchange decimal) chunk_record_name (suc fuel) i c w
          ≡ load_from
              (query exchange decimal)
              chunk_record_name
              fuel
              (suc i)
              (record c {
                chunks = c.chunks ++ (h ∷ hs) ∷ [];
                hostnames = index_chunk i (h ∷ hs) c.hostnames;
              })
              w
    unfolding load_from
    load_from-round fuel i c w h hs holds words =
        let answers =
          serves i w
          ∙ ap (λ strings. (ok (txt_answer (dotted (chunk_record_name i)) catalog_ttl strings), w))
              holds in
        let found =
          query-txt_answer exchange decimal (chunk_record_name i) (dotted (chunk_record_name i))
            catalog_ttl (h ∷ hs) w answers in
        let read =
          hostnames_of-txt_records (dotted (chunk_record_name i)) catalog_ttl (h ∷ hs) words in
        rw (load_from, ap (λ p. p.0) found, ap (λ p. p.1) found, read) refl

    load_from-stop :
        (fuel i : ℕ) (c : Catalog) (w : W)
        → view i w ≡ []
        → load_from (query exchange decimal) chunk_record_name (suc fuel) i c w
          ≡ some (none, record c { loaded = true }, w)
    unfolding load_from
    load_from-stop fuel i c w holds =
        let answers =
          serves i w
          ∙ ap (λ strings. (ok (txt_answer (dotted (chunk_record_name i)) catalog_ttl strings), w))
              holds in
        let found =
          query-txt_answer exchange decimal (chunk_record_name i) (dotted (chunk_record_name i))
            catalog_ttl [] w answers in
        rw (load_from, ap (λ p. p.0) found, ap (λ p. p.1) found) refl

    -- what is loaded, put behind what was
    abbrev with_chunks : ℕ → Catalog → List (List String) → Catalog
    with_chunks i c chunks = record {
      chunks = c.chunks ++ chunks;
      hostnames = index_from i chunks c.hostnames;
      loaded = true;
    }

    load_from-served :
        (n i fuel : ℕ) (c : Catalog) (w : W)
        → AreFull (chunks_from i n w)
        → view (i + n) w ≡ []
        → n < fuel
        → load_from (query exchange decimal) chunk_record_name fuel i c w
          ≡ some (none, with_chunks i c (chunks_from i n w), w)
    unfolding index_from
    load_from-served n i zero c w full last enough = absurd (omega (arith, enough))
    load_from-served zero i (suc fuel) c w full last enough =
        let stop = subst (λ j. view j w ≡ []) (omega arith) last in
        load_from-stop fuel i c w stop
        ∙ ap
            (λ chunks.
              some (none, record { chunks = chunks; hostnames = c.hostnames; loaded = true }, w))
            (sym (append_none c.chunks))
    load_from-served (suc n) i (suc fuel) c w ((some_there, words), full) last enough =
        elim (List-cases (view i w)) [
          | inl empty ↦ absurd (some_there empty)
          | inr (h, hs, holds) ↦
              load_from-round fuel i c w h hs holds (subst (All IsWord) holds words)
              ∙ load_from-served n (suc i) fuel _ w full
                  (subst (λ j. view j w ≡ []) (omega arith) last) (omega (arith, enough))
              ∙ rw holds (
                  ap
                    (λ chunks. some (
                      none,
                      record {
                        chunks = chunks;
                        hostnames =
                            index_from (suc i) (chunks_from (suc i) n w)
                              (index_chunk i (h ∷ hs) c.hostnames);
                        loaded = true;
                      },
                      w,
                    ))
                    (append_step c.chunks (h ∷ hs) (chunks_from (suc i) n w)))
        ]

    -- From a server that answers with what it holds, `Load` reads exactly the chunks up to the first
    -- that is empty, and the index is theirs: if these chunks hold words, and there are more rounds
    -- than chunks.
    pub load-served :
        (n fuel : ℕ) (w : W)
        → AreFull (chunks_from 0 n w)
        → view n w ≡ []
        → n < fuel
        → load (query exchange decimal) chunk_record_name fuel w
          ≡ some (
            none,
            record {
              chunks = chunks_from 0 n w;
              hostnames = index_from 0 (chunks_from 0 n w) [];
              loaded = true;
            },
            w,
          )
    unfolding load
    load-served n fuel w full last enough =
        load_from-served n 0 fuel new_catalog w full (subst (λ j. view j w ≡ []) (omega arith) last)
          enough
