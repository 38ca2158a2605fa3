-- ===== src/DnsUpdate/Catalog/Changing/Adding.antt =====
-- `Add` as an operation on the set of hostnames that the server holds.
use dnsweaver.Base.{
  ℕ, zero, suc, ◌+◌, ◌<◌, ◌≤◌, String, ◌≡◌, refl, ap, ◌∙◌, subst, Bool, true, false, ◌||◌, none,
  some, List, [], ◌∷◌, ◌++◌, arith, Bool-cases, inl, inr, nat_eq, is_some, contains, ◌==◌, eq_iff,
}
use dnsweaver.Base.Map.{lookup}
use package.dnsweaver.DnsUpdate.Record.{txt, dotted}
use package.dnsweaver.DnsUpdate.Client.{ok, Outcome, Message, question, update, Response, query}
use package.dnsweaver.DnsUpdate.Client.Reading.{txt_answer}
use package.dnsweaver.DnsUpdate.Catalog.{
  Catalog, normalize, can_fit_in_chunk, find_chunk, chunk_at, sort, place, index_from, catalog_ttl,
}
use package.dnsweaver.DnsUpdate.Catalog.Packing.{IsShort}
use package.dnsweaver.DnsUpdate.Catalog.Sets.{
  in_chunks, contains-sort, contains-append, lookup-index_from,
}
use package.dnsweaver.DnsUpdate.Catalog.Stored.{Done, write_chunk, write_changes}
use package.dnsweaver.DnsUpdate.Catalog.Stored.Served.{chunks_from, AreFull, load-served}
use package.dnsweaver.DnsUpdate.Catalog.Stored.Writing.{accepted, write_chunk-accepted}
use package.dnsweaver.DnsUpdate.Catalog.Changing.{put, added, add_loaded, add}
use package.dnsweaver.DnsUpdate.Catalog.Changing.Bounded.{placed, put-placed, add-loaded}

or_absorb : (a b : Bool) → (b ≡ true → a ≡ true) → a ≡ (a || b)
or_absorb true b h = refl
or_absorb false true h = h refl
or_absorb false false h = refl

module _ {W : Type 0} (view : ℕ → W → List String) where
  -- the chunks from `i` on are the same
  same_chunks :
      (n i : ℕ) (x : String) (w w' : W)
      → ((j : ℕ) → i ≤ j → view j w' ≡ view j w)
      → in_chunks x (chunks_from view i n w') ≡ in_chunks x (chunks_from view i n w)
  same_chunks zero i x w w' same = refl
  same_chunks (suc n) i x w w' same =
      let rest = same_chunks n (suc i) x w w' (λ j above. same j (omega (arith, above))) in
      rw (same i (omega arith), rest) refl

  one_more_empty :
      (n i : ℕ) (x : String) (w : W)
      → view (i + n) w ≡ []
      → in_chunks x (chunks_from view i (suc n) w) ≡ in_chunks x (chunks_from view i n w)
  one_more_empty zero i x w last =
      let here : view i w ≡ [] = subst (λ j. view j w ≡ []) (omega arith) last in rw here refl
  one_more_empty (suc n) i x w last =
      ap (λ b. contains x (view i w) || b)
        (one_more_empty n (suc i) x w (subst (λ j. view j w ≡ []) (omega arith) last))

  -- One chunk got the hostname, the others are as they were.
  chunks_from-placed :
      (n i t : ℕ) (h x : String) (w w' : W)
      → t ≡ find_chunk h (chunks_from view i n w)
      → view (i + t) w' ≡ sort (chunk_at t (placed h (chunks_from view i n w)))
      → ((j : ℕ) → nat_eq (i + t) j ≡ false → view j w' ≡ view j w)
      → view (i + n) w ≡ []
      → in_chunks x (chunks_from view i (suc n) w')
        ≡ (in_chunks x (chunks_from view i n w) || h == x)
  unfolding find_chunk chunk_at placed sort place
  chunks_from-placed zero i t h x w w' target written same last =
      let first : view (i + 0) w' ≡ h ∷ [] =
        subst (λ t. view (i + t) w' ≡ sort (chunk_at t ((h ∷ []) ∷ []))) target written in
      let here : view i w' ≡ h ∷ [] = subst (λ j. view j w' ≡ h ∷ []) (omega arith) first in
      rw here (ground arith)
  chunks_from-placed (suc n) i t h x w w' target written same last =
      elim (Bool-cases (can_fit_in_chunk (view i w) h)) [
        | inl fits ↦
            let first : t ≡ 0 = target ∙ rw (find_chunk, fits) refl in
            let grown : chunk_at 0 (placed h (chunks_from view i (suc n) w)) ≡ view i w ++ h ∷ [] =
              rw (placed, fits) refl in
            let stored : view (i + 0) w' ≡ sort (view i w ++ h ∷ []) =
              subst
                (λ t. view (i + t) w' ≡ sort (chunk_at t (placed h (chunks_from view i (suc n) w))))
                first written
              ∙ ap sort grown in
            let here : contains x (view i w') ≡ contains x (view i w ++ h ∷ []) =
              ap (contains x)
                (subst (λ j. view j w' ≡ sort (view i w ++ h ∷ [])) (omega arith) stored)
              ∙ contains-sort x (view i w ++ h ∷ []) in
            let rest =
              same_chunks (suc n) (suc i) x w w'
                (λ j above. same j (ground (arith, first, above))) in
            let empty =
              one_more_empty n (suc i) x w (subst (λ j. view j w ≡ []) (omega arith) last) in
            ground (arith, here, contains-append x (view i w) (h ∷ []), rest, empty)
        | inr full ↦
            let below = find_chunk h (chunks_from view (suc i) n w) in
            let later : t ≡ suc below = target ∙ rw (find_chunk, full) refl in
            let deeper : chunk_at (suc below) (placed h (chunks_from view i (suc n) w))
                ≡ chunk_at below (placed h (chunks_from view (suc i) n w)) =
              rw (placed, full) refl in
            let stored : view (i + suc below) w'
                ≡ sort (chunk_at below (placed h (chunks_from view (suc i) n w))) =
              subst
                (λ t. view (i + t) w' ≡ sort (chunk_at t (placed h (chunks_from view i (suc n) w))))
                later written
              ∙ ap sort deeper in
            let rest =
              chunks_from-placed n (suc i) below h x w w' refl
                (subst
                  (λ j. view j w' ≡ sort (chunk_at below (placed h (chunks_from view (suc i) n w))))
                  (omega arith) stored)
                (λ j other. same j (ground (arith, later, other)))
                (subst (λ j. view j w ≡ []) (omega arith) last) in
            let here : view i w' ≡ view i w = same i (ground (arith, later)) in
            rw here (ground (arith, rest))
      ]

  -- the catalog that is loaded
  abbrev loaded_catalog : ℕ → W → Catalog
  loaded_catalog n w = record {
    chunks = chunks_from view 0 n w;
    hostnames = index_from 0 (chunks_from view 0 n w) [];
    loaded = true;
  }

  module _ (exchange : Message → W → Outcome Response × W) (zone : String)
      (chunk_record_name : ℕ → String)
      (accepts : (i : ℕ) (chunk : List String) (w : W)
        → (exchange (update zone (write_changes chunk_record_name i chunk)) w).0 ≡ ok accepted)
      (stores : (i : ℕ) (chunk : List String) (w : W)
        → view i (exchange (update zone (write_changes chunk_record_name i chunk)) w).1
          ≡ sort chunk)
      (leaves : (i j : ℕ) (chunk : List String) (w : W)
        → nat_eq i j ≡ false
        → view j (exchange (update zone (write_changes chunk_record_name i chunk)) w).1
          ≡ view j w) where
    -- the set that the server holds has one member more
    abbrev IsInserted : ℕ → String → W → Done W → Type 0
    IsInserted n h w (e, _, w') =
        (e ≡ none)
        × ((x : String)
            → in_chunks x (chunks_from view 0 (suc n) w')
              ≡ (in_chunks x (chunks_from view 0 n w) || h == x))

    add_loaded-new :
        (n : ℕ) (h : String) (w : W)
        → view n w ≡ []
        → in_chunks h (chunks_from view 0 n w) ≡ false
        → IsInserted n h w
            (add_loaded exchange zone chunk_record_name h (none, loaded_catalog n w, w))
    unfolding add_loaded added lookup
    add_loaded-new n h w last new =
        let c = loaded_catalog n w in
        let t = find_chunk h c.chunks in
        let chunk = chunk_at t (put h c).chunks in
        let w' = (exchange (update zone (write_changes chunk_record_name t chunk)) w).1 in
        let written : write_chunk exchange zone chunk_record_name t (put h c) w ≡ (none, w') =
          write_chunk-accepted exchange zone chunk_record_name t (put h c) w w'
            (ap (λ answer. (answer, w')) (accepts t chunk w)) in
        let absent : is_some (lookup h c.hostnames) ≡ false =
          lookup-index_from h 0 c.chunks [] ∙ ground (arith, new) in
        rw (add_loaded, absent, written)
          (
            refl,
            λ x.
                chunks_from-placed n 0 t h x w w' refl
                  (subst (λ j. view j w' ≡ sort (chunk_at t (placed h c.chunks))) (omega arith)
                    (stores t chunk w ∙ ap (λ cs. sort (chunk_at t cs)) (put-placed h c)))
                  (λ j other. leaves t j chunk w (ground (arith, other)))
                  (subst (λ j. view j w ≡ []) (omega arith) last),
          )

    add_loaded-there :
        (n : ℕ) (h : String) (w : W)
        → view n w ≡ []
        → in_chunks h (chunks_from view 0 n w) ≡ true
        → IsInserted n h w
            (add_loaded exchange zone chunk_record_name h (none, loaded_catalog n w, w))
    unfolding add_loaded lookup
    add_loaded-there n h w last there =
        let c = loaded_catalog n w in
        let present : is_some (lookup h c.hostnames) ≡ true =
          lookup-index_from h 0 c.chunks [] ∙ ground (arith, there) in
        rw (add_loaded, present)
          (
            refl,
            λ x.
                let empty =
                  one_more_empty n 0 x w (subst (λ j. view j w ≡ []) (omega arith) last) in
                let known : (h == x) ≡ true → in_chunks x (chunks_from view 0 n w) ≡ true = λ equal.
                  subst (λ y. in_chunks y (chunks_from view 0 n w) ≡ true) ((eq_iff h x).0 equal)
                    there in
                empty ∙ or_absorb (in_chunks x (chunks_from view 0 n w)) (h == x) known,
          )

    -- On a server that answers queries with the chunks that it holds and carries out updates, `Add`
    -- succeeds and puts the hostname into the set of hostnames that the server holds: afterwards the
    -- chunks hold the hostnames that they held and the normalized new one, whichever chunk it went
    -- to, if the chunks had no gap and held words, and the hostname is not too long. Then more rounds
    -- of loading than there are chunks are enough.
    pub add-inserts :
        (decimal : ℕ → String)
        → ((i : ℕ) (w : W)
            → exchange (question (dotted (chunk_record_name i)) txt) w
              ≡ (ok (txt_answer (dotted (chunk_record_name i)) catalog_ttl (view i w)), w))
        → (n fuel : ℕ) (hostname : String) (c : Catalog) (w : W) → AreFull (chunks_from view 0 n w)
        → view n w ≡ []
        → n < fuel
        → IsShort (normalize hostname)
        → (c' : Catalog) × (w' : W) × (add
              (query exchange decimal)
              exchange
              zone
              chunk_record_name
              fuel
              hostname
              c
              w
            ≡ some (none, c', w'))
          × ((x : String)
              → in_chunks x (chunks_from view 0 (suc n) w')
                ≡ (in_chunks x (chunks_from view 0 n w) || normalize hostname == x))
    add-inserts decimal serves n fuel hostname c w full last enough short =
        let h = normalize hostname in
        let done = add_loaded exchange zone chunk_record_name h (none, loaded_catalog n w, w) in
        let inserted : IsInserted n h w done =
          elim (Bool-cases (in_chunks h (chunks_from view 0 n w))) [
            | inl there ↦ add_loaded-there n h w last there
            | inr new ↦ add_loaded-new n h w last new
          ] in
        let reads =
          load-served view exchange decimal chunk_record_name serves n fuel w full last enough in
        let result =
          add-loaded exchange zone chunk_record_name (query exchange decimal) fuel hostname c w
            (none, loaded_catalog n w, w) short reads in
        (done.1, done.2, result ∙ ap (λ e. some (e, done.1, done.2)) inserted.0, inserted.1)
