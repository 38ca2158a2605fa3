-- ===== src/DnsUpdate/Catalog/Stored/Loading.antt =====
-- The loop that loads the chunks ends, and what it loads.
use dnsweaver.Base.{
  ℕ, zero, suc, ◌+◌, ◌<◌, String, ◌≡◌, refl, subst, true, List, [], ◌∷◌, is_some, arith, ◌⊎◌, inl,
  inr,
}
use package.dnsweaver.DnsUpdate.Record.{Record, RrType, txt}
use package.dnsweaver.DnsUpdate.Client.{ClientError, Outcome, ok, err}
use package.dnsweaver.DnsUpdate.Catalog.{Catalog, new_catalog}
use package.dnsweaver.DnsUpdate.Catalog.Stored.{load_from, load}

Answer-cases :
    (answer : Outcome (List Record))
    → ((e : ClientError) × (answer ≡ err e))
      ⊎ (answer ≡ ok [])
      ⊎ ((r : Record) × (rs : List Record) × (answer ≡ ok (r ∷ rs)))
Answer-cases (err e) = inl (e, refl)
Answer-cases (ok []) = inr (inl refl)
Answer-cases (ok (r ∷ rs)) = inr (inr (r, rs, refl))

module _ {W : Type 0} (query : String → RrType → W → Outcome (List Record) × W)
    (chunk_record_name : ℕ → String)
    (reads : (name : String) (w : W) → (query name txt w).1 ≡ w) where
  load_from-ends :
      (k i fuel : ℕ) (c : Catalog) (w : W)
      → (query (chunk_record_name (i + k)) txt w).0 ≡ ok []
      → k < fuel
      → is_some (load_from query chunk_record_name fuel i c w) ≡ true
  unfolding load_from
  load_from-ends k i zero c w last enough = absurd (omega (arith, enough))
  load_from-ends zero i (suc fuel) c w last enough =
      let done : (query (chunk_record_name i) txt w).0 ≡ ok [] =
        subst (λ j. (query (chunk_record_name j) txt w).0 ≡ ok []) (omega arith) last in
      rw (load_from, done) refl
  load_from-ends (suc k) i (suc fuel) c w last enough =
      elim (Answer-cases (query (chunk_record_name i) txt w).0) [
        | inl (e, failed) ↦ rw (load_from, failed) refl
        | inr (inl done) ↦ rw (load_from, done) refl
        | inr (inr (r, rs, more)) ↦
            rw (load_from, more, reads (chunk_record_name i) w)
              (load_from-ends k (suc i) fuel _ w
                (subst (λ j. (query (chunk_record_name j) txt w).0 ≡ ok []) (omega arith) last)
                (omega (arith, enough)))
      ]

  -- `Load` ends: if queries do not change the server, and chunk `n` does not exist, then more rounds
  -- than `n` are enough, whatever the other chunks hold and whether or not a query fails.
  pub load-ends :
      (n fuel : ℕ) (w : W)
      → (query (chunk_record_name n) txt w).0 ≡ ok []
      → n < fuel
      → is_some (load query chunk_record_name fuel w) ≡ true
  unfolding load
  load-ends n fuel w last enough =
      load_from-ends n 0 fuel new_catalog w
        (subst (λ j. (query (chunk_record_name j) txt w).0 ≡ ok []) (omega arith) last) enough
