-- ===== src/Reconciler/Cache/Lookup.antt =====
-- What the record cache answers, against the listings it was built from.
use dnsweaver.Base.{
  String, ◌≡◌, refl, ap, ◌∙◌, Bool, false, ◌==◌, eq_refl, eq_iff, Option, none, some, List, [], ◌∷◌,
  ◌++◌, arith, select, if◌then◌else◌, All,
}
use dnsweaver.Base.Map.{lookup, insert, lookup-insert}
use dnsweaver.Hostname.{normalize_hostname}
use dnsweaver.Provider.Record.{Record, is_data_type}
use dnsweaver.Provider.Failure.{Result, ok, err}
use dnsweaver.Provider.Interface.{System, ◌>>=◌, call_list}
use dnsweaver.Provider.Instance.{ProviderInstance, name}
use dnsweaver.Reconciler.Cache.{
  RecordCache, ByHostname, records_at, index_from, indexed, cache_from, new_record_cache,
  cached_records, get_existing_records,
}

-- the record is of this hostname, however the provider spells it
abbrev pub is_named : String → Record → Bool
is_named h r = normalize_hostname r.hostname == normalize_hostname h

append_nil : {A : Type 0} (xs : List A) → xs ++ [] ≡ xs
append_nil [] = refl
append_nil (x ∷ xs) = ap (λ ys. x ∷ ys) (append_nil xs)

append_assoc : {A : Type 0} (xs ys zs : List A) → (xs ++ ys) ++ zs ≡ xs ++ (ys ++ zs)
append_assoc [] ys zs = refl
append_assoc (x ∷ xs) ys zs = ap (λ y. x ∷ y) (append_assoc xs ys zs)

records_at-insert :
    (n k : String) (rs : List Record) (m : ByHostname)
    → records_at n (insert k rs m) ≡ (if k == n then rs else records_at n m)
records_at-insert n k rs m = ground (arith, lookup-insert k n rs m)

records_at-index_from :
    (n : String) (m : ByHostname) (rs : List Record)
    → records_at n (index_from m rs)
      ≡ records_at n m ++ select (λ r. normalize_hostname r.hostname == n) rs
unfolding index_from
records_at-index_from n m [] = cc (append_nil (records_at n m))
records_at-index_from n m (r ∷ rs) =
    let k = normalize_hostname r.hostname in
    let m' = insert k (records_at k m ++ r ∷ []) m in
    ground (
      arith,
      eq_iff k n,
      records_at-index_from n m' rs,
      records_at-insert n k (records_at k m ++ r ∷ []) m,
      append_assoc (records_at k m) (r ∷ []) (select (λ r. normalize_hostname r.hostname == n) rs),
    )

module _ {W : Type 0} where
  -- the instances before are those whose listings come first
  cache_from-append :
      (cache : RecordCache) (xs ys : List (ProviderInstance W)) (s : System W)
      → cache_from cache (xs ++ ys) s
        ≡ cache_from (cache_from cache xs s).0 ys (cache_from cache xs s).1
  unfolding cache_from ◌>>=◌
  cache_from-append cache [] ys s = refl
  cache_from-append cache (x ∷ xs) ys s =
      cache_from-append (insert (name x) (indexed (call_list x.provider s).0) cache) xs ys
        (call_list x.provider s).1

  lookup-cache_from :
      (n : String) (cache : RecordCache) (xs : List (ProviderInstance W)) (s : System W)
      → All (λ x. (name x == n) ≡ false) xs
      → lookup n (cache_from cache xs s).0 ≡ lookup n cache
  unfolding cache_from ◌>>=◌
  lookup-cache_from n cache [] s others = refl
  lookup-cache_from n cache (x ∷ xs) s (other, others) =
      let o = indexed (call_list x.provider s).0 in
      lookup-cache_from n (insert (name x) o cache) xs (call_list x.provider s).1 others
      ∙ lookup-insert (name x) n o cache
      ∙ ap (λ b. if b then some o else lookup n cache) other

  module _ (before : List (ProviderInstance W)) (inst : ProviderInstance W)
      (after : List (ProviderInstance W)) (s : System W)
      (others : All (λ x. (name x == name inst) ≡ false) after) where
    -- what the provider answers when the cache is built
    abbrev pub listing : Result (List Record)
    listing = (call_list inst.provider (new_record_cache before s).1).0

    abbrev built : RecordCache
    built = (new_record_cache (before ++ inst ∷ after) s).0

    loaded : lookup (name inst) built ≡ some (indexed listing)
    unfolding new_record_cache cache_from ◌>>=◌
    loaded =
        let c = (cache_from [] before s).0 in
        let s' = (cache_from [] before s).1 in
        ap (λ p. lookup (name inst) p.0) (cache_from-append [] before (inst ∷ after) s)
        ∙ lookup-cache_from (name inst) (insert (name inst) (indexed listing) c) after
            (call_list inst.provider s').1 others
        ∙ lookup-insert (name inst) (name inst) (indexed listing) c
        ∙ ap (λ b. if b then some (indexed listing) else lookup (name inst) c) (eq_refl (name inst))

    -- the records of a hostname in what is stored for a provider
    abbrev stored : String → Option (Option ByHostname) → Option (List Record)
    stored h none = none
    stored h (some none) = none
    stored h (some (some m)) =
        some (select (λ r. is_data_type r.type) (records_at (normalize_hostname h) m))

    -- the data records of a hostname in a listing
    abbrev pub answer : String → Result (List Record) → Option (List Record)
    answer h (err e) = none
    answer h (ok rs) = some (select (λ r. is_data_type r.type) (select (is_named h) rs))

    stored-indexed :
        (h : String) (l : Result (List Record)) → stored h (some (indexed l)) ≡ answer h l
    unfolding indexed lookup
    stored-indexed h (err e) = refl
    stored-indexed h (ok rs) =
        ap (λ xs. some (select (λ r. is_data_type r.type) xs))
          (records_at-index_from (normalize_hostname h) [] rs)

    existing-stored :
        (h : String) (c : RecordCache)
        → get_existing_records c (name inst) h ≡ stored h (lookup (name inst) c)
    unfolding get_existing_records cached_records
    existing-stored h c = ground arith

    -- The cache built from the instances answers, for an instance whose name no later one has and
    -- any spelling of a hostname, the data records of that hostname in the provider's listing, in
    -- its order, and `none` exactly when the listing failed.
    pub get_existing_records-listing :
        (h : String) → get_existing_records built (name inst) h ≡ answer h listing
    get_existing_records-listing h =
        existing-stored h built ∙ ap (stored h) loaded ∙ stored-indexed h listing
