-- ===== src/Reconciler/Cycle/Traced.antt =====
-- internal/reconciler/reconciler.go: the extraction of the hostnames with the registry of the
-- sources.
use mathlib.Core.List.{Memᴰ as IsIn}
use dnsweaver.Base.{
  ◌≡◌, refl, Bool-cases, inl, inr, true, false, List, [], ◌∷◌, All, All-append, All-imp, map,
}
use dnsweaver.Hostname.{Hostname}
use dnsweaver.Source.{Workload, Source, Found, ok, err}
use dnsweaver.Source.Registry.{
  Registry, is_workload_disabled, source_supports, found_or_none, extract_each, extract_all,
  discover_each, discover_all,
}
use dnsweaver.Reconciler.Cycle.{Discovery, discover}
use dnsweaver.Reconciler.Cycle.Accepted.{IsAccepted, discover-IsAccepted}

-- the sources that `extractHostnames` asks
abbrev pub discover_sources : Registry → List Workload → Discovery
discover_sources r workloads = discover (map (extract_all r) workloads) (discover_all r)

-- A registered source answered with the hostname: for a workload that has not opted out and whose
-- platform the source supports, or from its files.
pub data IsFrom (r : Registry) (workloads : List Workload) (h : Hostname) : Type 0 where
  from_workload :
      {w : Workload} {s : Source} {hs : List Hostname}
      → IsIn w workloads
      → is_workload_disabled w ≡ false
      → IsIn s r.sources
      → source_supports s w.platform ≡ true
      → s.extract w ≡ ok hs
      → IsIn h hs
      → IsFrom r workloads h
  from_file :
      {s : Source} {hs : List Hostname}
      → IsIn s r.sources
      → s.supports_discovery ≡ true
      → s.discover ≡ ok hs
      → IsIn h hs
      → IsFrom r workloads h

All-IsIn : {A : Type 0} (xs : List A) → All (λ x. IsIn x xs) xs
All-IsIn [] = tt
All-IsIn (x ∷ xs) = (IsIn.head refl, All-imp (λ y y_in. IsIn.tail y_in) xs (All-IsIn xs))

module _ (P : Hostname → Type 0) where
  -- What holds of the hostnames of an answer holds of those that are kept of it.
  All-found_or_none :
      (f : Found)
      → ((hs : List Hostname) → f ≡ ok hs → (h : Hostname) → IsIn h hs → P h)
      → All P (found_or_none f)
  All-found_or_none (ok hs) each = All-imp (each hs refl) hs (All-IsIn hs)
  All-found_or_none (err e) each = tt

  All-extract_each :
      (w : Workload) (ss : List Source)
      → ((s : Source)
          → IsIn s ss
          → source_supports s w.platform ≡ true
          → (hs : List Hostname) → s.extract w ≡ ok hs
          → (h : Hostname) → IsIn h hs
          → P h)
      → All P (extract_each w ss)
  unfolding extract_each
  All-extract_each w [] each = tt
  All-extract_each w (s ∷ ss) each =
      let rest = All-extract_each w ss (λ s' s_in. each s' (IsIn.tail s_in)) in
      elim (Bool-cases (source_supports s w.platform)) [
        | inl asked ↦ rw asked (
            All-append P _ _ (All-found_or_none (s.extract w) (each s (IsIn.head refl) asked)) rest)
        | inr passed ↦ rw passed rest
      ]

  All-discover_each :
      (ss : List Source)
      → ((s : Source)
          → IsIn s ss
          → s.supports_discovery ≡ true
          → (hs : List Hostname) → s.discover ≡ ok hs
          → (h : Hostname) → IsIn h hs
          → P h)
      → All P (discover_each ss)
  unfolding discover_each
  All-discover_each [] each = tt
  All-discover_each (s ∷ ss) each =
      let rest = All-discover_each ss (λ s' s_in. each s' (IsIn.tail s_in)) in
      elim (Bool-cases s.supports_discovery) [
        | inl asked ↦
            rw asked
              (All-append P _ _ (All-found_or_none s.discover (each s (IsIn.head refl) asked)) rest)
        | inr passed ↦ rw passed rest
      ]

module _ (r : Registry) (workloads : List Workload) where
  extract_all-IsFrom :
      (w : Workload) → IsIn w workloads → All (IsFrom r workloads) (extract_all r w)
  unfolding extract_all
  extract_all-IsFrom w w_in = elim (Bool-cases (is_workload_disabled w)) [
    | inl asked ↦ rw asked tt
    | inr enabled ↦ rw enabled (
        All-extract_each (IsFrom r workloads) w r.sources
          (λ s s_in supports hs answer h. from_workload w_in enabled s_in supports answer))
  ]

  extract_all_each-IsFrom :
      (ws : List Workload)
      → ((w : Workload) → IsIn w ws → IsIn w workloads)
      → All (All (IsFrom r workloads)) (map (extract_all r) ws)
  extract_all_each-IsFrom [] inside = tt
  extract_all_each-IsFrom (w ∷ ws) inside = (
    extract_all-IsFrom w (inside w (IsIn.head refl)),
    extract_all_each-IsFrom ws (λ w' w_in. inside w' (IsIn.tail w_in)),
  )

-- Every hostname that a cycle discovers passes the validation, and it is traced to an answer of a
-- registered source: from its files, or for a workload of the cycle that has not opted out and whose
-- platform the source supports.
pub discover_sources-IsFrom :
    (r : Registry) (workloads : List Workload)
    → All (IsAccepted (IsFrom r workloads)) (discover_sources r workloads).hostnames
discover_sources-IsFrom r workloads =
    discover-IsAccepted (IsFrom r workloads) (map (extract_all r) workloads) (discover_all r)
      (extract_all_each-IsFrom r workloads workloads (λ w w_in. w_in))
      (All-discover_each (IsFrom r workloads) r.sources
        (λ s s_in supports hs answer h. from_file s_in supports answer))
