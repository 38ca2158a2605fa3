-- ===== src/Reconciler/Cycle/Accepted.antt =====
-- What the validation keeps from the providers.
use dnsweaver.Base.{
  All, map, subst, Bool-cases, inl, inr, ◌+◌, String, ◌≡◌, none, List, [], ◌∷◌, arith,
  if◌then◌else◌, is_some, sym,
}
use dnsweaver.Base.Map.{Map, lookup, insert}
use dnsweaver.Hostname.{Hostname, normalized_name}
use dnsweaver.Hostname.Validation.{validate, validate_all}
use dnsweaver.Reconciler.Cycle.{
  extracted, discover, Discovery, add_hostname, add_hostnames, add_workloads, add_files,
  extract_hostnames,
}
use dnsweaver.Reconciler.Cycle.Discovered.{add_hostname-hostnames}

-- The hostname passes the validation, and it is one of these.
abbrev pub IsAccepted : (Hostname → Type 0) → String × Hostname → Type 0
IsAccepted P (_, h) = (validate h ≡ none) × P h

module _ (P : Hostname → Type 0) where
  validate_all-All :
      (hs : List Hostname) → All P hs → All (λ h. (validate h ≡ none) × P h) (validate_all hs).valid
  unfolding validate_all
  validate_all-All [] h = tt
  validate_all-All (h ∷ hs) (p, ps) = ground (arith, p, validate_all-All hs ps)

  All-insert :
      (k : String) (h : Hostname) (m : Map Hostname)
      → (validate h ≡ none) × P h
      → All (IsAccepted P) m
      → All (IsAccepted P) (insert k h m)
  unfolding insert
  All-insert k h [] ok_h ok_m = (ok_h, tt)
  All-insert k h ((j, old) ∷ m) ok_h (ok_old, ok_m) =
      let rest = All-insert k h m ok_h ok_m in ground (arith, ok_h, ok_old, ok_m, rest)

  All-insert_new :
      (h : Hostname) (m : Map Hostname)
      → (validate h ≡ none) × P h
      → All (IsAccepted P) m
      → All
          (IsAccepted P)
          (if is_some (lookup (normalized_name h) m) then m else insert (normalized_name h) h m)
  All-insert_new h m ok_h ok_m = elim (Bool-cases (is_some (lookup (normalized_name h) m))) [
    | inl there ↦ rw there ok_m
    | inr new ↦ rw new (All-insert (normalized_name h) h m ok_h ok_m)
  ]

  add_hostnames-IsAccepted :
      (d : Discovery) (hs : List Hostname)
      → All (λ h. (validate h ≡ none) × P h) hs
      → All (IsAccepted P) d.hostnames
      → All (IsAccepted P) (add_hostnames d hs).hostnames
  unfolding add_hostnames
  add_hostnames-IsAccepted d [] ok_hs ok_m = ok_m
  add_hostnames-IsAccepted d (h ∷ hs) (ok_h, ok_hs) ok_m =
      add_hostnames-IsAccepted (add_hostname d h) hs ok_hs (
        subst (All (IsAccepted P)) (sym (add_hostname-hostnames d h))
          (All-insert_new h d.hostnames ok_h ok_m))

  add_workloads-IsAccepted :
      (d : Discovery) (ws : List (List Hostname))
      → All (IsAccepted P) d.hostnames
      → All (All P) ws
      → All (IsAccepted P) (add_workloads d (map extracted ws)).hostnames
  unfolding add_workloads extracted
  add_workloads-IsAccepted d [] ok_m ok_ws = ok_m
  add_workloads-IsAccepted d (hs ∷ ws) ok_m (ok_hs, ok_ws) =
      let e = extracted hs in
      let d' : Discovery = record d { invalid = d.invalid + e.invalid } in
      add_workloads-IsAccepted (add_hostnames d' e.valid) ws
        (add_hostnames-IsAccepted d' e.valid (validate_all-All hs ok_hs) ok_m) ok_ws

  add_files-IsAccepted :
      (m : Map Hostname) (hs : List Hostname)
      → All (λ h. (validate h ≡ none) × P h) hs
      → All (IsAccepted P) m
      → All (IsAccepted P) (add_files m hs)
  unfolding add_files
  add_files-IsAccepted m [] ok_hs ok_m = ok_m
  add_files-IsAccepted m (h ∷ hs) (ok_h, ok_hs) ok_m =
      add_files-IsAccepted
        (if is_some (lookup (normalized_name h) m) then m else insert (normalized_name h) h m) hs
        ok_hs (All-insert_new h m ok_h ok_m)

  -- Every hostname that a cycle discovers passes the validation, and it is one of those that were
  -- extracted.
  pub discover-IsAccepted :
      (workloads : List (List Hostname)) (files : List Hostname)
      → All (All P) workloads
      → All P files
      → All (IsAccepted P) (discover workloads files).hostnames
  unfolding extract_hostnames extracted
  discover-IsAccepted workloads files ok_ws ok_fs =
      add_files-IsAccepted _ (extracted files).valid (validate_all-All files ok_fs) (
        add_workloads-IsAccepted (record { hostnames = []; invalid = 0; duplicate = 0 }) workloads
          tt ok_ws)
