-- ===== src/Reconciler/Cycle/Discovered.antt =====
-- Which hostnames a cycle discovers.
use dnsweaver.Base.{
  ℕ, suc, ◌+◌, String, ◌≡◌, refl, ap, ◌∙◌, Option, none, some, List, [], ◌∷◌, ◌++◌, arith,
  if◌then◌else◌, ◌==◌, is_some, length, eq_iff, length-append, sym,
}
use dnsweaver.Base.Map.{Map, lookup, insert, lookup-insert}
use dnsweaver.Hostname.{Hostname, normalized_name}
use dnsweaver.Reconciler.Cycle.{
  Extracted, Discovery, add_hostname, add_hostnames, add_workloads, add_files, extract_hostnames,
}

-- the first hostname of the canonical name
abbrev pub find_named : String → List Hostname → Option Hostname
find_named n [] = none
find_named n (h ∷ hs) = if normalized_name h == n then some h else find_named n hs

-- the hostnames of all workloads, in their order
abbrev pub all_valid : List Extracted → List Hostname
all_valid [] = []
all_valid (e ∷ es) = e.valid ++ all_valid es

abbrev first_of : Option Hostname → Option Hostname → Option Hostname
first_of none o = o
first_of (some h) o = some h

find_named-append :
    (n : String) (xs ys : List Hostname)
    → find_named n (xs ++ ys) ≡ first_of (find_named n xs) (find_named n ys)
find_named-append n [] ys = refl
find_named-append n (x ∷ xs) ys = ground (arith, find_named-append n xs ys)

-- A hostname that is put in only if its name is missing changes what is found by at most that.
insert_new :
    (n : String) (h : Hostname) (m : Map Hostname)
    → lookup n
        (if is_some (lookup (normalized_name h) m) then m else insert (normalized_name h) h m)
      ≡ first_of (lookup n m) (if normalized_name h == n then some h else none)
insert_new n h m =
    let equal = eq_iff (normalized_name h) n in
    let inserted = lookup-insert (normalized_name h) n h m in ground (arith, equal, inserted)

first_of_assoc :
    (n : String) (a : Option Hostname) (h : Hostname) (b : Option Hostname)
    → first_of (first_of a (if normalized_name h == n then some h else none)) b
      ≡ first_of a (if normalized_name h == n then some h else b)
first_of_assoc n a h b = ground arith

first_of-none : (a : Option Hostname) → first_of a none ≡ a
first_of-none none = refl
first_of-none (some h) = refl

pub add_hostname-hostnames :
    (d : Discovery) (h : Hostname)
    → (add_hostname d h).hostnames ≡ (
        if is_some (lookup (normalized_name h) d.hostnames)
        then d.hostnames
        else insert (normalized_name h) h d.hostnames)
unfolding add_hostname
add_hostname-hostnames d h = ground arith

lookup-add_hostnames :
    (n : String) (d : Discovery) (hs : List Hostname)
    → lookup n (add_hostnames d hs).hostnames ≡ first_of (lookup n d.hostnames) (find_named n hs)
unfolding add_hostnames
lookup-add_hostnames n d [] = sym (first_of-none (lookup n d.hostnames))
lookup-add_hostnames n d (h ∷ hs) =
    lookup-add_hostnames n (add_hostname d h) hs
    ∙ ap (λ m. first_of (lookup n m) (find_named n hs)) (add_hostname-hostnames d h)
    ∙ ap (λ o. first_of o (find_named n hs)) (insert_new n h d.hostnames)
    ∙ first_of_assoc n (lookup n d.hostnames) h (find_named n hs)

first_of-first_of :
    (a b c : Option Hostname) → first_of (first_of a b) c ≡ first_of a (first_of b c)
first_of-first_of none b c = refl
first_of-first_of (some h) b c = refl

lookup-add_workloads :
    (n : String) (d : Discovery) (es : List Extracted)
    → lookup n (add_workloads d es).hostnames
      ≡ first_of (lookup n d.hostnames) (find_named n (all_valid es))
unfolding add_workloads
lookup-add_workloads n d [] = sym (first_of-none (lookup n d.hostnames))
lookup-add_workloads n d (e ∷ es) =
    let d' : Discovery = record d { invalid = d.invalid + e.invalid } in
    lookup-add_workloads n (add_hostnames d' e.valid) es
    ∙ ap (λ o. first_of o (find_named n (all_valid es))) (lookup-add_hostnames n d' e.valid)
    ∙ first_of-first_of (lookup n d.hostnames) (find_named n e.valid) (find_named n (all_valid es))
    ∙ ap (first_of (lookup n d.hostnames)) (sym (find_named-append n e.valid (all_valid es)))

lookup-add_files :
    (n : String) (m : Map Hostname) (hs : List Hostname)
    → lookup n (add_files m hs) ≡ first_of (lookup n m) (find_named n hs)
unfolding add_files
lookup-add_files n m [] = sym (first_of-none (lookup n m))
lookup-add_files n m (h ∷ hs) =
    lookup-add_files n
      (if is_some (lookup (normalized_name h) m) then m else insert (normalized_name h) h m) hs
    ∙ ap (λ o. first_of o (find_named n hs)) (insert_new n h m)
    ∙ first_of_assoc n (lookup n m) h (find_named n hs)

-- Under each canonical name, what is discovered is the first valid hostname of that name: the
-- workloads come in their order, and the files after them.
pub extract_hostnames-first :
    (n : String) (workloads : List Extracted) (files : Extracted)
    → lookup n (extract_hostnames workloads files).hostnames
      ≡ find_named n (all_valid workloads ++ files.valid)
unfolding extract_hostnames lookup
extract_hostnames-first n workloads files =
    let d : Discovery = record { hostnames = []; invalid = 0; duplicate = 0 } in
    lookup-add_files n (add_workloads d workloads).hostnames files.valid
    ∙ ap (λ o. first_of o (find_named n files.valid)) (lookup-add_workloads n d workloads)
    ∙ sym (find_named-append n (all_valid workloads) files.valid)

length-insert_new :
    (k : String) (h : Hostname) (m : Map Hostname)
    → lookup k m ≡ none
    → length (insert k h m) ≡ suc (length m)
unfolding lookup insert
length-insert_new k h [] e = refl
length-insert_new k h ((j, v) ∷ m) e = ground (arith, length-insert_new k h m)

-- what a discovery has counted
abbrev pub counted : Discovery → ℕ
counted d = length d.hostnames + d.duplicate

counted-add_hostname : (d : Discovery) (h : Hostname) → counted (add_hostname d h) ≡ suc (counted d)
unfolding add_hostname
counted-add_hostname d h = ground (arith, length-insert_new (normalized_name h) h d.hostnames)

counted-add_hostnames :
    (d : Discovery) (hs : List Hostname) → counted (add_hostnames d hs) ≡ counted d + length hs
unfolding add_hostnames
counted-add_hostnames d [] = omega arith
counted-add_hostnames d (h ∷ hs) =
    omega (arith, counted-add_hostnames (add_hostname d h) hs, counted-add_hostname d h)

counted-add_workloads :
    (d : Discovery) (es : List Extracted)
    → counted (add_workloads d es) ≡ counted d + length (all_valid es)
unfolding add_workloads
counted-add_workloads d [] = omega arith
counted-add_workloads d (e ∷ es) =
    let d' : Discovery = record d { invalid = d.invalid + e.invalid } in
    omega (
      arith,
      counted-add_workloads (add_hostnames d' e.valid) es,
      counted-add_hostnames d' e.valid,
      length-append e.valid (all_valid es),
    )

-- Without hostnames from files, the hostnames discovered and the duplicates reported are together
-- all the valid hostnames of the workloads.
pub extract_hostnames-counted :
    (workloads : List Extracted) (invalid : ℕ)
    → counted (extract_hostnames workloads (record { valid = []; invalid = invalid }))
      ≡ length (all_valid workloads)
unfolding extract_hostnames add_files
extract_hostnames-counted workloads invalid =
    omega (
      arith,
      counted-add_workloads (record { hostnames = []; invalid = 0; duplicate = 0 }) workloads,
    )
