-- ===== src/Reconciler/Comparison/Placed.antt =====
-- Where the comparison puts each key.
use mathlib.Core.List.{Memᴰ as IsIn}
use dnsweaver.Base.{◌⊎◌, ◌≡◌, true, false, Option, none, some, List}
use dnsweaver.Base.Map.{Map}
use dnsweaver.Provider.Record.{Record}
use dnsweaver.Reconciler.Comparison.{RecordDiff, record_needs_update}

-- Where the comparison puts a key, by the existing and the desired record that it has.
abbrev pub IsPlaced : Option Record → Option Record → RecordDiff → Type 0
IsPlaced none none d = Unit
IsPlaced none (some desired) d = IsIn desired d.to_create
IsPlaced (some existing) none d = IsIn existing d.to_delete
IsPlaced (some existing) (some desired) d =
    ((record_needs_update existing desired ≡ true)
      × IsIn (record { existing = existing; desired = desired }) d.to_update)
    ⊎ ((record_needs_update existing desired ≡ false) × IsIn existing d.unchanged)

-- the same for the desired side alone
abbrev IsPlacedDesired : Option Record → Option Record → RecordDiff → Type 0
IsPlacedDesired o none d = Unit
IsPlacedDesired none (some desired) d = IsIn desired d.to_create
IsPlacedDesired (some existing) (some desired) d = IsPlaced (some existing) (some desired) d
