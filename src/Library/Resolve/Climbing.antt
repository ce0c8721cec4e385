-- ===== src/Library/Resolve/Climbing.antt =====
-- How the items of internal/library/resolve.go hang together by their parents.
use atrium_go.Base.{ℕ, zero, suc, ◌≤◌, List, ◌≡◌, refl, sym, In}
use atrium_go.Ports.Items.{ScannedItem}
use atrium_go.Text.{Text}

-- From the item, that many parents among the items lead to one whose parent is the root.
abbrev pub Climbs : Text → List ScannedItem → ℕ → ScannedItem → Type 0
Climbs root items zero x = x.parent_id ≡ root
Climbs root items (suc n) x =
    (p : ScannedItem) × In p items × (p.id ≡ x.parent_id) × Climbs root items n p

-- The same in two parents at most.
abbrev pub Beneath : Text → List ScannedItem → ScannedItem → Type 0
Beneath root items x = (n : ℕ) × (n ≤ 2) × Climbs root items n x

-- From the item, that many parents among the items lead to the given one, itself among them.
abbrev pub Ascends : ScannedItem → List ScannedItem → ℕ → ScannedItem → Type 0
Ascends top items zero x = x ≡ top
Ascends top items (suc n) x =
    (p : ScannedItem) × In p items × (p.id ≡ x.parent_id) × Ascends top items n p

pub Climbs-Ascends :
    (top : ScannedItem) (items others : List ScannedItem) (n : ℕ) (x : ScannedItem)
    → In top others
    → ((p : ScannedItem) → In p items → In p others)
    → Climbs top.id items n x
    → Ascends top others (suc n) x
Climbs-Ascends top items others zero x i wider e = (top, i, sym e, refl)
Climbs-Ascends top items others (suc n) x i wider (p, j, e, above) =
    (p, wider p j, e, Climbs-Ascends top items others n p i wider above)
