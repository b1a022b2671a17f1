-- ===== src/ControlPlane/Holds/Groups.antt =====
-- What `_close_group_locked` of control-plane/holds.py leaves of the groups.
use dockade.Base.{
  ◌≡◌, refl, Bool, true, false, ◌&&◌, ◌||◌, none, some, [], ◌∷◌, arith, if◌then◌else◌, ◌==◌, ==_iff,
  list_eq, nat_eq, option_eq,
}
use dockade.Base.Dict.{Dict, get, remove, HasUniqueKeys, get-remove, remove-HasUniqueKeys}
use dockade.Base.Text.{Text}
use dockade.ControlPlane.Holds.{GroupKey, Registry, group_key_eq, close_items, close_group}

-- Some item holds `id` under `key`.
names : Text → GroupKey → Dict GroupKey Text → Bool
names id key [] = false
names id key ((j, held) ∷ items) = held == id && j == key || names id key items

get-close_items :
    (id : Text) (items groups : Dict GroupKey Text) (key : GroupKey)
    → get (close_items id items groups) key ≡ (if names id key items then none else get groups key)
unfolding close_items names
get-close_items id [] groups key = refl
get-close_items id ((j, held) ∷ items) groups key = ground (
  arith,
  get-remove groups j key,
  get-close_items id items groups key,
  get-close_items id items (remove groups j) key,
)

names-get :
    (id : Text) (groups : Dict GroupKey Text) (key : GroupKey)
    → HasUniqueKeys groups
    → names id key groups ≡ (get groups key == some id)
unfolding names get
names-get id [] key u = refl
names-get id ((j, held) ∷ groups) key u = ground (arith, ==_iff j key, names-get id groups key u.1)

-- A group stays exactly if it names another card.
pub get-close_group :
    (id : Text) (r : Registry) (key : GroupKey)
    → HasUniqueKeys r.groups
    → get (close_group id r).groups key
      ≡ (if get r.groups key == some id then none else get r.groups key)
unfolding close_group
get-close_group id r key u =
    ground (arith, get-close_items id r.groups r.groups key, names-get id r.groups key u)

pub close_items-HasUniqueKeys :
    (id : Text) (items groups : Dict GroupKey Text)
    → HasUniqueKeys groups
    → HasUniqueKeys (close_items id items groups)
unfolding close_items
close_items-HasUniqueKeys id [] groups u = u
close_items-HasUniqueKeys id ((j, held) ∷ items) groups u =
    close_items-HasUniqueKeys id items (if held == id then remove groups j else groups)
      (kept (held == id))
  where
    kept : (b : Bool) → HasUniqueKeys (if b then remove groups j else groups)
    kept true = remove-HasUniqueKeys groups j u
    kept false = u
