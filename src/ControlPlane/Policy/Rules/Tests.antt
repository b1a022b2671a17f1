-- ===== src/ControlPlane/Policy/Rules/Tests.antt =====
-- The rules of control-plane/policy.py on a small store: runs, and the theorems at inputs.
use mathlib.Core.List.{Memᴰ}
use dockade.Base.{◌≤◌, ◌≡◌, refl, true, none, some, [], ◌∷◌, nat_eq, list_eq, filter, find, any}
use dockade.Base.Text.{Text, text, ends_with, lower, lower_char, rstrip}
use dockade.ControlPlane.Policy.Hosts.{match, normalize_host}
use dockade.ControlPlane.Policy.Rules.{
  Rule, Lease, Store, allow, deny, hold, blocked_by_rule, no_matching_rule, allowed_by_lease,
  rule_pass, passes_over, held, longest_lived, live_lease, ruling_in, ruling, decide, decide_in,
  covers_subtree, subtree, landing, sorted_set, insert_sorted, text_lt, is_for, is_live_for,
}
use dockade.ControlPlane.Policy.Rules.Exact.{ruling_in-exact, ruling_in-lease_card, by_rules}
use dockade.ControlPlane.Policy.Rules.Isolation.{ruling_in-class_isolation}

abbrev sandbox : Text
sandbox = text "sandbox"

abbrev rule : Text → Text → Text → Rule
rule pattern action c = record { pattern = pattern; action = action; client_class = c }

abbrev lease : Lease
lease = record {
  id = 1;
  host = text "dl.net";
  client_class = sandbox;
  approval_id = text "a1";
  expires_at = 2000;
}

abbrev store : Store
store = record {
  rules =
      rule (text ".evil.com") (text "block") sandbox
      ∷ rule (text ".example.com") (text "allow") sandbox
      ∷ rule (text "db.org") (text "allow") (text "mcp")
      ∷ [];
  leases = lease ∷ [];
}

-- What a run computes through: naming this opens all of it.
all_steps : Unit {0}
unfolding match normalize_host ends_with lower lower_char rstrip filter find any rule_pass
    passes_over held longest_lived live_lease ruling_in ruling decide decide_in covers_subtree
    subtree landing sorted_set insert_sorted text_lt
all_steps = tt

decide_block :
    decide store 100 (text "X.EVIL.com.") sandbox
    ≡ (deny, blocked_by_rule (text ".evil.com") sandbox)
unfolding all_steps
decide_block = refl

decide_lease :
    decide store 100 (text "dl.net") sandbox
    ≡ (allow, allowed_by_lease (text "dl.net") sandbox 1900)
unfolding all_steps
decide_lease = refl

decide_elsewhere :
    decide store 3000 (text "db.org") sandbox ≡ (hold, no_matching_rule sandbox (text "mcp" ∷ []))
unfolding all_steps
decide_elsewhere = refl

ruling_in-exact_example : (ruling_in store 100 (text "api.example.com") sandbox).decision ≡ allow
unfolding any match ends_with
ruling_in-exact_example = ruling_in-exact store 100 (text "api.example.com") sandbox

card_of_lease : (ruling_in store 100 (text "dl.net") sandbox).lease_card ≡ some (text "a1")
unfolding all_steps
card_of_lease = refl

ruling_in-lease_card_example :
    ((ruling_in store 100 (text "dl.net") sandbox).decision ≡ allow)
    × (by_rules sandbox (match (text "dl.net")) store.rules ≡ none)
    × ((l : Lease) × Memᴰ l store.leases
        × (is_live_for (text "dl.net") sandbox 100 l ≡ true)
        × (l.approval_id ≡ text "a1")
        × ((m : Lease)
            → Memᴰ m store.leases
            → is_live_for (text "dl.net") sandbox 100 m ≡ true
            → m.expires_at ≤ l.expires_at))
ruling_in-lease_card_example =
    ruling_in-lease_card store 100 (text "dl.net") sandbox (text "a1") card_of_lease

-- The same store without what it holds for another class.
abbrev without_mcp : Store
without_mcp = record {
  rules =
      rule (text ".evil.com") (text "block") sandbox
      ∷ rule (text ".example.com") (text "allow") sandbox
      ∷ [];
  leases = lease ∷ [];
}

ruling_in-class_isolation_example :
    ((ruling_in store 100 (text "db.org") sandbox).decision
      ≡ (ruling_in without_mcp 100 (text "db.org") sandbox).decision)
    × ((ruling_in store 100 (text "db.org") sandbox).lease_card
        ≡ (ruling_in without_mcp 100 (text "db.org") sandbox).lease_card)
unfolding filter
ruling_in-class_isolation_example =
    ruling_in-class_isolation store without_mcp 100 (text "db.org") sandbox refl refl

-- A row twice.
abbrev repeated : Store
repeated = record store { leases = lease ∷ lease ∷ [] }

once : (l : Lease) → Memᴰ l (lease ∷ lease ∷ []) → Memᴰ l (lease ∷ [])
once l (Memᴰ.head e) = Memᴰ.head e
once l (Memᴰ.tail m) = m

abbrev new_block : Rule
new_block = rule (text "dl.net") (text "block") sandbox

abbrev new_allow : Rule
new_allow = rule (text "x.evil.com") (text "allow") sandbox

wide_rules :
    (r : Rule)
    → Memᴰ r store.rules
    → is_for sandbox r ≡ true
    → match (text "a.example.com") r.pattern ≡ true
    → covers_subtree (text "example.com") r.pattern ≡ true
unfolding all_steps
wide_rules r (Memᴰ.head e) own m = absurd (cc (rw e at m))
wide_rules r (Memᴰ.tail (Memᴰ.head e)) own m = rw e refl
wide_rules r (Memᴰ.tail (Memᴰ.tail (Memᴰ.head e))) own m = absurd (cc (rw e at own))
wide_rules r (Memᴰ.tail (Memᴰ.tail (Memᴰ.tail n))) own m = elim n [ ]
