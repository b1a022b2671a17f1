-- ===== src/ControlPlane/Policy/Tests.antt =====
-- Hosts, patterns and classes of control-plane/policy.py: runs, and the theorems at inputs.
use dockade.Base.{
  ◌≤◌, ◌≡◌, refl, Option, none, some, [], ◌∷◌, nat_eq, list_eq, ◌==◌, if◌then◌else◌, length, all,
  contains, All,
}
use dockade.Base.Text.{
  Text, text, lower, lower_char, is_space, strip, lstrip, rstrip, ends_with, split_on, split_dot,
  join_dot, partition,
}
use dockade.ControlPlane.Policy.Hosts.{
  Address, Network, ClientClasses, in_network, parse_entry, parse_entries, parse_client_classes,
  class_names, class_names_from, class_of, client_class, match, last_labels, add_wildcard,
  exact_form, persist_candidates, rule_error, is_label, single_label, normalize_pattern,
}
use dockade.ControlPlane.Policy.Candidates.{IsOffered, persist_candidates-IsOffered}
use dockade.ControlPlane.Policy.Names.{rule_error-allow_floor}
use dockade.ControlPlane.Policy.Rules.{Store}

-- One address and one network, for what `ipaddress` reads.
abbrev one_ip : Text → Option Address
one_ip t = if t == text "10.0.0.7" then some (record { version = 4; value = 167772167 }) else none

abbrev one_network : Text → Option Network
one_network t =
    if t == text "10.0.0.0/24"
    then some (record { version = 4; base = 167772160; prefix_len = 24 })
    else none

-- What a run computes through: naming this opens all of it.
all_steps : Unit {0}
unfolding lower lower_char is_space strip lstrip rstrip ends_with split_on join_dot partition all
    contains in_network parse_entry parse_entries parse_client_classes class_names class_names_from
    class_of client_class match last_labels add_wildcard exact_form persist_candidates rule_error
    is_label normalize_pattern
all_steps = tt

candidates_run :
    persist_candidates one_ip (text " API.Example.co.uk. ")
    ≡ text "api.example.co.uk" ∷ text ".api.example.co.uk" ∷ text ".co.uk" ∷ []
unfolding all_steps
candidates_run = refl

candidates_of_address : persist_candidates one_ip (text "[10.0.0.7]") ≡ text "[10.0.0.7]" ∷ []
unfolding all_steps
candidates_of_address = refl

floor_run :
    (rule_error one_ip (text ".com") (text "allow") ≡ some single_label)
    × (rule_error one_ip (text ".com") (text "block") ≡ none)
unfolding all_steps
floor_run = (refl, refl)

abbrev host : Text
host = text "a.example.com"

persist_candidates-IsOffered_example :
    All (IsOffered (exact_form host)) (persist_candidates one_ip host)
persist_candidates-IsOffered_example = persist_candidates-IsOffered one_ip host

abbrev no_rules : Store
no_rules = record { rules = []; leases = [] }

rule_error-allow_floor_example : 2 ≤ length (split_dot host)
rule_error-allow_floor_example =
    rule_error-allow_floor one_ip (text ".example.com") host (unfold all_steps in refl) refl
      (unfold all_steps in refl)

abbrev setting : Text
setting = text "sandbox=10.0.0.0/24, mcp=10.0.0.0/24"

abbrev net : Network
net = record { version = 4; base = 167772160; prefix_len = 24 }

abbrev classes : ClientClasses
classes = (text "sandbox", net) ∷ (text "mcp", net) ∷ []

setting_parses : parse_client_classes one_network setting ≡ some classes
unfolding all_steps
setting_parses = refl

first_match : client_class one_ip classes (some (text "[10.0.0.7]")) ≡ text "sandbox"
unfolding all_steps
first_match = refl
