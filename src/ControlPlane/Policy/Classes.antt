-- ===== src/ControlPlane/Policy/Classes.antt =====
-- Client classes in control-plane/policy.py: the names that the setting may define, and the class of
-- an address.
use dockade.Base.{
  ◌≡◌, refl, sym, subst, ◌∙◌, ◌≢◌, ◌⊎◌, inl, inr, true, false, ◌||◌, Option, none, some, List, [],
  ◌∷◌, ◌++◌, arith, ◌==◌, ==_iff, nat_eq, list_eq, is_empty, contains, any, All, Bool-cases,
  Option-cases,
}
use dockade.Base.Text.{Text, lower, strip, is_space, split_on, partition}
use dockade.ControlPlane.Policy.Hosts.{
  Address, Network, ClientClasses, unclassified, in_network, parse_entry, parse_entries,
  parse_client_classes, class_names_from, class_names, class_of, client_class, is_bracket,
}

-- A name that a class may have.
abbrev pub IsUsable : Text × Network → Type 0
IsUsable (name, net) = (is_empty name ≡ false) × (name ≢ unclassified)

parse_entry-IsUsable :
    (parse_network : Text → Option Network) (entry : Text) (c : Text × Network)
    → parse_entry parse_network entry ≡ some c
    → IsUsable c
unfolding parse_entry
parse_entry-IsUsable parse_network entry (name, net) h =
    ground (arith, ==_iff (lower (strip is_space (partition b'=' entry).0)) unclassified)

-- Of every class that was parsed.
abbrev UsableIfParsed : Option ClientClasses → Type 0
UsableIfParsed none = Unit
UsableIfParsed (some cs) = All IsUsable cs

added-IsUsable :
    (c : Option (Text × Network)) (rest : Option ClientClasses)
    → ((e : Text × Network) → c ≡ some e → IsUsable e)
    → UsableIfParsed rest
    → UsableIfParsed
        (elim c [ none ↦ none | some e ↦ elim rest [ none ↦ none | some cs ↦ some (e ∷ cs) ] ])
added-IsUsable none rest h k = tt
added-IsUsable (some e) none h k = tt
added-IsUsable (some e) (some cs) h k = (h e refl, k)

parse_entries-IsUsable :
    (parse_network : Text → Option Network) (parts : List Text)
    → UsableIfParsed (parse_entries parse_network parts)
unfolding parse_entries
parse_entries-IsUsable parse_network [] = tt
parse_entries-IsUsable parse_network (part ∷ parts) =
    let ih = parse_entries-IsUsable parse_network parts in
    elim (Bool-cases (is_empty (strip is_space part))) [
      | inl blank ↦ rw blank ih
      | inr set ↦ rw set (
          added-IsUsable (parse_entry parse_network (strip is_space part))
            (parse_entries parse_network parts)
            (parse_entry-IsUsable parse_network (strip is_space part)) ih)
    ]

contains-append_one :
    (a name : Text) (seen : List Text)
    → contains a (seen ++ name ∷ []) ≡ (contains a seen || a == name)
unfolding contains
contains-append_one a name [] = ground arith
contains-append_one a name (x ∷ seen) = ground (arith, contains-append_one a name seen)

-- The loop collects every name once.
contains-class_names_from :
    (a : Text) (seen : List Text) (cs : ClientClasses)
    → contains a (class_names_from seen cs) ≡ (contains a seen || any (λ c. a == c.0) cs)
unfolding class_names_from any
contains-class_names_from a seen [] = ground arith
contains-class_names_from a seen ((name, net) ∷ cs) = elim (Bool-cases (contains name seen)) [
  | inl old ↦ rw old (contains-class_names_from a seen cs ∙ absorbed old)
  | inr new ↦ rw new (
      contains-class_names_from a (seen ++ name ∷ []) cs
      ∙ ground (arith, contains-append_one a name seen))
]
  where
    absorbed :
        contains name seen ≡ true
        → (contains a seen || any (λ c. a == c.0) cs)
          ≡ (contains a seen || (a == name || any (λ c. a == c.0) cs))
    absorbed old = elim (Bool-cases (a == name)) [
      | inl same ↦ rw ((==_iff a name).0 same, old)
      | inr other ↦ rw other
    ]

pub contains-class_names :
    (a : Text) (cs : ClientClasses) → contains a (class_names cs) ≡ any (λ c. a == c.0) cs
unfolding class_names contains
contains-class_names a cs = contains-class_names_from a [] cs

unclassified-absent :
    (cs : ClientClasses) → All IsUsable cs → any (λ c. unclassified == c.0) cs ≡ false
unfolding any
unclassified-absent [] h = refl
unclassified-absent ((name, net) ∷ cs) h =
    ground (arith, ==_iff unclassified name, unclassified-absent cs h.1, h.0.1)

-- A class of the setting, or none.
abbrev Known : ClientClasses → Text → Type 0
Known cs t = (t ≡ unclassified) ⊎ (any (λ c. t == c.0) cs ≡ true)

class_of-Known : (cs : ClientClasses) (a : Address) (t : Text) → class_of cs a ≡ t → Known cs t
unfolding class_of any
class_of-Known [] a t h = inl (sym h)
class_of-Known ((name, net) ∷ cs) a t h = elim (Bool-cases (in_network a net)) [
  | inl here ↦ let same : name ≡ t = rw here at h in inr (ground (arith, same, ==_iff t name))
  | inr later ↦ elim (class_of-Known cs a t (rw later at h)) [
    | inl e ↦ inl e
    | inr k ↦ inr (ground (arith, k))
  ]
]

client_class-Known :
    (parse_ip : Text → Option Address) (cs : ClientClasses) (client : Option Text) (t : Text)
    → client_class parse_ip cs client ≡ t
    → Known cs t
unfolding client_class
client_class-Known parse_ip cs none t h = inl (sym h)
client_class-Known parse_ip cs (some []) t h = inl (sym h)
client_class-Known parse_ip cs (some (c ∷ u)) t h =
    elim (Option-cases (parse_ip (strip is_bracket (strip is_space (c ∷ u))))) [
      | inl malformed ↦ inl (ground arith)
      | inr (a, e) ↦ class_of-Known cs a t (ground arith)
    ]

-- A setting that is accepted defines no class that is called "unclassified", so no rule can be
-- scoped to the clients that could not be placed.
pub class_names-unclassified :
    (parse_network : Text → Option Network) (spec : Text) (cs : ClientClasses)
    → parse_client_classes parse_network spec ≡ some cs
    → contains unclassified (class_names cs) ≡ false
unfolding parse_client_classes
class_names-unclassified parse_network spec cs h =
    contains-class_names unclassified cs
    ∙ unclassified-absent cs
        (subst UsableIfParsed h (parse_entries-IsUsable parse_network (split_on b',' spec)))

-- A client is in a class of the setting, or it is unclassified.
pub client_class-known :
    (parse_ip : Text → Option Address) (cs : ClientClasses) (client : Option Text)
    → client_class parse_ip cs client ≢ unclassified
    → contains (client_class parse_ip cs client) (class_names cs) ≡ true
client_class-known parse_ip cs client h =
    elim (client_class-Known parse_ip cs client (client_class parse_ip cs client) refl) [
      | inl e ↦ absurd (h e)
      | inr k ↦ contains-class_names (client_class parse_ip cs client) cs ∙ k
    ]
