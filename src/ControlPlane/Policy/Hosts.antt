-- ===== src/ControlPlane/Policy/Hosts.antt =====
-- control-plane/policy.py: hosts and patterns. `ipaddress` is the standard library's parser: it is
-- the parameter `parse_ip`, and an address is its version with its value.
use Prim.Native.Nat.{◌^◌}
use dockade.Base.{
  ℕ, ◌-◌, ◌/◌, Bool, true, false, ◌&&◌, ◌||◌, not, Option, none, some, List, [], ◌∷◌, ◌++◌, leb,
  ltb, if◌then◌else◌, ◌==◌, nat_eq, list_eq, length, is_empty, all, contains,
}
use dockade.Base.Text.{
  Text, text, lower, is_space, strip, rstrip, is_dot, starts_with_dot, tail, ends_with, split_dot,
  join_dot, split_on, partition,
}

pub record Address : Type 0 where
  pub version : ℕ
  pub value : ℕ

pub record Network : Type 0 where
  pub version : ℕ
  pub base : ℕ
  pub prefix_len : ℕ

-- The width of an address of a version.
width : ℕ → ℕ
width version = if version == 4 then 32 else 128

-- `addr in net`
unfoldable pub in_network : Address → Network → Bool
unfolding width
in_network a n =
    a.version == n.version
    && a.value / 2 ^ (width n.version - n.prefix_len)
      == n.base / 2 ^ (width n.version - n.prefix_len)

abbrev pub unclassified : Text
unclassified = text "unclassified"

abbrev pub ClientClasses : Type 0
ClientClasses = List (Text × Network)

-- One entry of the setting; `none` stops the start.
unfoldable pub parse_entry : (Text → Option Network) → Text → Option (Text × Network)
parse_entry parse_network entry =
    let (before, after) = partition b'=' entry in
    let name = lower (strip is_space before) in
    if is_empty name || name == unclassified
    then none
    else elim (parse_network (strip is_space after)) [ none ↦ none | some net ↦ some (name, net) ]

unfoldable pub parse_entries : (Text → Option Network) → List Text → Option ClientClasses
parse_entries parse_network [] = some []
parse_entries parse_network (part ∷ parts) =
    let entry = strip is_space part in
    let rest = parse_entries parse_network parts in
    if is_empty entry then rest else elim (parse_entry parse_network entry) [
      | none ↦ none
      | some c ↦ elim rest [ none ↦ none | some cs ↦ some (c ∷ cs) ]
    ]

unfoldable pub parse_client_classes : (Text → Option Network) → Text → Option ClientClasses
parse_client_classes parse_network spec = parse_entries parse_network (split_on b',' spec)

-- `for name, _ in CLIENT_CLASSES: if name not in seen: seen.append(name)`
unfoldable pub class_names_from : List Text → ClientClasses → List Text
class_names_from seen [] = seen
class_names_from seen ((name, net) ∷ cs) =
    class_names_from (if contains name seen then seen else seen ++ name ∷ []) cs

unfoldable pub class_names : ClientClasses → List Text
class_names cs = class_names_from [] cs

unfoldable pub class_of : ClientClasses → Address → Text
class_of [] a = unclassified
class_of ((name, net) ∷ cs) a = if in_network a net then name else class_of cs a

abbrev pub is_bracket : ℕ → Bool
is_bracket c = c == b'[' || c == b']'

unfoldable pub client_class : (Text → Option Address) → ClientClasses → Option Text → Text
client_class parse_ip cs none = unclassified
client_class parse_ip cs (some []) = unclassified
client_class parse_ip cs (some (c ∷ t)) =
    elim (parse_ip (strip is_bracket (strip is_space (c ∷ t)))) [
      | none ↦ unclassified
      | some a ↦ class_of cs a
    ]

unfoldable pub normalize_host : Text → Text
normalize_host host = rstrip is_dot (lower host)

-- Leading dot matches subdomains; a bare entry is an exact host match.
unfoldable pub match : Text → Text → Bool
match host pattern =
    if starts_with_dot pattern
    then host == tail pattern || ends_with host pattern
    else host == pattern

pub data PatternScope : Type 0 where
  host_and_subdomains exact_host : PatternScope

unfoldable pub pattern_scope : Text → PatternScope
pattern_scope pattern = if starts_with_dot pattern then host_and_subdomains else exact_host

abbrev pub wildcard_min_labels : ℕ
wildcard_min_labels = 2

-- `labels[len(labels) - depth:]`
unfoldable pub last_labels : ℕ → List Text → List Text
last_labels depth [] = []
last_labels depth (l ∷ ls) = if leb (length (l ∷ ls)) depth then l ∷ ls else last_labels depth ls

-- The body of the loop over the depths.
unfoldable pub add_wildcard : List Text → List Text → ℕ → List Text
add_wildcard labels out depth =
    if ltb depth wildcard_min_labels || ltb (length labels) depth
    then out
    else (let pattern = b'.' ∷ join_dot (last_labels depth labels) in
        if contains pattern out then out else out ++ pattern ∷ [])

abbrev pub is_some {ℓ} : {A : Type ℓ} → Option A → Bool
is_some none = false
is_some (some a) = true

abbrev pub is_full : Text → Bool
is_full t = not (is_empty t)

-- `(host or "").strip().lower().strip(".")`
unfoldable pub exact_form : Text → Text
exact_form host = strip is_dot (lower (strip is_space host))

unfoldable pub persist_candidates : (Text → Option Address) → Text → List Text
persist_candidates parse_ip host =
    let exact = exact_form host in
    let labels = split_dot exact in
    if is_empty exact
    then []
    else if is_some (parse_ip (strip is_bracket exact))
    then exact ∷ []
    else if not (all is_full labels)
    then exact ∷ []
    else add_wildcard labels (add_wildcard labels (exact ∷ []) (length labels)) wildcard_min_labels

unfoldable pub normalize_pattern : Text → Text
normalize_pattern pattern =
    let p = lower (strip is_space pattern) in
    if starts_with_dot p then b'.' ∷ rstrip is_dot (tail p) else rstrip is_dot p

-- `[a-z0-9_-]`
abbrev pub is_label_char : ℕ → Bool
is_label_char c = leb b'a' c && leb c b'z' || leb b'0' c && leb c b'9' || c == b'_' || c == b'-'

-- `_LABEL_RE.fullmatch(label)`
unfoldable pub is_label : Text → Bool
is_label label = is_full label && all is_label_char label

abbrev pub pattern_max_len : ℕ
pattern_max_len = 253

pub data RuleError : Type 0 where
  bad_action empty_pattern too_long wildcard_over_address not_a_pattern single_label : RuleError

unfoldable pub rule_error : (Text → Option Address) → Text → Text → Option RuleError
rule_error parse_ip pattern action =
    let wildcard = starts_with_dot pattern in
    let body = if wildcard then tail pattern else pattern in
    let labels = split_dot body in
    if not (action == text "allow" || action == text "block")
    then some bad_action
    else if is_empty pattern
    then some empty_pattern
    else if ltb pattern_max_len (length pattern)
    then some too_long
    else if is_some (parse_ip (strip is_bracket body))
    then (if wildcard then some wildcard_over_address else none)
    else if not (all is_label labels)
    then some not_a_pattern
    else if wildcard && action == text "allow" && ltb (length labels) wildcard_min_labels
    then some single_label
    else none
