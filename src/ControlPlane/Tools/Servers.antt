-- ===== src/ControlPlane/Tools/Servers.antt =====
-- What control-plane/policy.py refuses to store of a server or of a tool's rule: `_server_name_error`,
-- `_tool_rule_error`, `_endpoint_error` and `_auth_descriptor_error`.
use dockade.Base.{
  ℕ, suc, zero, ◌-◌, ◌≤◌, ◌≡◌, refl, Bool, true, false, ◌&&◌, ◌||◌, not, Option, none, some, [],
  ◌∷◌, arith, ltb, leb, if◌then◌else◌, ◌==◌, all, any, length, contains, is_empty, list_eq, nat_eq,
  Bool-cases, inl, inr,
}
use dockade.Base.Text.{Text, text, split_on, starts_with}
use dockade.ControlPlane.Tools.Ruling.{tool_actions}

abbrev is_lower_or_digit : ℕ → Bool
is_lower_or_digit c = leb 97 c && leb c 122 || leb 48 c && leb c 57

abbrev is_letter_or_digit : ℕ → Bool
is_letter_or_digit c = leb 65 c && leb c 90 || is_lower_or_digit c

-- `([a-z0-9-]{0,61}[a-z0-9])?`, and whether all of a text but its last character is of `p`.
abbrev ends_well : Text → Bool
ends_well [] = true
ends_well (c ∷ []) = is_lower_or_digit c
ends_well (c ∷ d ∷ rest) = (is_lower_or_digit c || c == 45) && ends_well (d ∷ rest)

-- `_SERVER_RE`, of the whole text.
unfoldable pub is_server_name : Text → Bool
is_server_name [] = false
is_server_name (c ∷ rest) = is_lower_or_digit c && ends_well rest && leb (length rest) 62

-- `_TOOL_RE` and `_HEADER_RE`, of the whole text.
abbrev is_tool_char : ℕ → Bool
is_tool_char c = is_letter_or_digit c || contains c (text "_.:-")

unfoldable pub is_tool_name : Text → Bool
is_tool_name t = not (is_empty t) && all is_tool_char t && leb (length t) 128

unfoldable pub is_header_name : Text → Bool
is_header_name t =
    not (is_empty t) && all (λ c. is_letter_or_digit c || c == 45) t && leb (length t) 64

pub data ServerError : Type 0 where
  no_name bad_name : ServerError

unfoldable pub server_name_error : Text → Option ServerError
server_name_error server =
    if is_empty server
    then some no_name
    else if not (is_server_name server)
    then some bad_name
    else none

pub data ToolError : Type 0 where
  bad_action no_tool bad_tool : ToolError

unfoldable pub tool_rule_error : Text → Text → Option ToolError
tool_rule_error tool action =
    if not (contains action tool_actions)
    then some bad_action
    else if is_empty tool
    then some no_tool
    else if not (is_tool_name tool)
    then some bad_tool
    else none

-- `str.count`, of a text that is not empty: `skip` is how much of the last one is still to pass.
unfoldable pub count_text : Text → ℕ → Text → ℕ
count_text part skip [] = 0
count_text part (suc skip) (c ∷ rest) = count_text part skip rest
count_text part zero (c ∷ rest) =
    if starts_with (c ∷ rest) part
    then suc (count_text part (length part - 1) rest)
    else count_text part zero rest

abbrev pub template_max_len : ℕ
template_max_len = 200

abbrev pub secret_placeholder : Text
secret_placeholder = text "{secret}"

pub data AuthError : Type 0 where
  bad_type takes_none no_header bad_header no_template long_template placeholders : AuthError

unfoldable pub auth_descriptor_error : Text → Text → Text → Option AuthError
auth_descriptor_error auth_type header template =
    if not (auth_type == text "none" || auth_type == text "header")
    then some bad_type
    else if auth_type == text "none"
    then (if not (is_empty header) || not (is_empty template) then some takes_none else none)
    else if is_empty header
    then some no_header
    else if not (is_header_name header)
    then some bad_header
    else if is_empty template
    then some no_template
    else if ltb template_max_len (length template)
    then some long_template
    else if not (count_text secret_placeholder 0 template == 1)
    then some placeholders
    else none

-- `[A-Za-z0-9._~-]`
abbrev pub is_unreserved : ℕ → Bool
is_unreserved c = is_letter_or_digit c || contains c (text "._~-")

-- The rest of `_PATH_RE`; the Boolean is whether a segment is about to start.
unfoldable pub is_path_rest : Bool → Text → Bool
is_path_rest at_start [] = true
is_path_rest at_start (c ∷ rest) =
    let again = is_path_rest true rest in
    let on = is_path_rest false rest in
    if c == 47 then not at_start && again else is_unreserved c && on

unfoldable pub is_path : Text → Bool
is_path [] = false
is_path (c ∷ rest) = c == 47 && is_path_rest true rest

abbrev pub path_max_len : ℕ
path_max_len = 128

pub data EndpointError : Type 0 where
  bad_port long_path bad_path : EndpointError

-- A port that is no integer is refused before; this is one that is.
unfoldable pub endpoint_error : ℕ → Text → Option EndpointError
endpoint_error port path =
    if not (leb 1 port && leb port 65535)
    then some bad_port
    else if ltb path_max_len (length path)
    then some long_path
    else if not (is_path path) || any (λ s. s == text "." || s == text "..") (split_on 47 path)
    then some bad_path
    else none

-- No segment before the last is empty.
abbrev pub HasNoEmptySegment : Text → Type 0
HasNoEmptySegment [] = Unit
HasNoEmptySegment (c ∷ []) = Unit
HasNoEmptySegment (c ∷ d ∷ rest) = ((c == 47 && d == 47) ≡ false) × HasNoEmptySegment (d ∷ rest)

is_path_rest-all :
    (at_start : Bool) (t : Text)
    → is_path_rest at_start t ≡ true
    → all (λ c. c == 47 || is_unreserved c) t ≡ true
unfolding is_path_rest all
is_path_rest-all at_start [] h = refl
is_path_rest-all at_start (c ∷ rest) h = elim (Bool-cases (c == 47)) [
  | inl e ↦ ground (arith, is_path_rest-all true rest)
  | inr e ↦ ground (arith, is_path_rest-all false rest)
]

is_path_rest-HasNoEmptySegment :
    (c : ℕ) (rest : Text) → is_path_rest (c == 47) rest ≡ true → HasNoEmptySegment (c ∷ rest)
unfolding is_path_rest
is_path_rest-HasNoEmptySegment c [] h = tt
is_path_rest-HasNoEmptySegment c (d ∷ rest) h =
    (ground arith, is_path_rest-HasNoEmptySegment d rest (ground (arith, Bool-cases (d == 47))))

-- An endpoint that is accepted cannot move the host of the URL that it ends: its port is from 1 to
-- 65535, and its path starts with `/`, has only letters, digits, `.`, `_`, `~`, `-` and `/`, never
-- two `/` in a row and no segment `.` or `..`.
pub endpoint_error-none :
    (port : ℕ) (path : Text)
    → endpoint_error port path ≡ none
    → (1 ≤ port)
      × (port ≤ 65535)
      × (length path ≤ path_max_len)
      × (starts_with path (text "/") ≡ true)
      × (all (λ c. c == 47 || is_unreserved c) path ≡ true)
      × HasNoEmptySegment path
      × (any (λ s. s == text "." || s == text "..") (split_on 47 path) ≡ false)
unfolding endpoint_error is_path starts_with all
endpoint_error-none port [] h = absurd (ground arith)
endpoint_error-none port (c ∷ rest) h =
    let slash : (c == 47) ≡ true = ground arith in
    let ok : is_path_rest true rest ≡ true = ground arith in
    (
      ground arith,
      ground arith,
      ground arith,
      ground arith,
      ground (arith, is_path_rest-all true rest ok),
      is_path_rest-HasNoEmptySegment c rest (rw slash ok),
      ground arith,
    )
