-- ===== src/TaskRegistry/Fields.antt =====
-- The fields of a task: `check_fields`, `check_new`, `check_text`, `check_state`, `check_in_repo` and
-- `check_revision` of task-registry/tasks.py. A value of another type than it should have is refused
-- before; here each is of its type, and `none` is "not given".
use dockade.Base.{
  ℕ, ◌≡◌, refl, Bool, true, ◌&&◌, ◌||◌, not, Option, none, some, List, [], ◌∷◌, arith, leb,
  if◌then◌else◌, ◌==◌, length, is_empty, contains, any, list_eq, nat_eq,
}
use dockade.Base.Text.{Text, text, strip, is_space}
use dockade.TaskRegistry.Parents.{Task}

abbrev pub states : List Text
states =
    text "proposed"
    ∷ text "refined"
    ∷ text "open"
    ∷ text "landing"
    ∷ text "deferred"
    ∷ text "closed"
    ∷ []

abbrev pub severities : List Text
severities = text "high" ∷ text "medium" ∷ text "low" ∷ []

abbrev pub kinds : List Text
kinds = text "finding" ∷ text "question" ∷ text "improvement" ∷ []

abbrev pub title_max : ℕ
title_max = 200

abbrev pub body_max : ℕ
body_max = 32000

-- Whether UTF-8 has a form for every code point.
unfoldable pub storable : Text → Bool
storable t = not (any (λ c. leb 0xd800 c && leb c 0xdfff) t)

abbrev is_blank : Text → Bool
is_blank t = is_empty (strip is_space t)

abbrev is_title : Text → Bool
is_title t = not (is_blank t) && leb (length t) title_max && storable t

abbrev is_body : Text → Bool
is_body t = leb (length t) body_max && storable t

abbrev or_not_given : (Text → Bool) → Option Text → Bool
or_not_given p none = true
or_not_given p (some t) = p t

pub data FieldError : Type 0 where
  bad_title bad_body bad_severity bad_kind not_given bad_text bad_state : FieldError

unfoldable pub check_fields :
    Option Text → Option Text → Option Text → Option Text → Option FieldError
check_fields title body severity kind =
    if not (or_not_given is_title title)
    then some bad_title
    else if not (or_not_given is_body body)
    then some bad_body
    else if not (or_not_given (λ s. contains s severities) severity)
    then some bad_severity
    else if not (or_not_given (λ k. contains k kinds) kind)
    then some bad_kind
    else none

unfoldable pub check_new : Option Text → Option Text → Option Text → Option Text → Option FieldError
check_new none body severity kind = some not_given
check_new (some title) none severity kind = some not_given
check_new (some title) (some body) severity kind =
    check_fields (some title) (some body) severity kind

unfoldable pub check_text : Option Text → ℕ → Bool → Option FieldError
check_text none limit required = if required then some bad_text else none
check_text (some t) limit required =
    if is_blank t || not (leb (length t) limit) || not (storable t) then some bad_text else none

unfoldable pub check_state : Text → Option FieldError
check_state state = if contains state states then none else some bad_state

-- A task of another repo, or one that changed since it was read; with what it is at.
pub data Conflict : Type 0 where
  other_repo : Text → Conflict
  changed : ℕ → Conflict

unfoldable pub check_in_repo : Text → Text → Option Conflict
check_in_repo row_repo repo = if row_repo == repo then none else some (other_repo row_repo)

unfoldable pub check_revision : Task → ℕ → Option Conflict
check_revision row revision = if row.revision == revision then none else some (changed row.revision)

-- A new task that is let in has a title and a body within their bounds, and what it is given of
-- severity and kind is on the lists.
pub check_new-none :
    (title body severity kind : Option Text)
    → check_new title body severity kind ≡ none
    → (t : Text) × (b : Text) × (title ≡ some t)
      × (body ≡ some b)
      × (is_title t ≡ true)
      × (is_body b ≡ true)
      × (or_not_given (λ s. contains s severities) severity ≡ true)
      × (or_not_given (λ k. contains k kinds) kind ≡ true)
unfolding check_new check_fields
check_new-none none body severity kind h = absurd (cc)
check_new-none (some title) none severity kind h = absurd (cc)
check_new-none (some title) (some body) severity kind h =
    (title, body, refl, refl, ground arith, ground arith, ground arith, ground arith)
