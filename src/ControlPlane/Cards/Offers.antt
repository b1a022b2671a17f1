-- ===== src/ControlPlane/Cards/Offers.antt =====
-- What `_pin_candidates` of control-plane/policy.py offers, and what is picked of it.
use mathlib.Core.List.{Memᴰ}
use dockade.Base.{
  ◌≡◌, refl, sym, ap, ◌≢◌, inl, inr, Bool, true, false, Option, none, some, List, [], ◌∷◌, arith,
  ◌==◌, ==_iff, all, contains, is_empty, Bool-cases, Option-cases, list_eq, nat_eq, option_eq,
}
use dockade.Base.Dict.{Dict, get, keys}
use dockade.Base.Text.{Text}
use dockade.ControlPlane.Policy.Rules.{sorted_set}
use dockade.ControlPlane.Tools.{
  Json, null, boolean, int, float, string, array, object, Fields, fields_of, unambiguous,
}
use dockade.ControlPlane.Tools.Pins.{present}
use dockade.ControlPlane.Cards.{
  Candidates, keep_value, keep_field, value_of, pinnable_fields, candidates_of, candidates_in,
  pin_candidates, pick, is_choice,
}

pub all_of_mem {ℓ} :
    {A : Type ℓ} (p : A → Bool) (xs : List A) → ((x : A) → Memᴰ x xs → p x ≡ true) → all p xs ≡ true
unfolding all
all_of_mem p [] h = refl
all_of_mem p (x ∷ xs) h =
    ground (arith, h x (Memᴰ.head refl), all_of_mem p xs (λ y m. h y (Memᴰ.tail m)))

pub mem_of_contains : (t : Text) (ts : List Text) → contains t ts ≡ true → Memᴰ t ts
unfolding contains
mem_of_contains t [] h = absurd (cc)
mem_of_contains t (u ∷ us) h = elim (Bool-cases (t == u)) [
  | inl e ↦ Memᴰ.head ((==_iff t u).0 e)
  | inr e ↦ Memᴰ.tail (mem_of_contains t us (rw e at h))
]

pub of_all {ℓ} :
    {A : Type ℓ} (p : A → Bool) (xs : List A) (x : A) → all p xs ≡ true → Memᴰ x xs → p x ≡ true
unfolding all
of_all p [] x h m = elim m [ ]
of_all p (y ∷ xs) x h (Memᴰ.head e) = rw e (ground arith)
of_all p (y ∷ xs) x h (Memᴰ.tail m) = of_all p xs x (ground arith) m

pub mem_key_of_get :
    {V : Type 0} (d : Dict Text V) (k : Text) (v : V) → get d k ≡ some v → Memᴰ k (keys d)
unfolding get
mem_key_of_get [] k v h = absurd (cc)
mem_key_of_get ((j, w) ∷ d) k v h = elim (Bool-cases (j == k)) [
  | inl e ↦ Memᴰ.head (sym ((==_iff j k).0 e))
  | inr e ↦ Memᴰ.tail (mem_key_of_get d k v (rw e at h))
]

pub kept_value :
    (dumps : Json → Text) (args : Dict Text Json) (n : Text) (o : Option Text)
    (rest : Dict Text Text) (name : Text)
    → value_of dumps args n ≡ o
    → (Memᴰ name (keys rest) → present (value_of dumps args name) ≡ true)
    → Memᴰ name (keys (keep_value n o rest))
    → present (value_of dumps args name) ≡ true
kept_value dumps args n none rest name e deep m = deep m
kept_value dumps args n (some value) rest name e deep (Memᴰ.head same) = rw (same, e) refl
kept_value dumps args n (some value) rest name e deep (Memᴰ.tail m) = deep m

-- An offered name has a value that a pin can hold.
pub offered-value :
    (dumps : Json → Text) (args : Dict Text Json) (names : List Text) (name : Text)
    → Memᴰ name (keys (pinnable_fields dumps args names))
    → present (value_of dumps args name) ≡ true
unfolding pinnable_fields
offered-value dumps args [] name m = elim m [ ]
offered-value dumps args (n ∷ names) name m =
    kept_value dumps args n (value_of dumps args n) (pinnable_fields dumps args names) name refl
      (offered-value dumps args names name) m

pub kept_field :
    (args : Dict Text Json) (chosen : List Text) (n : Text) (o : Option Json) (rest : Fields)
    (k : Text) (v : Json)
    → get args n ≡ o
    → (Memᴰ (k, v) (fields_of rest) → Memᴰ k chosen × (get args k ≡ some v))
    → Memᴰ (k, v) (fields_of (keep_field n o rest))
    → Memᴰ k (n ∷ chosen) × (get args k ≡ some v)
kept_field args chosen n none rest k v e deep m =
    let (there, got) = deep m in (Memᴰ.tail there, got)
kept_field args chosen n (some value) rest k v e deep (Memᴰ.head same) =
    let name : k ≡ n = ap (λ (x : Text × Json). x.0) same in
    let field : v ≡ value = ap (λ (x : Text × Json). x.1) same in
    (Memᴰ.head name, rw (name, field) e)
kept_field args chosen n (some value) rest k v e deep (Memᴰ.tail m) =
    let (there, got) = deep m in (Memᴰ.tail there, got)

-- What is picked is what the call carries under a chosen name.
pub pick-mem :
    (args : Dict Text Json) (chosen : List Text) (k : Text) (v : Json)
    → Memᴰ (k, v) (fields_of (pick args chosen))
    → Memᴰ k chosen × (get args k ≡ some v)
unfolding pick
pick-mem args [] k v m = elim m [ ]
pick-mem args (n ∷ chosen) k v m =
    kept_field args chosen n (get args n) (pick args chosen) k v refl (pick-mem args chosen k v) m

pub kept_first :
    (n : Text) (o : Option Json) (rest : Fields) (v : Json)
    → o ≡ some v
    → Memᴰ (n, v) (fields_of (keep_field n o rest))
kept_first n none rest v h = absurd (cc)
kept_first n (some w) rest v h = Memᴰ.head (λ i. (n, (unwrap w v h) i))
  where
    unwrap : (a b : Json) → ◌≡◌ {A = Option Json} (some a) (some b) → b ≡ a
    unwrap a b e = cc

pub is_choice-nonempty :
    (offered chosen : List Text) → is_choice offered chosen ≡ true → chosen ≢ []
unfolding is_choice
is_choice-nonempty offered [] h e = cc
is_choice-nonempty offered (n ∷ chosen) h e = cc

pub is_choice-offered :
    (offered chosen : List Text) (k : Text)
    → is_choice offered chosen ≡ true
    → Memᴰ k chosen
    → Memᴰ k offered
unfolding is_choice
is_choice-offered offered chosen k h m =
    mem_of_contains k offered (of_all (λ name. contains name offered) chosen k (ground arith) m)

pub candidates_of-ambiguous :
    (dumps : Json → Text) (args : Dict Text Json)
    → unambiguous args ≡ false
    → (candidates_of dumps args).refused ≢ none
unfolding candidates_of
candidates_of-ambiguous dumps args unclear = rw unclear (λ e. cc)

-- The call on the card, of which pins can be made.
pub record IsPinnableCall (dumps : Json → Text) (args : Dict Text Json) (c : Candidates)
    : Type 0 where
  pub clear : unambiguous args ≡ true
  pub fields : c.fields ≡ pinnable_fields dumps args (sorted_set (keys args))

pub candidates_in-IsPinnableCall :
    (dumps : Json → Text) (o : Option Json)
    → (candidates_in dumps o).refused ≡ none
    → (fields : Fields) × (o ≡ some (object fields))
      × IsPinnableCall dumps (fields_of fields) (candidates_in dumps o)
unfolding candidates_in
candidates_in-IsPinnableCall dumps none r = absurd (cc)
candidates_in-IsPinnableCall dumps (some null) r = absurd (cc)
candidates_in-IsPinnableCall dumps (some (boolean b)) r = absurd (cc)
candidates_in-IsPinnableCall dumps (some (int b n)) r = absurd (cc)
candidates_in-IsPinnableCall dumps (some (float t)) r = absurd (cc)
candidates_in-IsPinnableCall dumps (some (string t)) r = absurd (cc)
candidates_in-IsPinnableCall dumps (some (array a)) r = absurd (cc)
candidates_in-IsPinnableCall dumps (some (object fields)) r = (
  fields,
  refl,
  elim (Bool-cases (unambiguous (fields_of fields))) [
    | inl clear ↦ record { clear = clear; fields = unfold candidates_of in rw clear refl }
    | inr unclear ↦ absurd (candidates_of-ambiguous dumps (fields_of fields) unclear r)
  ],
)

pub pin_candidates-IsPinnableCall :
    (loads : Text → Option Json) (dumps : Json → Text) (args_json : Text) (digest : Option Text)
    → (pin_candidates dumps loads args_json digest).refused ≡ none
    → (fields : Fields) × (loads args_json ≡ some (object fields))
      × IsPinnableCall dumps (fields_of fields) (pin_candidates dumps loads args_json digest)
unfolding pin_candidates
pin_candidates-IsPinnableCall loads dumps args_json none h = absurd (cc)
pin_candidates-IsPinnableCall loads dumps args_json (some digest) h =
    candidates_in-IsPinnableCall dumps (loads args_json) h

pub is_empty-nil {ℓ} : {A : Type ℓ} (xs : List A) → xs ≢ [] → is_empty xs ≡ false
is_empty-nil [] h = absurd (h refl)
is_empty-nil (x ∷ xs) h = refl

pub first_chosen :
    (chosen : List Text) → chosen ≢ [] → (n : Text) × (rest : List Text) × (chosen ≡ n ∷ rest)
first_chosen [] h = absurd (h refl)
first_chosen (n ∷ rest) h = (n, rest, refl)

pub offered-get :
    (dumps : Json → Text) (args : Dict Text Json) (n : Text)
    → present (value_of dumps args n) ≡ true
    → (v : Json) × (get args n ≡ some v)
offered-get dumps args n h = elim (Option-cases (get args n)) [
  | inl absent ↦ absurd (ground (arith, absent))
  | inr found ↦ found
]

pub picked_first :
    (args : Dict Text Json) (chosen : List Text) (n : Text) (rest : List Text) (v : Json)
    → chosen ≡ n ∷ rest
    → get args n ≡ some v
    → Memᴰ (n, v) (fields_of (pick args chosen))
unfolding pick
picked_first args chosen n rest v e got = rw e (kept_first n (get args n) (pick args rest) v got)

pub mem_not-nil {ℓ} : {A : Type ℓ} (x : A) (xs : List A) → Memᴰ x xs → xs ≢ []
mem_not-nil x [] m e = elim m [ ]
mem_not-nil x (y ∷ xs) m e = cc
