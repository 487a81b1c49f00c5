-- ===== src/Routing/Supplied.antt =====
-- Every route of controller.go, appHandler, gives its functions what they ask martini for.
use flynn_controller.Prelude.{
  Bool, true, false, Option, none, some, List, [], ◌∷◌, ◌++◌, Text, text_eq, list_eqb, ◌==◌, ◌&&◌,
  all, ◌≡◌, refl, sym, ap, ◌∙◌, All, arith, if◌then◌else◌, inl, inr, Bool-cases, Option-cases,
  subst,
}
use flynn_controller.Prelude.Map
use flynn_controller.Prelude.Map.{Map}
use flynn_controller.Routing.{
  Segment, literal, param, Handler, Entry, table, fit, with_param, first_fit, IsRouter, IsPlain,
  path_of,
}
use flynn_controller.Routing.Injecting.{Piece, per_request, mapped, thing_of, chain_of}

abbrev is_in : Text → List Text → Bool
is_in t [] = false
is_in t (x ∷ xs) = let rest = is_in t xs in if x == t then true else rest

-- Each function finds the types that it needs among those that are mapped when it runs, and the
-- path parameters that it reads among `names`.
unfoldable pub supplied : List Text → List Text → List Piece → Bool
unfolding all list_eqb
supplied types names [] = true
supplied types names (p ∷ pieces) =
    let rest = supplied (p.gives ++ types) names pieces in
    all (λ t. is_in t types) p.needs && all (λ n. is_in n names) p.reads && rest

-- the parameters of a pattern
abbrev names_of : List Segment → List Text
names_of [] = []
names_of (literal t ∷ ps) = names_of ps
names_of (param name ∷ ps) = name ∷ names_of ps

keys-with_param :
    (name v : Text) (o : Option (Map Text Text)) {m : Map Text Text}
    → with_param name v o ≡ some m
    → (rest : Map Text Text) × (o ≡ some rest) × (Map.keys m ≡ name ∷ Map.keys rest)
unfolding Map.keys
keys-with_param name v none h = cc
keys-with_param name v (some rest) h =
    let same : (name, v) ∷ rest ≡ _ = cc (h) in (rest, refl, sym (ap Map.keys same))

-- A path that fits binds the parameters of the pattern.
keys-fit :
    (ps : List Segment) (vs : List Text) {m : Map Text Text}
    → fit ps vs ≡ some m
    → Map.keys m ≡ names_of ps
unfolding fit Map.keys
keys-fit [] [] h = let same : [] ≡ _ = cc (h) in ap Map.keys (sym same)
keys-fit [] (v ∷ vs) h = cc
keys-fit (p ∷ ps) [] h = cc
keys-fit (literal t ∷ ps) (v ∷ vs) h = elim (Bool-cases (t == v)) [
  | inl same ↦ keys-fit ps vs (rw (same, fit) at h)
  | inr other ↦ cc (rw (other, fit) at h)
]
keys-fit (param name ∷ ps) (v ∷ vs) h =
    let (rest, e, keys) = keys-with_param name v (fit ps vs) h in
    keys ∙ ap (λ ns. name ∷ ns) (keys-fit ps vs e)

abbrev is_supplied : Entry → Bool
is_supplied e = supplied (per_request ++ mapped) (names_of e.pattern) (chain_of e.handler)

taken :
    {A : Type 0} (b : Bool) (o : Option A) {a : A} → (if b then o else none) ≡ some a → o ≡ some a
taken true o h = h
taken false o h = cc

first_fit-supplied :
    (entries : List Entry) (method : Text) (vs : List Text) {h : Handler} {m : Map Text Text}
    → all is_supplied entries ≡ true
    → first_fit entries method vs ≡ some (h, m)
    → supplied (per_request ++ mapped) (Map.keys m) (chain_of h) ≡ true
unfolding first_fit all
first_fit-supplied [] method vs ok found = cc
first_fit-supplied (e ∷ entries) method vs {h} {m} ok found =
    elim (Option-cases (if e.method == method then fit e.pattern vs else none)) [
      | inl missed ↦
          first_fit-supplied entries method vs (ground (arith, ok))
            (rw (missed, first_fit) at found)
      | inr (params, fits) ↦
          let here : is_supplied e ≡ true = ground (arith, ok) in
          let same : (e.handler, params) ≡ (h, m) = cc (rw (fits, first_fit) at found) in
          let keys = keys-fit e.pattern vs (taken (e.method == method) (fit e.pattern vs) fits) in
          subst
            (λ (r : Handler × Map Text Text).
              supplied (per_request ++ mapped) (Map.keys r.1) (chain_of r.0) ≡ true)
            same
            (subst (λ ns. supplied (per_request ++ mapped) ns (chain_of e.handler) ≡ true)
              (sym keys) here)
    ]

table_supplied : all is_supplied table ≡ true
unfolding all supplied chain_of thing_of table Map.get list_eqb
table_supplied = refl

-- Whatever request the router of the API sends to a route, each function of the route finds a value
-- for every type that it takes, mapped before the first request or by a function before it, and the
-- path binds each parameter that the functions read.
pub table-supplied :
    (dispatch : List Entry → Text → Text → Option (Handler × Map Text Text)) (method : Text)
    (vs : List Text) (h : Handler) (params : Map Text Text)
    → IsRouter dispatch
    → All IsPlain vs
    → dispatch table method (path_of vs) ≡ some (h, params)
    → supplied (per_request ++ mapped) (Map.keys params) (chain_of h) ≡ true
table-supplied dispatch method vs h params router plain sent =
    first_fit-supplied table method vs table_supplied (sym (router table method vs plain) ∙ sent)
