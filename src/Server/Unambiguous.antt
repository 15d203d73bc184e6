-- ===== src/Server/Unambiguous.antt =====
-- No request meets two routes: the order in which `Routes` registers them makes no difference.
use mathlib.Core.Path.{subst}
use log_monitor_tenex.Prelude.{
  ℕ, zero, suc, Text, text_eq, text_eq_iff, Bool, true, false, not, some, List, [], ◌∷◌, ◌≡◌, refl,
  sym, ◌&&◌, ◌||◌, arith, all, any, get_elem?, split, Option-cases, inl, inr, Bool-cases,
}
use log_monitor_tenex.Filters.{Method, get, head, options, post, put, delete}
use log_monitor_tenex.Server.Routes.{
  Segment, lit, wildcard, Route, routes, route, segment_of, serves, match_path, found, find_route,
  route_of,
}

-- Two patterns that no path meets both.
abbrev parted : List Segment → List Segment → Bool
parted [] [] = false
parted [] (t ∷ ts) = true
parted (s ∷ ss) [] = true
parted (lit p ∷ ss) (lit q ∷ ts) = not (text_eq p q) || parted ss ts
parted (lit p ∷ ss) (wildcard ∷ ts) = parted ss ts
parted (wildcard ∷ ss) (t ∷ ts) = parted ss ts

-- Behind a first segment that is met, the rest is met.
match-rest :
    (s : Segment) (ss : List Segment) (c : Text) (path : List Text) (a : Text)
    → match_path (s ∷ ss) (c ∷ path) ≡ some a
    → (b : Text) × (match_path ss path ≡ some b)
unfolding match_path
match-rest (lit p) ss c path a h = (a, ground arith)
match-rest wildcard ss c path a h = elim (Option-cases (match_path ss path)) [
  | inl e ↦ absurd (ground (arith, e))
  | inr found_rest ↦ found_rest
]

parted_sound :
    (ss ts : List Segment) (path : List Text) (a b : Text)
    → match_path ss path ≡ some a
    → match_path ts path ≡ some b
    → parted ss ts ≡ false
unfolding match_path
parted_sound [] [] path a b p q = refl
parted_sound [] (t ∷ ts) [] a b p q = cc
parted_sound [] (t ∷ ts) (c ∷ path) a b p q = cc
parted_sound (s ∷ ss) [] [] a b p q = cc
parted_sound (s ∷ ss) [] (c ∷ path) a b p q = cc
parted_sound (s ∷ ss) (t ∷ ts) [] a b p q = cc
parted_sound (lit x ∷ ss) (lit y ∷ ts) (c ∷ path) a b p q =
    ground (arith, text_eq_iff x c, text_eq_iff y c, text_eq_iff x y, parted_sound ss ts path a b)
parted_sound (lit x ∷ ss) (wildcard ∷ ts) (c ∷ path) a b p q =
    let (a', p') = match-rest (lit x) ss c path a p in
    let (b', q') = match-rest wildcard ts c path b q in parted_sound ss ts path a' b' p' q'
parted_sound (wildcard ∷ ss) (t ∷ ts) (c ∷ path) a b p q =
    let (a', p') = match-rest wildcard ss c path a p in
    let (b', q') = match-rest t ts c path b q in parted_sound ss ts path a' b' p' q'

abbrev methods : List Method
methods = get ∷ head ∷ options ∷ post ∷ put ∷ delete ∷ []

-- Some method is served by both.
abbrev sharing : Method → Method → Bool
sharing a b = any (λ m. serves a m && serves b m) methods

sharing_complete : (a b m : Method) → serves a m ≡ true → serves b m ≡ true → sharing a b ≡ true
sharing_complete a b get p q = ground arith
sharing_complete a b head p q = ground arith
sharing_complete a b options p q = ground arith
sharing_complete a b post p q = ground arith
sharing_complete a b put p q = ground arith
sharing_complete a b delete p q = ground arith

-- Two routes that no request meets both.
abbrev apart : Route → Route → Bool
apart r s = not (sharing r.method s.method) || parted r.pattern s.pattern

apart_sound :
    (r s : Route) (m : Method) (path : List Text) (a b : Text)
    → apart r s ≡ true
    → match_path r.pattern path ≡ some a
    → match_path s.pattern path ≡ some b
    → serves s.method m ≡ true
    → serves r.method m ≡ false
apart_sound r s m path a b h p q served = elim (Bool-cases (serves r.method m)) [
  | inr e ↦ e
  | inl e ↦
      let shared = sharing_complete r.method s.method m e served in
      let crossed = parted_sound r.pattern s.pattern path a b p q in ground (arith, shared, crossed)
]

abbrev all_apart : List Route → Bool
all_apart [] = true
all_apart (r ∷ rs) = all (apart r) rs && all_apart rs

apart-at :
    (r s : Route) (rs : List Route) (n : ℕ)
    → all (apart r) rs ≡ true
    → get_elem? rs n ≡ some s
    → apart r s ≡ true
apart-at r s [] n h e = cc
apart-at r s (x ∷ rs) zero h e = let same : x ≡ s = cc e in rw (sym same) (ground arith)
apart-at r s (x ∷ rs) (suc n) h e = apart-at r s rs n (ground arith) e

module _ (m : Method) (path : List Text) (r : Route) (id : Text)
    (met : match_path r.pattern path ≡ some id) (served : serves r.method m ≡ true) where
  finds_first : (rs : List Route) → find_route m path (r ∷ rs) ≡ found r.endpoint id
  unfolding find_route
  finds_first rs = ground (arith, met, served)

  find_route-finds :
      (rs : List Route) (n : ℕ)
      → all_apart rs ≡ true
      → get_elem? rs n ≡ some r
      → find_route m path rs ≡ found r.endpoint id
  unfolding find_route
  find_route-finds [] n h e = cc
  find_route-finds (x ∷ rs) zero h e =
      let same : x ≡ r = cc e in
      subst (λ y. find_route m path (y ∷ rs) ≡ found r.endpoint id) (sym same) (finds_first rs)
  find_route-finds (x ∷ rs) (suc n) h e =
      let ih = find_route-finds rs n (ground arith) e in
      let other = apart-at x r rs n (ground arith) e in
      elim (Option-cases (match_path x.pattern path)) [
        | inl no_match ↦ rw (find_route, no_match) ih
        | inr (a, match) ↦
            let unserved = apart_sound x r m path a id other match met served in
            rw (find_route, match, unserved, ih) refl
      ]

routes-apart : all_apart routes ≡ true
unfolding routes route segment_of split serves
routes-apart = refl

-- A request that meets the pattern and the method of a route, at whatever place of the table it
-- stands, is given to the endpoint of that route with the segment that its wildcard stands for.
pub route_of_lem :
    (m : Method) (path : Text) (n : ℕ) (r : Route) (id : Text)
    → get_elem? routes n ≡ some r
    → match_path r.pattern (split b'/' path) ≡ some id
    → serves r.method m ≡ true
    → route_of m path ≡ found r.endpoint id
unfolding route_of
route_of_lem m path n r id at met served =
    find_route-finds m (split b'/' path) r id met served routes n routes-apart at
