-- ===== src/Web/Routes/Patterns.antt =====
-- internal/web/routes.go: whether the patterns overlap.
use Prim.Native.Nat.{◌≤◌}
use tcl_script_runner.Prelude.{
  ℕ, ◌+◌, String, ◌==◌, Bool, true, false, not, ◌&&◌, ◌||◌, List, [], ◌∷◌, ◌≡◌, refl, arith, eq_iff,
  if◌then◌else◌,
}
use tcl_script_runner.Web.Routes.{Segment, word, wildcard, Route, routes, matches, takes, accepts}

-- Whether some path matches both patterns.
overlap : List Segment → List Segment → Bool
overlap [] [] = true
overlap [] (q ∷ qs) = false
overlap (p ∷ ps) [] = false
overlap (word v ∷ ps) (word w ∷ qs) = v == w && overlap ps qs
overlap (word v ∷ ps) (wildcard ∷ qs) = overlap ps qs
overlap (wildcard ∷ ps) (q ∷ qs) = overlap ps qs

overlap-matches :
    (ps qs : List Segment) (path : List String)
    → matches ps path ≡ true
    → matches qs path ≡ true
    → overlap ps qs ≡ true
unfolding overlap matches
overlap-matches [] [] path h k = refl
overlap-matches [] (q ∷ qs) [] h k = cc k
overlap-matches [] (q ∷ qs) (s ∷ ss) h k = cc h
overlap-matches (p ∷ ps) [] [] h k = cc h
overlap-matches (p ∷ ps) [] (s ∷ ss) h k = cc k
overlap-matches (p ∷ ps) (q ∷ qs) [] h k = cc h
overlap-matches (word v ∷ ps) (word w ∷ qs) (s ∷ ss) h k =
    ground (arith, eq_iff s v, eq_iff s w, eq_iff v w, overlap-matches ps qs ss)
overlap-matches (word v ∷ ps) (wildcard ∷ qs) (s ∷ ss) h k =
    ground (arith, overlap-matches ps qs ss)
overlap-matches (wildcard ∷ ps) (word w ∷ qs) (s ∷ ss) h k =
    ground (arith, overlap-matches ps qs ss)
overlap-matches (wildcard ∷ ps) (wildcard ∷ qs) (s ∷ ss) h k = overlap-matches ps qs ss h k

-- Whether some request is taken by both routes.
clash : Route → Route → Bool
clash r t = (takes r.method t.method || takes t.method r.method) && overlap r.path t.path

clash-accepts :
    (r t : Route) (method : String) (path : List String)
    → accepts r method path ≡ true
    → accepts t method path ≡ true
    → clash r t ≡ true
unfolding clash accepts
clash-accepts r t method path h k = ground (
  arith,
  eq_iff r.method method,
  eq_iff t.method method,
  eq_iff r.method t.method,
  eq_iff t.method r.method,
  eq_iff r.method "GET",
  eq_iff t.method "GET",
  eq_iff method "HEAD",
  eq_iff r.method "HEAD",
  eq_iff t.method "HEAD",
  overlap-matches r.path t.path path,
)

clashes : Route → List Route → Bool
clashes r [] = false
clashes r (t ∷ ts) = clash r t || clashes r ts

apart : List Route → Bool
unfolding clashes
apart [] = true
apart (r ∷ rs) = not (clashes r rs) && apart rs

-- How many routes take a request.
pub hits : String → List String → List Route → ℕ
hits method path [] = 0
hits method path (r ∷ rs) = (if accepts r method path then 1 else 0) + hits method path rs

no_hits :
    (r : Route) (rs : List Route) (method : String) (path : List String)
    → accepts r method path ≡ true
    → clashes r rs ≡ false
    → hits method path rs ≡ 0
unfolding hits clashes
no_hits r [] method path h k = refl
no_hits r (t ∷ ts) method path h k =
    ground (arith, clash-accepts r t method path h, no_hits r ts method path h)

one_hit :
    (rs : List Route) (method : String) (path : List String)
    → apart rs ≡ true
    → hits method path rs ≤ 1
unfolding hits apart
one_hit [] method path h = omega arith
one_hit (r ∷ rs) method path h = ground (arith, no_hits r rs method path, one_hit rs method path)

routes-apart : apart routes ≡ true
unfolding apart clashes clash overlap routes
routes-apart = refl

-- Each request is taken by at most one of the routes, so that their order does not matter.
pub hits-routes : (method : String) (path : List String) → hits method path routes ≤ 1
hits-routes method path = one_hit routes method path routes-apart
