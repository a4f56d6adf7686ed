-- ===== src/Api/Confinement.antt =====
-- Which sample paths lumenos_sandbox/api.py lets an analysis read.
use mathlib.Core.Path.{subst}
use lumenos_hiper_v.Prelude.{
  Bool, true, false, not, ◌&&◌, ◌||◌, String, Option, List, [], ◌∷◌, ◌++◌, ◌≡◌, ◌≢◌, ◌↔◌, refl, sym,
  ap, ◌∙◌, map, any, is_nonempty, str_eq, eq_iff, arith, ok, if◌then◌else◌,
}
use lumenos_hiper_v.Api.{Reply, reply, refuse, ◌>>=◌, from_outcome}
use lumenos_hiper_v.Api.Access.{
  FilePath, parts_eq, path_eq, parents_parts, Service, confined, authorize_and_resolve,
  require_bearer_token,
}
use lumenos_hiper_v.Api.Replies.{bind-reply, from_outcome-reply, guard-reply}
use lumenos_hiper_v.Api.Bearer.{Presents, require_bearer_token_outcome}

abbrev pub StartsWith : List String → List String → Type 0
StartsWith ps qs = (rest : List String) × (qs ≡ ps ++ rest)

-- A path is the root or lies below it.
abbrev pub Within : FilePath → FilePath → Type 0
Within root path = (path.anchor ≡ root.anchor) × StartsWith root.parts path.parts

-- `any` over the parents, part by part.
among : List String → List (List String) → Bool
among ps [] = false
among ps (qs ∷ qss) = parts_eq ps qs || among ps qss

among-cons :
    (p q : String) (ps : List String) (qss : List (List String))
    → among (p ∷ ps) (map (λ qs. q ∷ qs) qss) ≡ (str_eq p q && among ps qss)
unfolding among
among-cons p q ps [] = ground arith
among-cons p q ps (qs ∷ qss) = ground (arith, among-cons p q ps qss)

below-cons :
    (p q : String) (ps qs : List String)
    → (parts_eq (q ∷ qs) (p ∷ ps) || among (p ∷ ps) (parents_parts (q ∷ qs)))
      ≡ (str_eq p q && (parts_eq qs ps || among ps (parents_parts qs)))
unfolding among parents_parts
below-cons p q ps qs = ground (arith, eq_iff p q, eq_iff q p, among-cons p q ps (parents_parts qs))

both-true : (a b : Bool) → ((a && b) ≡ true) ↔ ((a ≡ true) × (b ≡ true))
both-true a b = ground arith

StartsWith-cons :
    (p q : String) (ps qs : List String)
    → StartsWith (p ∷ ps) (q ∷ qs) ↔ ((str_eq p q ≡ true) × StartsWith ps qs)
StartsWith-cons p q ps qs = (
  (λ (rest, e). ((eq_iff p q).1 cc, (rest, cc))),
  (λ (h, (rest, e)). let same = (eq_iff p q).0 h in (rest, cc)),
)

-- A list is another or among its parents exactly if the other starts with it.
below_iff :
    (ps qs : List String)
    → ((parts_eq qs ps || among ps (parents_parts qs)) ≡ true) ↔ StartsWith ps qs
unfolding among parents_parts
below_iff [] [] = ((λ h. ([], refl)), (λ h. refl))
below_iff [] (q ∷ qs) = ((λ h. (q ∷ qs, refl)), (λ h. refl))
below_iff (p ∷ ps) [] = ((λ h. cc), (λ h. let e = h.1 in cc))
below_iff (p ∷ ps) (q ∷ qs) =
    let split = both-true (str_eq p q) (parts_eq qs ps || among ps (parents_parts qs)) in
    let tail = below_iff ps qs in
    let starts = StartsWith-cons p q ps qs in
    (
      (λ h.
          let both = split.0 (sym (below-cons p q ps qs) ∙ h) in starts.1 (both.0, tail.0 both.1)),
      (λ h. let both = starts.0 h in below-cons p q ps qs ∙ split.1 (both.0, tail.1 both.1)),
    )

any-among :
    (root : FilePath) (anchor : String) (qss : List (List String))
    → any (λ p. path_eq root p) (map (λ ps. record { anchor = anchor; parts = ps }) qss)
      ≡ (str_eq root.anchor anchor && among root.parts qss)
unfolding among
any-among root anchor [] = ground arith
any-among root anchor (qs ∷ qss) = ground (arith, any-among root anchor qss)

confined_iff : (root path : FilePath) → (confined root path ≡ reply path) ↔ Within root path
confined_iff root path =
    let parts = below_iff root.parts path.parts in
    let here = any-among root path.anchor (parents_parts path.parts) in
    (
      (λ h. (
        ground (arith, eq_iff root.anchor path.anchor, eq_iff path.anchor root.anchor, h, here),
        parts.0 (ground (arith, h, here)),
      )),
      (λ (a, starts).
          let b = parts.1 starts in
          ground
            (arith, eq_iff root.anchor path.anchor, eq_iff path.anchor root.anchor, a, b, here)),
    )

-- The steps after the token: a root is configured, both paths resolve, and the sample is confined.
abbrev located : Service → String → Reply FilePath
located service sample_path =
    if not (is_nonempty service.samples_root)
    then refuse 503 "Sample root not configured"
    else from_outcome (service.resolve service.samples_root) >>= λ root.
        from_outcome (service.resolve sample_path) >>= λ candidate. confined root candidate

confined-same :
    (root candidate path : FilePath) → confined root candidate ≡ reply path → candidate ≡ path
confined-same root candidate path h = ground (arith, h)

nonempty_iff : (t : String) → (is_nonempty t ≡ true) ↔ (t ≢ "")
nonempty_iff t = ground (arith, eq_iff t "")

located_iff :
    (service : Service) (sample_path : String) (path : FilePath)
    → (located service sample_path ≡ reply path) ↔ (
        (service.samples_root ≢ "")
        × (root : FilePath) × (service.resolve service.samples_root ≡ ok root)
        × (service.resolve sample_path ≡ ok path)
        × Within root path)
located_iff service sample_path path =
    let given = nonempty_iff service.samples_root in
    let guard =
      guard-reply (is_nonempty service.samples_root) 503 "Sample root not configured" _ path in
    (
      (λ h.
          let (n, h₁) = guard.0 h in
          let (root, e, h₂) = (bind-reply _ _ path).0 h₁ in
          let (candidate, e', h₃) = (bind-reply _ _ path).0 h₂ in
          let same = confined-same root candidate path h₃ in
          (
            given.0 n,
            root,
            (from_outcome-reply _ root).0 e,
            (from_outcome-reply _ candidate).0 e' ∙ ap ok same,
            (confined_iff root path).0 (subst (λ c. confined root c ≡ reply path) same h₃),
          )),
      (λ (n, root, e, e', within). guard.1 (
        given.1 n,
        (bind-reply _ _ path).1 (
          root,
          (from_outcome-reply _ root).1 e,
          (bind-reply _ _ path).1
              (path, (from_outcome-reply _ path).1 e', (confined_iff root path).1 within),
        ),
      )),
    )

-- `authorize_and_resolve` lets a sample through exactly if the request presents the token, a root is
-- configured, both paths resolve, and the resolved sample is the resolved root or lies below it; what
-- it gives is the resolved path.
pub authorize_and_resolve_outcome :
    (service : Service) (sample_path : String) (authorization : Option String) (path : FilePath)
    → (authorize_and_resolve service sample_path authorization ≡ reply path) ↔ (
        ((service.api_token ≢ "") × Presents service.api_token authorization)
        × (service.samples_root ≢ "")
        × (root : FilePath) × (service.resolve service.samples_root ≡ ok root)
        × (service.resolve sample_path ≡ ok path)
        × Within root path)
unfolding authorize_and_resolve
authorize_and_resolve_outcome service sample_path authorization path =
    let token = (require_bearer_token_outcome service.api_token authorization).0 in
    let rest = located_iff service sample_path path in
    let all =
      bind-reply (require_bearer_token service.api_token authorization)
        (λ _. located service sample_path) path in
    (
      (λ h. let (u, e, h₁) = all.0 h in let r = rest.0 h₁ in (token.0 e, r.0, r.1, r.2, r.3, r.4)),
      (λ (t, n, root, e, e', within). all.1 (tt, token.1 t, rest.1 (n, root, e, e', within))),
    )
