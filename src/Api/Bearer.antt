-- ===== src/Api/Bearer.antt =====
-- Which requests the bearer token of lumenos_sandbox/api.py lets through.
use Prim.Native.Char.{Char, code}
use Prim.Native.String
use text.Mathlib.TextEquality.{Char-path}
use text.Mathlib.TextLemmas.{nil-append, cons-append}
use mathlib.Core.Path.{subst}
use mathlib.Core.Option.{some-injective}
use lumenos_hiper_v.Prelude.{
  ℕ, ◌==◌, ==_iff, true, false, String, Option, none, some, List, [], ◌∷◌, ◌≡◌, ◌≢◌, ◌↔◌, inl, inr,
  refl, sym, ap, ◌∙◌, count_if, get_or, is_nonempty, eq_iff, arith, Bool-cases,
}
use lumenos_hiper_v.Monitoring.Patterns.{codes, lower, codes_eq}
use lumenos_hiper_v.Api.{reply, refuse}
use lumenos_hiper_v.Api.Access.{partition_space, is_bearer, require_bearer_token}

spaces : List ℕ → ℕ
spaces cs = count_if (λ c. c == 32) cs

spaces-lower : (cs : List ℕ) → spaces (lower cs) ≡ spaces cs
unfolding spaces
spaces-lower [] = refl
spaces-lower (c ∷ cs) = ground (arith, spaces-lower cs)

codes_eq-eq : (cs ds : List ℕ) → codes_eq cs ds ≡ true → cs ≡ ds
codes_eq-eq [] [] h = refl
codes_eq-eq [] (d ∷ ds) h = cc
codes_eq-eq (c ∷ cs) [] h = cc
codes_eq-eq (c ∷ cs) (d ∷ ds) h = ground (arith, codes_eq-eq cs ds)

partition_space-space :
    (c : Char) (s : String) → (code c == 32) ≡ true → partition_space (String.◌∷◌ c s) ≡ ("", s)
unfolding partition_space
partition_space-space c s e = rw e refl

partition_space-letter :
    (c : Char) (s : String)
    → (code c == 32) ≡ false
    → partition_space (String.◌∷◌ c s) ≡ (String.◌∷◌ c (partition_space s).0, (partition_space s).1)
unfolding partition_space
partition_space-letter c s e = rw e refl

-- Two texts with a space between them.
abbrev pub spaced : String → String → String
spaced a b = String.◌++◌ a (String.◌∷◌ " " b)

-- A text with a last part is its first part, a space and the last.
partition_space-parts :
    (t : String)
    → is_nonempty (partition_space t).1 ≡ true
    → t ≡ spaced (partition_space t).0 (partition_space t).1
unfolding partition_space
partition_space-parts String.[] h = cc
partition_space-parts (String.◌∷◌ c s) h = elim (Bool-cases (code c == 32)) [
  | inl e ↦
      rw (partition_space-space c s e, nil-append)
        (ap (λ d. String.◌∷◌ d s) (Char-path c " " ((==_iff (code c) 32).0 e)))
  | inr e ↦
      rw (partition_space-letter c s e, cons-append)
        (ap (String.◌∷◌ c) (
          partition_space-parts s
            (subst (λ p. is_nonempty p.1 ≡ true) (partition_space-letter c s e) h)))
]

partition_space-spaced :
    (a b : String) → spaces (codes a) ≡ 0 → partition_space (spaced a b) ≡ (a, b)
unfolding partition_space spaces
partition_space-spaced String.[] b h = rw (nil-append) refl
partition_space-spaced (String.◌∷◌ c s) b h =
    ap partition_space (cons-append c s (String.◌∷◌ " " b))
    ∙ partition_space-letter c (spaced s b) (ground arith)
    ∙ ap (λ p. (String.◌∷◌ c p.0, p.1)) (partition_space-spaced s b (ground arith))

spaces-bearer : (scheme : String) → is_bearer scheme ≡ true → spaces (codes scheme) ≡ 0
unfolding spaces
spaces-bearer scheme h =
    sym (spaces-lower (codes scheme)) ∙ ap spaces (codes_eq-eq (lower (codes scheme)) _ h)

-- A header that presents the token: the scheme, in any case, a space and the token.
abbrev pub Presents : String → Option String → Type 0
Presents token authorization =
    (scheme : String) × (is_bearer scheme ≡ true) × (authorization ≡ some (spaced scheme token))

-- The last part of a header that is not there is empty.
Presents-parts :
    (token : String) (authorization : Option String)
    → token ≢ ""
    → let p = partition_space (get_or authorization "") in
      Presents token authorization ↔ ((is_bearer p.0 ≡ true) × (p.1 ≡ token))
unfolding partition_space
Presents-parts token none given = ((λ h. ground (arith, h)), (λ h. absurd (given (sym h.1))))
Presents-parts token (some t) given = (there, back)
  where
    there :
        Presents token (some t)
        → (is_bearer (partition_space t).0 ≡ true) × ((partition_space t).1 ≡ token)
    there (scheme, b, e) =
        let p =
          ap partition_space (some-injective _ _ e)
          ∙ partition_space-spaced scheme token (spaces-bearer scheme b) in
        (subst (λ q. is_bearer q.0 ≡ true) (sym p) b, ap (λ q. q.1) p)

    back :
        (is_bearer (partition_space t).0 ≡ true) × ((partition_space t).1 ≡ token)
        → Presents token (some t)
    back (b, e) =
        let full =
          partition_space-parts t (ground (arith, eq_iff (partition_space t).1 "", e, given)) in
        ((partition_space t).0, b, ap some (full ∙ ap (spaced (partition_space t).0) e))

-- With a token configured, exactly the requests that present it pass, and every other one is refused
-- with 401; with none configured, every request is refused with 503.
pub require_bearer_token_outcome :
    (expected : String) (authorization : Option String)
    → let r = require_bearer_token expected authorization in
      ((r ≡ reply tt) ↔ ((expected ≢ "") × Presents expected authorization))
      × ((expected ≡ "") → r ≡ refuse 503 "API token not configured")
      × ((expected ≢ "")
          → ¬ (Presents expected authorization)
          → r ≡ refuse 401 "Invalid or missing bearer token")
unfolding require_bearer_token
require_bearer_token_outcome expected authorization =
    let parts = partition_space (get_or authorization "") in
    let given = eq_iff expected "" in
    let same = eq_iff parts.1 expected in
    let blank = eq_iff parts.1 "" in
    let presents = Presents-parts expected authorization in
    (
      (
        (λ h.
            let n : expected ≢ "" = λ e. ground (arith, given) in
            (n, (presents n).1 (ground (arith, given, same, blank)))),
        (λ h. let q = (presents h.0).0 h.1 in ground (arith, given, same, blank)),
      ),
      (λ e. ground (arith, given)),
      (λ n a.
          let b : ¬ ((is_bearer parts.0 ≡ true) × (parts.1 ≡ expected)) =
            λ q. a ((presents n).1 q) in
          ground (arith, given, same, blank)),
    )
