-- ===== src/Api/Audit.antt =====
-- What caller-supplied text can put into the audit of lumenos_sandbox/api.py.
use Prim.Native.Char.{code}
use lumenos_hiper_v.Prelude.{
  ℕ, ◌-◌, ◌≤◌, ◌==◌, Bool, true, String, Option, none, some, List, [], ◌∷◌, ◌≡◌, inl, inr, refl, ap,
  arith, Bool-cases, All, length, take, is_nonempty, take_text,
}
use lumenos_hiper_v.Monitoring.Patterns.{codes}
use lumenos_hiper_v.Api.Access.{clean, sanitize_audit_field, client_of, Request, log_access_denied}

-- At most `n` characters, each of them printable.
abbrev pub OneLine : (ℕ → Bool) → ℕ → String → Type 0
OneLine is_printable n text =
    All (λ c. is_printable c ≡ true) (codes text) × (length (codes text) ≤ n)

codes-take_text : (n : ℕ) (s : String) → codes (take_text n s) ≡ take n (codes s)
unfolding take_text
codes-take_text n String.[] = refl
codes-take_text n (String.◌∷◌ c s) = elim (Bool-cases (n == 0)) [
  | inl e ↦ rw e refl
  | inr e ↦ rw e (ap (λ cs. code c ∷ cs) (codes-take_text (n - 1) s))
]

length-take : (n : ℕ) (cs : List ℕ) → length (take n cs) ≤ n
length-take n [] = omega arith
length-take n (c ∷ cs) = ground (arith, length-take (n - 1) cs)

module _ (is_printable : ℕ → Bool) (space : is_printable b' ' ≡ true)
    (dash : is_printable b'-' ≡ true) where
  abbrev Printable : List ℕ → Type 0
  Printable cs = All (λ c. is_printable c ≡ true) cs

  Printable-take : (n : ℕ) (cs : List ℕ) → Printable cs → Printable (take n cs)
  Printable-take n [] h = tt
  Printable-take n (c ∷ cs) h = ground (arith, Printable-take (n - 1) cs h.1)

  Printable-clean : (s : String) → Printable (codes (clean is_printable s))
  unfolding clean
  Printable-clean String.[] = tt
  Printable-clean (String.◌∷◌ c s) = elim (Bool-cases (is_printable (code c))) [
    | inl e ↦ rw e (e, Printable-clean s)
    | inr e ↦ rw e (space, Printable-clean s)
  ]

  sanitize-OneLine :
      (value : Option String) (n : ℕ)
      → 1 ≤ n
      → OneLine is_printable n (sanitize_audit_field is_printable value n)
  unfolding sanitize_audit_field
  sanitize-OneLine none n h = ((dash, tt), h)
  sanitize-OneLine (some value) n h = elim (Bool-cases (is_nonempty value)) [
    | inl e ↦
        rw (e, codes-take_text n (clean is_printable value))
          (
            Printable-take n (codes (clean is_printable value)) (Printable-clean value),
            length-take n (codes (clean is_printable value)),
          )
    | inr e ↦ rw e ((dash, tt), h)
  ]

  -- Whatever the caller sends as its path, address and user agent, each stays within its bound in the
  -- audit line and has no character that is not printable, so no line break; given that a space and a
  -- dash are printable.
  pub log_access_denied-OneLine :
      (request : Request) (status : ℕ) (reason : String)
      → let line = log_access_denied is_printable request status reason in
        OneLine is_printable 200 line.endpoint
        × OneLine is_printable 64 line.client
        × OneLine is_printable 200 line.ua
  unfolding log_access_denied
  log_access_denied-OneLine request status reason = (
    sanitize-OneLine (some request.path) 200 (omega arith),
    sanitize-OneLine (some (client_of request.client_host)) 64 (omega arith),
    sanitize-OneLine request.user_agent 200 (omega arith),
  )
