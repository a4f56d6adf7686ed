-- ===== src/Inspect/Hashing.antt =====
-- What the size cap and the deadline promise of a hashed sample.
use lumenos_hiper_v.Prelude.{
  ℕ, ◌+◌, ◌≤◌, true, false, String, Option, none, some, List, [], ◌∷◌, ◌++◌, ◌≡◌, inl, inr, refl,
  All, arith, ltb, Outcome, ok, err, Ensures, Ensures-ok, Ensures-err, Ensures-bind, Ensures-weaken,
  if◌then◌else◌, Bool-cases, is_nonempty, is_some, ◌&&◌, ◌==◌, ◌%◌,
}
use lumenos_hiper_v.Inspect.{lstrip, rstrip}
use lumenos_hiper_v.Inspect.Sample.{
  Parsed, max_sample_size_mb_default, parsed_mb, positive_mb, Chunk, check_every, Sample, Hashed,
  max_sample_bytes, ensure_sample_within_limit, check_deadline, hash_chunks, hash_sample, lift,
}

-- Every read gave at most `n` bytes, as `f.read(n)` promises.
abbrev pub Fits : ℕ → Outcome Chunk → Type 0
Fits n (ok chunk) = chunk.size ≤ n
Fits n (err e) = Unit

-- The bytes that the reads gave before one raised.
abbrev pub bytes_read : List (Outcome Chunk) → ℕ
bytes_read [] = 0
bytes_read (ok chunk ∷ reads) = chunk.size + bytes_read reads
bytes_read (err e ∷ reads) = 0

positive_mb-positive : (mb : Parsed) → 1 ≤ positive_mb mb
positive_mb-positive (true, n) = omega arith
positive_mb-positive (false, n) = ground arith

-- The cap is never zero, whatever the variable holds and whatever `int` makes of it.
pub max_sample_bytes-positive :
    (int : String → Outcome Parsed) (variable : String) → 1048576 ≤ max_sample_bytes int variable
unfolding max_sample_bytes
max_sample_bytes-positive int variable =
    let raw = rstrip (lstrip variable) in
    let mb = if is_nonempty raw then parsed_mb (int raw) else (false, max_sample_size_mb_default) in
    omega (arith, positive_mb-positive mb)

-- A sample that can be hashed to its end: it opens, no read raises, and it is within the cap.
abbrev pub Good : Outcome Chunk → Type 0
Good (ok chunk) = Unit
Good (err e) = ⊥

module _ {W : Type 0} (monotonic : W → ℕ × W) (sha256 : List String → String) (limit : ℕ) where
  check_step :
      (deadline : Option ℕ) (checkpoint : String) (w : W)
      → Ensures (λ _ _. Unit) (λ _ _. Unit) (check_deadline monotonic deadline checkpoint w)
  unfolding check_deadline
  check_step none checkpoint w = ground arith
  check_step (some d) checkpoint w = ground arith

  every_step :
      (deadline : Option ℕ) (chunks : ℕ) (w : W)
      → Ensures (λ _ _. Unit) (λ _ _. Unit) (check_every monotonic sha256 limit deadline chunks w)
  every_step deadline chunks w = elim (Bool-cases (is_some deadline && (chunks % 64) == 0)) [
    | inl due ↦ rw due (check_step deadline _ w)
    | inr not_due ↦ rw not_due (Ensures-ok tt)
  ]

  limit_step :
      (on_disk : Outcome ℕ) (w : W)
      → Ensures (λ _ _. Unit) (λ _ _. Unit) (ensure_sample_within_limit limit on_disk w)
  unfolding ensure_sample_within_limit
  limit_step (ok size) w = ground arith
  limit_step (err e) w = Ensures-ok tt

  open_step :
      (opened : Outcome (Unit {0})) (w : W) → Ensures (λ _ _. Unit) (λ _ _. Unit) (lift opened w)
  open_step (ok u) w = Ensures-ok tt
  open_step (err e) w = Ensures-err tt

  module _ (n : ℕ) where
    -- The size of the result is that of what was read, and passes the cap by one read at most.
    abbrev pub Bounded : List (Outcome Chunk) → ℕ → Hashed → Type 0
    Bounded reads size h = (h.size ≡ size + bytes_read reads) × (h.size ≤ limit + n)

    hash_chunks-Bounded :
        (deadline : Option ℕ) (path : String) (chunks : ℕ) (seen : List String) (size : ℕ)
        (reads : List (Outcome Chunk)) (w : W)
        → All (Fits n) reads
        → size ≤ limit + n
        → Ensures
            (λ h _. Bounded reads size h)
            (λ _ _. Unit)
            (hash_chunks monotonic sha256 limit deadline path chunks seen size reads w)
    unfolding hash_chunks
    hash_chunks-Bounded deadline path chunks seen size [] w fits le = Ensures-ok (omega arith, le)
    hash_chunks-Bounded deadline path chunks seen size (err e ∷ reads) w fits le = Ensures-err tt
    hash_chunks-Bounded deadline path chunks seen size (ok chunk ∷ reads) w fits le =
        Ensures-bind (every_step deadline (chunks + 1) w) λ _ t _.
          elim (Bool-cases (ltb limit size)) [
            | inl over ↦ rw over (Ensures-err tt)
            | inr under ↦ rw under (
                Ensures-weaken
                  (hash_chunks-Bounded deadline path (chunks + 1) (seen ++ chunk.bytes ∷ [])
                    (size + chunk.size) reads t fits.1 (ground (arith, fits.0, under)))
                  (λ h _ b. (omega (arith, b.0), b.1)) λ _ _ _. tt)
          ]

    -- Whatever the deadline, if each read gives at most n bytes then a hashed sample has the size of
    -- all that was read, and exceeds the cap by at most n.
    hash_sample-Bounded :
        (deadline : Option ℕ) (sample : Sample) (w : W)
        → All (Fits n) sample.reads
        → Ensures
            (λ h _. Bounded sample.reads 0 h)
            (λ _ _. Unit)
            (hash_sample monotonic sha256 limit deadline sample w)
    unfolding hash_sample
    hash_sample-Bounded deadline sample w fits = Ensures-bind (check_step deadline _ w) λ _ w₁ _.
        Ensures-bind (limit_step sample.on_disk w₁) λ _ w₂ _.
          Ensures-bind (open_step sample.opened w₂) λ _ w₃ _.
            hash_chunks-Bounded deadline sample.path 0 [] 0 sample.reads w₃ fits (omega arith)

  hash_chunks-ok :
      (path : String) (chunks : ℕ) (seen : List String) (size : ℕ) (reads : List (Outcome Chunk))
      (w : W)
      → All Good reads
      → size + bytes_read reads ≤ limit
      → Ensures
          (λ h t. (h.size ≡ size + bytes_read reads) × (t ≡ w))
          (λ _ _. ⊥)
          (hash_chunks monotonic sha256 limit none path chunks seen size reads w)
  unfolding hash_chunks
  hash_chunks-ok path chunks seen size [] w good le = Ensures-ok (omega arith, refl)
  hash_chunks-ok path chunks seen size (err e ∷ reads) w good le = absurd good.0
  hash_chunks-ok path chunks seen size (ok chunk ∷ reads) w good le =
      let under : ltb limit size ≡ false = ground (arith, le) in
      rw under (
        Ensures-weaken
          (hash_chunks-ok path (chunks + 1) (seen ++ chunk.bytes ∷ []) (size + chunk.size) reads w
            good.1 (omega (arith, le)))
          (λ h _ b. (omega (arith, b.0), b.1)) λ _ _ p. p)

  -- Without a deadline, a sample that opens, whose size on disk is within the cap, whose reads raise
  -- nothing and give no more than the cap in all, is hashed, and its size is that of all that was
  -- read.
  hash_sample-ok :
      (sample : Sample) (size : ℕ) (w : W)
      → sample.on_disk ≡ ok size
      → size ≤ limit
      → sample.opened ≡ ok tt
      → All Good sample.reads
      → bytes_read sample.reads ≤ limit
      → Ensures
          (λ h t. (h.size ≡ bytes_read sample.reads) × (t ≡ w))
          (λ _ _. ⊥)
          (hash_sample monotonic sha256 limit none sample w)
  unfolding hash_sample ensure_sample_within_limit check_deadline
  hash_sample-ok sample size w on_disk within opened good le =
      let under : ltb limit size ≡ false = ground (arith, within) in
      rw (on_disk, under, opened)
        (Ensures-weaken (hash_chunks-ok sample.path 0 [] 0 sample.reads w good (omega (arith, le)))
          (λ h _ b. (omega (arith, b.0), b.1)) λ _ _ p. p)
