-- ===== src/Inspect/Sample.antt =====
-- The sample of a cycle in lumenos_sandbox/inspect.py: the cap on its size, the deadline and the
-- streaming hash. A file is what reading it gives: its size on disk, and a chunk or an exception for
-- each read.
use lumenos_hiper_v.Prelude.{
  ℕ, ◌+◌, ◌*◌, ◌-◌, ◌%◌, min, max, Bool, true, false, ◌&&◌, String, Option, none, some, List, [],
  ◌∷◌, ◌++◌, is_nonempty, is_some, ltb, ◌==◌, Exec, Outcome, ok, err, pure, raise, again, ◌>>=◌,
  ◌>>◌, if◌then◌else◌, analysis_deadline_exceeded, sample_too_large, format,
}
use lumenos_hiper_v.Inspect.{lstrip, rstrip}

-- The result of Python's `int`: whether it is negative, and its magnitude.
abbrev pub Parsed : Type 0
Parsed = Bool × ℕ

-- `MAX_SAMPLE_SIZE_MB_DEFAULT`
abbrev pub max_sample_size_mb_default : ℕ
max_sample_size_mb_default = 500

abbrev pub parsed_mb : Outcome Parsed → Parsed
parsed_mb (ok n) = n
parsed_mb (err e) = (false, max_sample_size_mb_default)

-- `if mb <= 0: mb = MAX_SAMPLE_SIZE_MB_DEFAULT`
abbrev pub positive_mb : Parsed → ℕ
positive_mb (true, n) = max_sample_size_mb_default
positive_mb (false, n) = if n == 0 then max_sample_size_mb_default else n

-- `max_sample_bytes`, on the value of the environment variable, empty if it is missing
unfoldable pub max_sample_bytes : (String → Outcome Parsed) → String → ℕ
max_sample_bytes int variable =
    let raw = rstrip (lstrip variable) in
    let mb = if is_nonempty raw then parsed_mb (int raw) else (false, max_sample_size_mb_default) in
    positive_mb mb * 1024 * 1024

pub record Chunk : Type 0 where
  pub size : ℕ
  pub bytes : String

pub record Sample : Type 0 where
  pub path : String
  pub on_disk : Outcome ℕ
  pub opened : Outcome (Unit {0})
  pub reads : List (Outcome Chunk)

pub record Hashed : Type 0 where
  pub path : String
  pub sha256 : String
  pub size : ℕ

abbrev too_large : {S A : Type 0} → Exec S A
too_large = raise sample_too_large "sample exceeds the size cap"

-- `ensure_sample_within_limit`: a size that cannot be read is left to the reads
unfoldable pub ensure_sample_within_limit : {S : Type 0} → ℕ → Outcome ℕ → Exec S (Unit {0})
ensure_sample_within_limit limit (ok size) = if ltb limit size then too_large else pure tt
ensure_sample_within_limit limit (err e) = pure tt

-- An `Outcome` that is raised or passed on.
abbrev pub lift : {S A : Type 0} → Outcome A → Exec S A
lift (ok a) = pure a
lift (err e) = again e

module _ {W : Type 0} (monotonic : W → ℕ × W) where
  abbrev clock : Exec W ℕ
  clock w = let (t, w') = monotonic w in (ok t, w')

  -- `_check_deadline`; the ticks left are positive exactly before the deadline
  unfoldable pub check_deadline : Option ℕ → String → Exec W (Unit {0})
  check_deadline none checkpoint = pure tt
  check_deadline (some deadline) checkpoint = do
    t ← clock
    if ltb t deadline
        then pure tt
        else raise analysis_deadline_exceeded
            (format ("analysis deadline exceeded " ∷ checkpoint ∷ []))

  -- `_effective_command_timeout`, in whole seconds
  unfoldable pub effective_command_timeout : ℕ → Option ℕ → Exec W ℕ
  effective_command_timeout execute_timeout none = pure execute_timeout
  effective_command_timeout execute_timeout (some deadline) = do
    t ← clock
    pure (max 1 (min execute_timeout (deadline - t)))

  module _ (sha256 : List String → String) (limit : ℕ) (deadline : Option ℕ) where
    -- `if deadline is not None and chunks % 64 == 0: _check_deadline(…)`
    abbrev pub check_every : ℕ → Exec W (Unit {0})
    check_every chunks =
        if is_some deadline && (chunks % 64) == 0
        then check_deadline deadline "while hashing sample"
        else pure tt

    -- The loop over the reads, with the chunks counted, the bytes hashed and the size so far.
    unfoldable pub hash_chunks : String → ℕ → List String → ℕ → List (Outcome Chunk) → Exec W Hashed
    unfolding check_deadline
    hash_chunks path chunks seen size [] =
        pure (record { path = path; sha256 = sha256 seen; size = size })
    hash_chunks path chunks seen size (err e ∷ reads) = again e
    hash_chunks path chunks seen size (ok chunk ∷ reads) =
        let rest =
          hash_chunks path (chunks + 1) (seen ++ chunk.bytes ∷ []) (size + chunk.size) reads in
        check_every (chunks + 1) >> (if ltb limit size then too_large else rest)

    -- `_hash_sample`
    unfoldable pub hash_sample : Sample → Exec W Hashed
    unfolding hash_chunks ensure_sample_within_limit
    hash_sample sample = do
      check_deadline deadline "before hashing sample"
      ensure_sample_within_limit limit sample.on_disk
      lift sample.opened
      hash_chunks sample.path 0 [] 0 sample.reads
