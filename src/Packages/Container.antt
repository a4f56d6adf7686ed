-- ===== src/Packages/Container.antt =====
-- What the container of lumenos_sandbox/package_engine.py keeps: a package that was built verifies, and
-- what a package that verifies vouches for.
use lumenos_hiper_v.Prelude.{
  ℕ, ◌+◌, ◌/◌, ◌-◌, ◌%◌, ◌<◌, ◌==◌, ==_iff, true, String, List, [], ◌∷◌, ◌++◌, length, take, drop,
  take-zero, drop-zero, take-append, drop-append, ◌≡◌, refl, ap, ◌∙◌, inl, inr, Outcome, ok, err,
  if◌then◌else◌, arith, Bool-cases,
}
use lumenos_hiper_v.Monitoring.Patterns.{codes_eq}
use lumenos_hiper_v.Packages.{
  Bytes, lva_magic, lva_version, header_size, pack_u16, pack_u32, unpack_u32, placeholder,
  PackageManifest, ManifestDict, dict_of, PackageInfo, info_of, valid, invalid, slice, write_at,
  Tools, tars, written, build_lva, compare_checksum, verify_body, verify, manifest_for,
  keep_package, create, PackagePlan, PackageEngine,
}

codes_eq_refl : (xs : Bytes) → codes_eq xs xs ≡ true
codes_eq_refl [] = refl
codes_eq_refl (x ∷ xs) = ground (arith, ==_iff x x, codes_eq_refl xs)

codes_eq_sound : (xs ys : Bytes) → codes_eq xs ys ≡ true → xs ≡ ys
codes_eq_sound [] [] h = refl
codes_eq_sound [] (y ∷ ys) h = ground arith
codes_eq_sound (x ∷ xs) [] h = ground arith
codes_eq_sound (x ∷ xs) (y ∷ ys) h = ground (arith, h, ==_iff x y, codes_eq_sound xs ys)

take-drop : (n : ℕ) (xs : Bytes) → take n xs ++ drop n xs ≡ xs
take-drop n [] = refl
take-drop n (x ∷ xs) = elim (Bool-cases (n == 0)) [
  | inl t ↦ rw t refl
  | inr t ↦ rw t (ap (λ r. x ∷ r) (take-drop (n - 1) xs))
]

-- Four bytes, the least first.
abbrev four : ℕ → Bytes
four n = n % 256 ∷ n / 256 % 256 ∷ n / 65536 % 256 ∷ n / 16777216 ∷ []

unpack_u32-four : (n : ℕ) → n < 4294967296 → unpack_u32 (four n) ≡ ok n
unfolding unpack_u32
unpack_u32-four n h = ap (λ m. ok m) (omega (arith, h))

pack_u32-four : (n : ℕ) → n < 4294967296 → pack_u32 n ≡ ok (four n)
unfolding pack_u32
pack_u32-four n h = ground (arith, h)

-- The layout of a package.
abbrev pub container : ℕ → Bytes → Bytes → Bytes
container manifest_len checksum body =
    (lva_magic ++ pack_u16 lva_version ++ pack_u16 0 ++ four manifest_len) ++ checksum ++ body

take-all : (n : ℕ) (xs : Bytes) → length xs ≡ n → take n xs ≡ xs
take-all n [] h = refl
take-all n (x ∷ xs) h = ground (arith, h, ==_iff n 0, take-all (n - 1) xs)

module _ (tools : Tools) (digest_length : (bytes : Bytes) → length (tools.sha256 bytes) ≡ 32) where
  -- The checksum takes the place of the placeholder, and is that of all that follows it.
  write-checksum :
      (n : ℕ) (body : Bytes)
      → let first = container n placeholder body in
        write_at 12 (tools.sha256 (drop header_size first)) first
        ≡ container n (tools.sha256 body) body
  write-checksum n body =
      let first = container n placeholder body in
      let head = take 12 first in
      ap (λ b. write_at 12 (tools.sha256 b) first) (drop-zero body)
      ∙ ap (λ k. head ++ tools.sha256 body ++ drop (12 + k) first) (digest_length body)
      ∙ ap (λ b. head ++ tools.sha256 body ++ b) (drop-zero body)

  -- The parts of a package, read back.
  module _ (n : ℕ) (body : Bytes) where
    abbrev file : Bytes
    file = container n (tools.sha256 body) body

    read-length : n < 4294967296 → unpack_u32 (slice 8 12 (take header_size file)) ≡ ok n
    read-length h =
        ap (λ t. unpack_u32 (n % 256 ∷ n / 256 % 256 ∷ n / 65536 % 256 ∷ n / 16777216 ∷ t))
          (take-zero _)
        ∙ unpack_u32-four n h

    read-body : drop header_size file ≡ body
    read-body = drop-append 32 (tools.sha256 body) body (digest_length body)

    read-checksum : slice 12 44 (take header_size file) ≡ tools.sha256 body
    read-checksum =
        ap (λ t. take 32 t) (drop-zero (take 32 (tools.sha256 body ++ body)))
        ∙ ap (λ t. take 32 t) (take-append 32 (tools.sha256 body) body (digest_length body))
        ∙ take-all 32 (tools.sha256 body) (digest_length body)

    verify-container :
        (manifest : ManifestDict)
        → n < 4294967296
        → tools.loads (take n body) ≡ ok manifest
        → verify tools file ≡ valid (info_of manifest)
    unfolding verify
    verify-container manifest h l =
        let header = take header_size file in
        ap (verify_body tools header (drop header_size file)) (read-length h)
        ∙ ap (λ b. verify_body tools header b (ok n)) read-body
        ∙ ap
            (λ c.
              compare_checksum c (tools.sha256 (take n body ++ drop n body))
                (tools.loads (take n body)))
            read-checksum
        ∙ ap
            (λ b. compare_checksum (tools.sha256 body) (tools.sha256 b) (tools.loads (take n body)))
            (take-drop n body)
        ∙ ap (compare_checksum (tools.sha256 body) (tools.sha256 body)) l
        ∙ ap (λ b. if b then valid (info_of manifest) else invalid "Checksum mismatch")
            (codes_eq_refl (tools.sha256 body))

  -- A package that was built of a manifest below 4 GiB, whose JSON can be read back, verifies, and
  -- tells what is in the manifest.
  pub verify-build_lva :
      (manifest : PackageManifest) (source_files : List String)
      → length (tools.dumps manifest) < 4294967296
      → tools.loads (tools.dumps manifest) ≡ ok (dict_of manifest)
      → (file : Bytes) × (build_lva tools manifest source_files ≡ ok file)
        × (verify tools file ≡ valid (info_of (dict_of manifest)))
  unfolding build_lva
  verify-build_lva manifest source_files h l =
      let json = tools.dumps manifest in
      let body = json ++ tars tools source_files in
      (
        container (length json) (tools.sha256 body) body,
        ap (written tools body) (pack_u32-four (length json) h)
            ∙ ap (λ f. ok f) (write-checksum (length json) body),
        verify-container (length json) body (dict_of manifest) h
            (ap tools.loads (take-append (length json) json (tars tools source_files) refl) ∙ l),
      )

  -- `create` leaves a package that verifies, under the name and with the layers and the sizes of its plan.
  pub verify-create :
      (plan : PackagePlan) (engine : PackageEngine)
      → let manifest = manifest_for tools plan in
        length (tools.dumps manifest) < 4294967296
        → tools.loads (tools.dumps manifest) ≡ ok (dict_of manifest)
        → (file : Bytes) × ((create tools plan engine).0 ≡ ok file)
          × (verify tools file ≡ valid (info_of (dict_of manifest)))
  unfolding create
  verify-create plan engine h l =
      let built =
        verify-build_lva (manifest_for tools plan)
          (plan.image_path ∷ plan.model_path ∷ plan.config_path ∷ []) h l in
      (
        built.0,
        ap (λ r. (keep_package tools plan (manifest_for tools plan) engine r).0) built.1,
        built.2,
      )

compare_checksum-valid :
    (expected actual : Bytes) (o : Outcome ManifestDict) (info : PackageInfo)
    → compare_checksum expected actual o ≡ valid info
    → expected ≡ actual
compare_checksum-valid expected actual (ok manifest) info h =
    elim (Bool-cases (codes_eq expected actual)) [
      | inl t ↦ codes_eq_sound expected actual t
      | inr t ↦ ground (arith, rw t at h)
    ]
compare_checksum-valid expected actual (err e) info h = ground arith

module _ (tools : Tools) where
  body-valid :
      (header body : Bytes) (o : Outcome ℕ) (info : PackageInfo)
      → verify_body tools header body o ≡ valid info
      → slice 12 44 header ≡ tools.sha256 body
  body-valid header body (ok n) info h =
      compare_checksum-valid (slice 12 44 header) (tools.sha256 (take n body ++ drop n body))
        (tools.loads (take n body)) info h
      ∙ ap tools.sha256 (take-drop n body)
  body-valid header body (err e) info h = ground arith

  -- The version and the flags of a package are not looked at.
  pub verify-version :
      (a b c d x y z w : ℕ) (rest : Bytes)
      → verify tools (lva_magic ++ (a ∷ b ∷ c ∷ d ∷ rest))
        ≡ verify tools (lva_magic ++ (x ∷ y ∷ z ∷ w ∷ rest))
  unfolding verify
  verify-version a b c d x y z w rest = refl

  -- Of a package that verifies, the checksum in its header is the digest of all that follows the header.
  verify-checksum :
      (file : Bytes) (info : PackageInfo)
      → verify tools file ≡ valid info
      → slice 12 44 (take header_size file) ≡ tools.sha256 (drop header_size file)
  unfolding verify
  verify-checksum file info h =
      let header = take header_size file in
      elim (Bool-cases (codes_eq (slice 0 4 header) lva_magic)) [
        | inl t ↦
            body-valid header (drop header_size file) (unpack_u32 (slice 8 12 header)) info
              (rw (verify, t) at h)
        | inr t ↦ ground (arith, rw (verify, t) at h)
      ]
