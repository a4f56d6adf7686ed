-- ===== src/Tests/Packages.antt =====
-- The theorems on packages, with a JSON that knows one manifest and a digest of one byte and zeros.
use lumenos_hiper_v.Prelude.{◌%◌, true, some, [], ◌∷◌, ◌++◌, arith, length, ◌≡◌, refl, ok}
use lumenos_hiper_v.Packages.{
  Bytes, PackagePlan, PackageEngine, PackageManifest, ManifestDict, dict_of, info_of, PackageInfo,
  Tools, valid, manifest_for, create, verify, slice, header_size, lva_magic,
}
use lumenos_hiper_v.Packages.Container.{verify-create}

abbrev known : ManifestDict
known = record {
  name = some "resnet";
  version = some "1.0.0";
  layers = some 1;
  total_size_mb = some 3;
}

abbrev digest : Bytes → Bytes
digest bytes =
    length bytes % 256
    ∷ 0
    ∷ 0
    ∷ 0
    ∷ 0
    ∷ 0
    ∷ 0
    ∷ 0
    ∷ 0
    ∷ 0
    ∷ 0
    ∷ 0
    ∷ 0
    ∷ 0
    ∷ 0
    ∷ 0
    ∷ 0
    ∷ 0
    ∷ 0
    ∷ 0
    ∷ 0
    ∷ 0
    ∷ 0
    ∷ 0
    ∷ 0
    ∷ 0
    ∷ 0
    ∷ 0
    ∷ 0
    ∷ 0
    ∷ 0
    ∷ 0
    ∷ []

abbrev tools : Tools
tools = record {
  sha256 = digest;
  dumps = λ manifest. 123 ∷ 125 ∷ [];
  loads = λ bytes. ok known;
  tar = λ path. 31 ∷ 139 ∷ [];
  exists = λ path. true;
  hash_file = λ path. "e3b0";
  getsize = λ path. 3145728;
  hexdigest = λ bytes. "00";
  utcnow = "2026-01-01T00:00:00";
}

abbrev test_plan : PackagePlan
test_plan = record {
  name = "resnet";
  image_path = "images/pytorch.vhdx";
  model_path = "";
  config_path = "";
  description = "";
  author = "";
  gpu_required = true;
  gpu_driver = "";
  memory_mb = 8192;
  cpu_cores = 4;
  tags = [];
}

abbrev engine : PackageEngine
engine = record { packages = [] }

verify-create_example :
    (file : Bytes) × ((create tools test_plan engine).0 ≡ ok file)
    × (verify tools file ≡ valid (info_of (dict_of (manifest_for tools test_plan))))
unfolding lumenos_hiper_v.Packages.layers_for
verify-create_example = verify-create tools (λ bytes. refl) test_plan engine (omega arith) refl

-- The shortest package: a header over a manifest of two bytes.
abbrev small_package : Bytes
small_package =
    lva_magic ++ (1 ∷ 0 ∷ 0 ∷ 0 ∷ 2 ∷ 0 ∷ 0 ∷ 0 ∷ digest (123 ∷ 125 ∷ [])) ++ 123 ∷ 125 ∷ []
