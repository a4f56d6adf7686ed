-- ===== src/Packages.antt =====
-- lumenos_sandbox/package_engine.py: the container of a package and the engine that builds and verifies
-- it. A file is the list of its bytes. The digest, JSON, tar and what the file system answers are
-- arguments; `deploy`, which extracts and calls PowerShell, is not modelled.
pub mod Container
use lumenos_hiper_v.Prelude.{
  ℕ, ◌+◌, ◌*◌, ◌/◌, ◌-◌, ◌%◌, ltb, ◌==◌, Bool, true, false, ◌&&◌, not, String, Option, none, some,
  List, [], ◌∷◌, ◌++◌, length, take, drop, map, get_or, is_nonempty, format, Dict, insert, values,
  Outcome, ok, err, ExcKind, other_error, sum_of, if◌then◌else◌,
}
use lumenos_hiper_v.Monitoring.Patterns.{codes_eq}

abbrev pub Bytes : Type 0
Bytes = List ℕ

-- `LVA_MAGIC`, `LVA_VERSION` and `HEADER_SIZE`
abbrev pub lva_magic : Bytes
lva_magic = 76 ∷ 86 ∷ 65 ∷ 49 ∷ []

abbrev pub lva_version : ℕ
lva_version = 1

abbrev pub header_size : ℕ
header_size = 44

-- `struct.pack("<H", n)` of a number below 2^16, and `struct.pack("<I", n)`
abbrev pub pack_u16 : ℕ → Bytes
pack_u16 n = n % 256 ∷ n / 256 ∷ []

unfoldable pub pack_u32 : ℕ → Outcome Bytes
pack_u32 n =
    if ltb n 4294967296
    then ok (n % 256 ∷ n / 256 % 256 ∷ n / 65536 % 256 ∷ n / 16777216 ∷ [])
    else err
        (record { kind = other_error; message = "'I' format requires 0 <= number <= 4294967295" })

-- `struct.unpack("<I", bytes)[0]`
unfoldable pub unpack_u32 : Bytes → Outcome ℕ
unpack_u32 (a ∷ (b ∷ (c ∷ (d ∷ [])))) = ok (a + b * 256 + c * 65536 + d * 16777216)
unpack_u32 _ = err (record { kind = other_error; message = "unpack requires a buffer of 4 bytes" })

pub record PackageLayer : Type 0 where
  pub name : String
  pub layer_type : String
  pub path : String
  pub size_mb : ℕ
  pub sha256 : String
  pub compressed : Bool

pub record PackageManifest : Type 0 where
  pub name : String
  pub version : String
  pub description : String
  pub author : String
  pub created_at : String
  pub base_image : String
  pub gpu_driver : String
  pub gpu_required : Bool
  pub memory_mb : ℕ
  pub cpu_cores : ℕ
  pub disk_gb : ℕ
  pub layers : List PackageLayer
  pub total_size_mb : ℕ
  pub sha256 : String
  pub tags : List String
  pub min_host_memory_mb : ℕ
  pub min_host_cpu_cores : ℕ
  pub platform : String

-- The keys that `verify` reads of the dict in a package.
pub record ManifestDict : Type 0 where
  pub name : Option String
  pub version : Option String
  pub layers : Option ℕ
  pub total_size_mb : Option ℕ

-- `manifest.to_dict()`, at those keys
abbrev pub dict_of : PackageManifest → ManifestDict
dict_of manifest = record {
  name = some manifest.name;
  version = some manifest.version;
  layers = some (length manifest.layers);
  total_size_mb = some manifest.total_size_mb;
}

-- What `verify` answers.
pub record PackageInfo : Type 0 where
  pub name : Option String
  pub version : Option String
  pub layers : ℕ
  pub size_mb : ℕ

pub data Verified : Type 0 where
  valid : PackageInfo → Verified
  invalid : String → Verified

abbrev pub info_of : ManifestDict → PackageInfo
info_of manifest = record {
  name = manifest.name;
  version = manifest.version;
  layers = get_or manifest.layers 0;
  size_mb = get_or manifest.total_size_mb 0;
}

-- `xs[a:b]`
abbrev pub slice : {A : Type 0} → ℕ → ℕ → List A → List A
slice a b xs = take (b - a) (drop a xs)

-- `f.seek(at); f.write(bytes)` in a file that is long enough
abbrev pub write_at : ℕ → Bytes → Bytes → Bytes
write_at at bytes file = take at file ++ bytes ++ drop (at + length bytes) file

-- `b"\x00" * 32`
abbrev pub placeholder : Bytes
placeholder =
    0 ∷ 0 ∷ 0 ∷ 0 ∷ 0 ∷ 0 ∷ 0 ∷ 0 ∷ 0 ∷ 0 ∷ 0 ∷ 0 ∷ 0 ∷ 0 ∷ 0 ∷ 0 ∷ 0 ∷ 0 ∷ 0 ∷ 0 ∷ 0 ∷ 0 ∷ 0 ∷ 0
    ∷ 0 ∷ 0 ∷ 0 ∷ 0 ∷ 0 ∷ 0 ∷ 0 ∷ 0 ∷ []

-- The arguments of `create`.
pub record PackagePlan : Type 0 where
  pub name : String
  pub image_path : String
  pub model_path : String
  pub config_path : String
  pub description : String
  pub author : String
  pub gpu_required : Bool
  pub gpu_driver : String
  pub memory_mb : ℕ
  pub cpu_cores : ℕ
  pub tags : List String

pub record PackageEngine : Type 0 where
  pub packages : Dict PackageManifest

-- The comparison of the checksums, of a manifest that was parsed.
abbrev pub compare_checksum : Bytes → Bytes → Outcome ManifestDict → Verified
compare_checksum expected actual (ok manifest) =
    if codes_eq expected actual then valid (info_of manifest) else invalid "Checksum mismatch"
compare_checksum expected actual (err e) = invalid e.message

-- What the engine calls: SHA-256, JSON and tar, and the file system as it stands.
pub record Tools : Type 0 where
  pub sha256 : Bytes → Bytes
  pub dumps : PackageManifest → Bytes
  pub loads : Bytes → Outcome ManifestDict
  -- a gzipped tar with the file of a path in it
  pub tar : String → Bytes
  pub exists : String → Bool
  pub hash_file : String → String
  pub getsize : String → ℕ
  pub hexdigest : Bytes → String
  pub utcnow : String

module _ (tools : Tools) where
  open tools use {sha256, dumps, loads, tar, exists, hash_file, getsize}

  -- `src and os.path.exists(src)`
  abbrev pub is_there : String → Bool
  is_there path = is_nonempty path && exists path

  unfoldable pub tars : List String → Bytes
  tars [] = []
  tars (src ∷ sources) = let rest = tars sources in if is_there src then tar src ++ rest else rest

  -- The writes of `_build_lva`: the checksum goes over its placeholder.
  abbrev pub written : Bytes → Outcome Bytes → Outcome Bytes
  written body (ok manifest_len) =
      let first =
        (lva_magic ++ pack_u16 lva_version ++ pack_u16 0 ++ manifest_len) ++ placeholder ++ body in
      ok (write_at 12 (sha256 (drop header_size first)) first)
  written body (err e) = err e

  -- The file that `_build_lva` leaves.
  unfoldable pub build_lva : PackageManifest → List String → Outcome Bytes
  unfolding pack_u32 tars
  build_lva manifest source_files =
      let manifest_json = dumps manifest in
      written (manifest_json ++ tars source_files) (pack_u32 (length manifest_json))

  -- The checks after the length of the manifest was read.
  abbrev pub verify_body : Bytes → Bytes → Outcome ℕ → Verified
  verify_body header body (ok manifest_len) =
      let manifest_data = take manifest_len body in
      let content = drop manifest_len body in
      compare_checksum (slice 12 44 header) (sha256 (manifest_data ++ content))
        (loads manifest_data)
  verify_body header body (err e) = invalid e.message

  -- `verify`, on a file that can be read
  unfoldable pub verify : Bytes → Verified
  unfolding unpack_u32
  verify file =
      let header = take header_size file in
      if codes_eq (slice 0 4 header) lva_magic
      then verify_body header (drop header_size file) (unpack_u32 (slice 8 12 header))
      else invalid "Invalid magic bytes"

  -- One layer of `create`, if its file is there.
  abbrev pub layer_for : String → String → String → String → List PackageLayer
  layer_for source name layer_type path =
      if is_there source
      then record {
        name = name;
        layer_type = layer_type;
        path = path;
        size_mb = getsize source / (1024 * 1024);
        sha256 = hash_file source;
        compressed = false;
      }
        ∷ []
      else []

  unfoldable pub layers_for : String → String → String → List PackageLayer
  layers_for image_path model_path config_path =
      layer_for image_path "base_image" "vhdx" "layers/base_image.vhdx"
      ++ layer_for model_path "model" "model" "layers/model.bin"
      ++ layer_for config_path "config" "config" "layers/config.json"

  abbrev pub manifest_for : PackagePlan → PackageManifest
  manifest_for plan =
      let layers = layers_for plan.image_path plan.model_path plan.config_path in
      record {
        name = plan.name;
        version = "1.0.0";
        description = plan.description;
        author = plan.author;
        created_at = tools.utcnow;
        base_image = "";
        gpu_driver = plan.gpu_driver;
        gpu_required = plan.gpu_required;
        memory_mb = plan.memory_mb;
        cpu_cores = plan.cpu_cores;
        disk_gb = 100;
        layers = layers;
        total_size_mb = sum_of (λ layer. layer.size_mb) layers;
        sha256 = "";
        tags = plan.tags;
        min_host_memory_mb = 4096;
        min_host_cpu_cores = 2;
        platform = "windows-x64";
      }

  -- The end of `create`: the hash of the package goes into the manifest that the engine keeps.
  abbrev pub keep_package :
      PackagePlan → PackageManifest → PackageEngine → Outcome Bytes → Outcome Bytes × PackageEngine
  keep_package plan manifest engine (ok file) =
      let signed = record manifest { sha256 = tools.hexdigest (sha256 file) } in
      (ok file, record engine { packages = insert plan.name signed engine.packages })
  keep_package plan manifest engine (err e) = (err e, engine)

  -- `create`: the bytes of the package, and the engine that knows its manifest
  unfoldable pub create : PackagePlan → PackageEngine → Outcome Bytes × PackageEngine
  unfolding layers_for build_lva
  create plan engine =
      let manifest = manifest_for plan in
      keep_package plan manifest engine
        (build_lva manifest (plan.image_path ∷ plan.model_path ∷ plan.config_path ∷ []))

  unfoldable pub export_manifest : Bytes → Option PackageInfo
  unfolding verify
  export_manifest file = elim (verify file) [ valid info ↦ some info | invalid e ↦ none ]

abbrev pub list_packages : PackageEngine → List PackageManifest
list_packages engine = values engine.packages
