-- ===== src/Images.antt =====
-- `ImageBuilder` of lumenos_sandbox/image_builder.py. An image that a caller holds is the object that the
-- builder keeps under its name. PowerShell and the file system are arguments; what a call reads of the
-- file system is one answer for the whole call.
pub mod Builds
use lumenos_hiper_v.Prelude.{
  ℕ, ◌+◌, ◌*◌, ◌/◌, ◌==◌, Bool, true, false, not, ◌&&◌, ◌||◌, String, Option, none, some, List, [],
  ◌∷◌, ◌++◌, map, is_some, is_nonempty, format, Dict, lookup, insert, erase, values, Exc,
  value_error, file_not_found, Outcome, ok, err, sum_of, keep_if, if◌then◌else◌,
}

pub data ImageType : Type 0 where
  base framework model custom : ImageType

pub data ImageStatus : Type 0 where
  pending building ready failed : ImageStatus

pub record ImageLayer : Type 0 where
  pub name : String
  pub layer_type : String
  pub size_mb : ℕ
  pub sha256 : String

pub record VmImage : Type 0 where
  pub name : String
  pub version : String
  pub image_type : ImageType
  pub status : ImageStatus
  pub layers : List ImageLayer
  pub output_image : String
  pub gpu_enabled : Bool
  pub gpu_driver : String
  pub size_mb : ℕ
  pub sha256 : String

-- The layers of FRAMEWORK_IMAGES, by the name of the framework.
abbrev pub framework_images : Dict (List String)
framework_images =
    ("pytorch", "python-3.11" ∷ "pytorch-2.1" ∷ "cuda-12.1" ∷ [])
    ∷ ("tensorflow", "python-3.11" ∷ "tensorflow-2.15" ∷ "cuda-12.2" ∷ [])
    ∷ ("onnxruntime", "python-3.11" ∷ "onnxruntime-1.16" ∷ [])
    ∷ ("llamacpp", "cmake" ∷ "gcc" ∷ "llamacpp-latest" ∷ [])
    ∷ []

abbrev pub new_layer : String → String → ℕ → String → ImageLayer
new_layer name layer_type size_mb sha256 = record {
  name = name;
  layer_type = layer_type;
  size_mb = size_mb;
  sha256 = sha256;
}

abbrev pub new_image : String → String → String → List String → VmImage
new_image name gpu_driver version layer_names = record {
  name = name;
  version = version;
  image_type = framework;
  status = pending;
  layers = map (λ layer_name. new_layer layer_name "framework" 0 "") layer_names;
  output_image = "";
  gpu_enabled = is_nonempty gpu_driver;
  gpu_driver = gpu_driver;
  size_mb = 0;
  sha256 = "";
}

abbrev pub Images : Type 0
Images = Dict VmImage

abbrev pub created :
    String → String → String → String → Option (List String) → Images → Outcome VmImage × Images
created name framework_name gpu_driver version none images = (
  err (record {
    kind = value_error;
    message = format ("Unknown framework: " ∷ framework_name ∷ []);
  }),
  images,
)
created name framework_name gpu_driver version (some layer_names) images =
    let image = new_image name gpu_driver version layer_names in
    (ok image, insert name image images)

-- name, framework, gpu_driver, version
unfoldable pub create : String → String → String → String → Images → Outcome VmImage × Images
create name framework_name gpu_driver version images =
    if is_some (lookup name images)
    then (
      err (record {
        kind = value_error;
        message = format ("Image " ∷ name ∷ " already exists" ∷ []);
      }),
      images,
    )
    else created name framework_name gpu_driver version (lookup framework_name framework_images)
        images

pub record Tools (W : Type 0) : Type 0 where
  -- the return code of a script that PowerShell ran, within a time limit
  pub powershell : String → ℕ → W → Outcome ℕ × W
  pub exists : String → W → Bool
  -- `os.path.getsize(path)`, and `path.stat().st_size`
  pub getsize : String → W → Outcome ℕ
  -- `_hash_file`, which hashes what it could read
  pub hash_file : String → W → String
  -- `os.remove(path)`
  pub remove : String → W → Outcome (Unit {0}) × W
  pub str : ℕ → String
  -- `str(self._image_dir / f"{image.name}.vhdx")`
  pub vhdx_path : String → String

abbrev pub add_layer : ImageLayer → VmImage → VmImage
add_layer layer image = record image { layers = image.layers ++ layer ∷ [] }

abbrev pub size_or_zero : Outcome ℕ → ℕ
size_or_zero (ok size) = size
size_or_zero (err e) = 0

module _ {W : Type 0} (tools : Tools W) where
  open tools use {powershell, exists, getsize, hash_file, remove, str, vhdx_path}

  abbrev pub with_model : String → String → Outcome ℕ → VmImage → W → Outcome VmImage
  with_model model_name sha256 (ok size) image w =
      ok (add_layer (new_layer model_name "model" (size / (1024 * 1024)) sha256) image)
  with_model model_name sha256 (err e) image w = err e

  unfoldable pub add_model : VmImage → String → String → W → Outcome VmImage
  add_model image model_name model_path w =
      if not (exists model_path w)
      then err (record {
        kind = file_not_found;
        message = format ("Model not found: " ∷ model_path ∷ []);
      })
      else with_model model_name (hash_file model_path w) (getsize model_path w) image w

  -- `add_custom_layer`; a file that is there has a size
  unfoldable pub add_custom_layer : VmImage → String → List String → W → VmImage
  add_custom_layer image name files w =
      let total = sum_of (λ f. size_or_zero (getsize f w)) (keep_if (λ f. exists f w) files) in
      add_layer (new_layer name "custom" (total / (1024 * 1024)) "") image

  abbrev pub ended_well : Outcome ℕ → Bool
  ended_well (ok returncode) = returncode == 0
  ended_well (err e) = false

  unfoldable pub create_base_vhdx : String → W → Bool × W
  create_base_vhdx path w =
      let (r, w') =
        powershell (format ("New-VHD -Path \"" ∷ path ∷ "\" -SizeBytes 100GB -Dynamic" ∷ [])) 30
          w in
      (ended_well r, w')

  -- `_apply_layer`
  abbrev pub apply_layer : String → ImageLayer → String → Bool
  apply_layer vhdx_path layer gpu_driver = true

  unfoldable pub apply_layers : String → List ImageLayer → String → Bool
  apply_layers path [] gpu_driver = true
  apply_layers path (layer ∷ layers) gpu_driver =
      let rest = apply_layers path layers gpu_driver in
      if not (apply_layer path layer gpu_driver) then false else rest

  -- The last step of `build`, on the size of the output, none where it is not there.
  abbrev pub finished : VmImage → String → Outcome (Option ℕ) → W → Bool × VmImage
  finished image output (err e) w = (false, record image { output_image = output; status = failed })
  finished image output (ok none) w =
      (true, record image { output_image = output; size_mb = 0; sha256 = ""; status = ready })
  finished image output (ok (some size)) w = (
    true,
    record image {
      output_image = output;
      size_mb = size / (1024 * 1024);
      sha256 = hash_file output w;
      status = ready;
    },
  )

  abbrev pub known_size : Outcome ℕ → Outcome (Option ℕ)
  known_size (ok size) = ok (some size)
  known_size (err e) = err e

  abbrev pub size_of : String → W → Outcome (Option ℕ)
  size_of output w = if exists output w then known_size (getsize output w) else ok none

  unfoldable pub build : VmImage → W → Bool × (VmImage × W)
  unfolding create_base_vhdx apply_layers
  build image w =
      let started = record image { status = building } in
      let output = vhdx_path started.name in
      let (made, w') = create_base_vhdx output w in
      if not made || not (apply_layers output started.layers started.gpu_driver)
      then (false, (record started { status = failed }, w'))
      else (let (built, image') = finished started output (size_of output w') w' in
          (built, (image', w')))

  abbrev pub is_ready : ImageStatus → Bool
  is_ready ready = true
  is_ready _ = false

  abbrev pub deploy_script : VmImage → String → ℕ → ℕ → String
  deploy_script image vm_name memory_mb cpu_cores = format (
      "\n                New-VM -Name \""
      ∷ vm_name
      ∷ "\" `\n                    -MemoryStartupBytes "
      ∷ str (memory_mb * 1024 * 1024)
      ∷ " `\n                    -Generation 2 `\n                    -NewVHDPath \""
      ∷ image.output_image
      ∷ "\" `\n                    -NewVHDSizeBytes 100GB `\n                    -SwitchName \"InternalSwitch\"\n                Set-VM -Name \""
      ∷ vm_name
      ∷ "\" `\n                    -ProcessorCount "
      ∷ str cpu_cores
      ∷ " `\n                    -DynamicMemory `\n                    -MemoryMinimumBytes "
      ∷ str (memory_mb * 512 * 1024)
      ∷ " `\n                    -MemoryMaximumBytes "
      ∷ str (memory_mb * 2 * 1024 * 1024)
      ∷ "\n                "
      ∷ [])

  unfoldable pub deploy : VmImage → String → ℕ → ℕ → W → Bool × W
  deploy image vm_name memory_mb cpu_cores w =
      if not (is_ready image.status)
      then (false, w)
      else (let (r, w') = powershell (deploy_script image vm_name memory_mb cpu_cores) 60 w in
          (ended_well r, w'))

  abbrev pub removed : String → Outcome (Unit {0}) × W → Images → Outcome Bool × (Images × W)
  removed name (ok u, w) images = (ok true, (erase name images, w))
  removed name (err e, w) images = (err e, (images, w))

  abbrev pub delete_known : String → Option VmImage → Images × W → Outcome Bool × (Images × W)
  delete_known name none (images, w) = (ok false, (images, w))
  delete_known name (some image) (images, w) =
      if is_nonempty image.output_image && exists image.output_image w
      then removed name (remove image.output_image w) images
      else (ok true, (erase name images, w))

  unfoldable pub delete_image : String → Images × W → Outcome Bool × (Images × W)
  delete_image name (images, w) = delete_known name (lookup name images) (images, w)

abbrev pub list_images : Images → List VmImage
list_images images = values images

abbrev pub get_image : String → Images → Option VmImage
get_image name images = lookup name images
