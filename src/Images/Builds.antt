-- ===== src/Images/Builds.antt =====
-- What becomes of the images of lumenos_sandbox/image_builder.py.
use lumenos_hiper_v.Prelude.{
  ℕ, Bool, true, false, String, Option, none, some, List, [], ◌∷◌, ◌≡◌, ◌≢◌, ◌⊎◌, inl, inr, refl,
  arith, All, All-insert, All-lookup, Option-cases, Bool-cases, not, ◌||◌, ◌&&◌, is_some,
  is_nonempty, ap, sym, ◌∙◌, All-erase, values, insert, lookup, Outcome, ok, err,
}
use lumenos_hiper_v.Images.{
  building, ready, failed, VmImage, Images, Tools, create, build, delete_image, add_model,
  add_custom_layer, finished, size_of, apply_layers, create_base_vhdx, created, new_image,
  framework_images, removed, delete_known,
}

module _ {W : Type 0} (tools : Tools W) where
  -- How a build ends.
  abbrev pub Built : VmImage → Bool × (VmImage × W) → Type 0
  Built image (r, (after, w)) =
      (((r ≡ true) × (after.status ≡ ready) × (after.output_image ≡ tools.vhdx_path image.name))
        ⊎ ((r ≡ false) × (after.status ≡ failed)))
      × (after.name ≡ image.name)
      × (after.layers ≡ image.layers)

  finished-Built :
      (image : VmImage) (o : Outcome (Option ℕ)) (w : W)
      → let (r, after) = finished tools image (tools.vhdx_path image.name) o w in
        Built image (r, (after, w))
  finished-Built image (err e) w = (inr (refl, refl), refl, refl)
  finished-Built image (ok none) w = (inl (refl, refl, refl), refl, refl)
  finished-Built image (ok (some size)) w = (inl (refl, refl, refl), refl, refl)

  -- A build ends: the image is READY, under the path of its name, if it returned True, and FAILED if it
  -- returned False; its name and its layers are as before.
  pub build_outcome : (image : VmImage) (w : W) → Built image (build tools image w)
  unfolding build
  build_outcome image w =
      let output = tools.vhdx_path image.name in
      let (made, w') = create_base_vhdx tools output w in
      elim (Bool-cases
        (not made || not (apply_layers tools output image.layers image.gpu_driver))) [
          | inl e ↦ rw e (inr (refl, refl), refl, refl)
          | inr e ↦
              rw e
                (finished-Built (record image { status = building }) (size_of tools output w') w')
        ]

  -- An image between calls is not being built, and a READY one has its output under its name.
  abbrev pub Settled : VmImage → Type 0
  Settled image =
      (image.status ≢ building)
      × (image.status ≡ ready → image.output_image ≡ tools.vhdx_path image.name)

  pub data Call : Type 0 where
    to_create : String → String → String → String → Call
    to_add_model : String → String → String → Call
    to_add_custom_layer : String → String → List String → Call
    to_build : String → Call
    to_delete : String → Call

  -- A method on the image that the builder has under a name.
  abbrev on_image : String → (VmImage → VmImage × W) → Option VmImage → Images × W → Images × W
  on_image name f none s = s
  on_image name f (some image) (images, w) =
      let (image', w') = f image in (insert name image' images, w')

  abbrev or_same : VmImage → Outcome VmImage → VmImage
  or_same image (ok image') = image'
  or_same image (err e) = image

  pub after_call : Call → Images × W → Images × W
  after_call (to_create name framework_name gpu_driver version) (images, w) =
      ((create name framework_name gpu_driver version images).1, w)
  after_call (to_add_model name model_name path) (images, w) =
      on_image name (λ i. (or_same i (add_model tools i model_name path w), w)) (lookup name images)
        (images, w)
  after_call (to_add_custom_layer name layer files) (images, w) =
      on_image name (λ i. (add_custom_layer tools i layer files w, w)) (lookup name images)
        (images, w)
  after_call (to_build name) (images, w) =
      on_image name (λ i. (build tools i w).1) (lookup name images) (images, w)
  after_call (to_delete name) s = (delete_image tools name s).1

  pub after_calls : List Call → Images × W → Images × W
  unfolding after_call
  after_calls [] s = s
  after_calls (c ∷ cs) s = after_calls cs (after_call c s)

  abbrev AllSettled : Images → Type 0
  AllSettled images = All Settled (values images)

  build-Settled : (image : VmImage) (w : W) → Settled (build tools image w).1.0
  build-Settled image w =
      let b = build_outcome image w in
      elim b.0 [
        | inl p ↦ ((λ e. ground (arith, p.1, e)), (λ e. p.2 ∙ ap tools.vhdx_path (sym b.1)))
        | inr p ↦ ((λ e. ground (arith, p.1, e)), (λ e. ground (arith, p.1, e)))
      ]

  add_model-Settled :
      (image : VmImage) (model_name path : String) (w : W)
      → Settled image
      → Settled (or_same image (add_model tools image model_name path w))
  unfolding add_model
  add_model-Settled image model_name path w h = ground (arith, h)

  on_image-Settled :
      (name : String) (f : VmImage → VmImage × W) (images : Images) (w : W)
      → ((image : VmImage) → Settled image → Settled (f image).0)
      → AllSettled images
      → AllSettled (on_image name f (lookup name images) (images, w)).0
  on_image-Settled name f images w step h = elim (Option-cases (lookup name images)) [
    | inl e ↦ rw e h
    | inr (image, e) ↦ rw e (
        All-insert Settled name (f image).0 images
          (step image (All-lookup Settled name image images h e)) h)
  ]

  created-Settled :
      (name framework_name gpu_driver version : String) (o : Option (List String)) (images : Images)
      → AllSettled images
      → AllSettled (created name framework_name gpu_driver version o images).1
  created-Settled name framework_name gpu_driver version none images h = h
  created-Settled name framework_name gpu_driver version (some layers) images h =
      All-insert Settled name (new_image name gpu_driver version layers) images
        ((λ e. cc), (λ e. cc)) h

  create-Settled :
      (name framework_name gpu_driver version : String) (images : Images)
      → AllSettled images
      → AllSettled (create name framework_name gpu_driver version images).1
  unfolding create
  create-Settled name framework_name gpu_driver version images h =
      elim (Bool-cases (is_some (lookup name images))) [
        | inl e ↦ rw e h
        | inr e ↦ rw e (
            created-Settled name framework_name gpu_driver version
              (lookup framework_name framework_images) images h)
      ]

  removed-Settled :
      (name : String) (r : Outcome (Unit {0}) × W) (images : Images)
      → AllSettled images
      → AllSettled (removed tools name r images).1.0
  removed-Settled name (ok u, w) images h = All-erase Settled name images h
  removed-Settled name (err e, w) images h = h

  delete_known-Settled :
      (name : String) (o : Option VmImage) (images : Images) (w : W)
      → AllSettled images
      → AllSettled (delete_known tools name o (images, w)).1.0
  delete_known-Settled name none images w h = h
  delete_known-Settled name (some image) images w h =
      elim (Bool-cases (is_nonempty image.output_image && tools.exists image.output_image w)) [
        | inl e ↦ rw e (removed-Settled name (tools.remove image.output_image w) images h)
        | inr e ↦ rw e (All-erase Settled name images h)
      ]

  delete-Settled :
      (name : String) (images : Images) (w : W)
      → AllSettled images
      → AllSettled (delete_image tools name (images, w)).1.0
  unfolding delete_image
  delete-Settled name images w h = delete_known-Settled name (lookup name images) images w h

  after_call-Settled : (c : Call) (s : Images × W) → AllSettled s.0 → AllSettled (after_call c s).0
  unfolding after_call add_custom_layer
  after_call-Settled (to_create name framework_name gpu_driver version) (images, w) h =
      create-Settled name framework_name gpu_driver version images h
  after_call-Settled (to_add_model name model_name path) (images, w) h =
      on_image-Settled name (λ i. (or_same i (add_model tools i model_name path w), w)) images w
        (λ i k. add_model-Settled i model_name path w k) h
  after_call-Settled (to_add_custom_layer name layer files) (images, w) h =
      on_image-Settled name (λ i. (add_custom_layer tools i layer files w, w)) images w (λ i k. k) h
  after_call-Settled (to_build name) (images, w) h =
      on_image-Settled name (λ i. (build tools i w).1) images w (λ i k. build-Settled i w) h
  after_call-Settled (to_delete name) (images, w) h = delete-Settled name images w h

  -- After any calls on a builder that has no images, or only settled ones, however PowerShell and the
  -- files answered and whatever calls failed, no image is left as being built, and every image that is
  -- READY has the output of its name.
  pub after_calls-AllSettled :
      (cs : List Call) (s : Images × W)
      → All Settled (values s.0)
      → All Settled (values (after_calls cs s).0)
  unfolding after_calls
  after_calls-AllSettled [] s h = h
  after_calls-AllSettled (c ∷ cs) s h =
      after_calls-AllSettled cs (after_call c s) (after_call-Settled c s h)
