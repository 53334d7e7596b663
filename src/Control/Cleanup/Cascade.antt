-- ===== src/Control/Cleanup/Cascade.antt =====
-- What the deletion of a model file and the cleanup of a preset leave in models.ini.
use llamarig.Common.{
  ◌≡◌, refl, ◌∙◌, ap, inl, inr, Bool, false, Option, none, List, [], ◌∷◌, if◌then◌else◌, Bool-cases,
  any, arith,
}
use llamarig.FileDoc.{WriteFault}
use llamarig.Common.Text.{Text, codes, ◌=ₜ◌, =ₜ_iff}
use llamarig.Common.Results.{ok, err, Result-cases}
use llamarig.ConfigStore.Edits.{remove_preset_reference_nodes}
use llamarig.ConfigStore.Store.{mutate_document}
use llamarig.ModelPresets.{Section, not_found}
use llamarig.ModelPresets.Source.{References, find_references}
use llamarig.ModelPresets.Store.{File, delete, get, list}
use llamarig.ModelPresets.Deleted.{delete_removes}
use llamarig.Control.{RuntimeFailure, conflict, core_error}
use llamarig.Control.Cleanup.{
  Stores, Services, delete_each, remove_preset_references, remove_referenced_presets,
  validate_model_cascade, delete_local_model,
}

abbrev pub among : Text → List Text → Bool
among k names = any (λ n. n =ₜ k) names

deleted_one :
    (n k : Text) (f g : File)
    → delete none n f ≡ (ok tt, g)
    → get k g ≡ (if n =ₜ k then err (not_found k) else get k f)
deleted_one n k f g h =
    let (gone, others) = delete_removes n f g h in
    elim (Bool-cases (n =ₜ k)) [
      | inr other ↦ rw other (others k other)
      | inl same ↦ let n_is : n ≡ k = (=ₜ_iff n k).0 same in rw same (rw n_is at gone)
    ]

-- Deletions that all succeed take out exactly their names.
delete_each-get :
    (names : List Text) (k : Text) (f : File)
    → (delete_each none names f).0 ≡ ok tt
    → get k (delete_each none names f).1 ≡ (if among k names then err (not_found k) else get k f)
unfolding delete_each
delete_each-get [] k f h = refl
delete_each-get (n ∷ names) k f h = elim (Result-cases (delete none n f).0) [
  | inr (e, failed) ↦ cc (rw (delete_each, failed) at h)
  | inl (u, done) ↦
      let f1 : File = (delete none n f).1 in
      let one = deleted_one n k f f1 (ap (λ r. (r, f1)) done) in
      let later = delete_each-get names k f1 (rw (delete_each, done) at h) in
      rw (delete_each, done)
        (later ∙ (elim (Bool-cases (among k names)) [
          | inl again ↦ rw again (ground arith)
          | inr not_again ↦ rw not_again (one ∙ ground arith)
        ]))
]

module _ {W : Type 0} (services : Services W) where
  pub references-presets :
      (fault : Option WriteFault) (names : List Text) (s : Stores W)
      → (remove_preset_references services fault names s).1.presets ≡ s.presets
  unfolding remove_preset_references
  references-presets fault names s =
      elim (Result-cases
        (mutate_document services.yaml services.limit_bytes none fault
          (remove_preset_reference_nodes names) s.config).0) [
            | inl (b, edited) ↦ rw (remove_preset_references, edited)
            | inr (e, failed) ↦ rw (remove_preset_references, failed)
          ]

  referenced-get :
      (config_fault : Option WriteFault) (names : List Text) (k : Text) (s : Stores W)
      → (remove_referenced_presets services config_fault none names s).0 ≡ ok tt
      → get k (remove_referenced_presets services config_fault none names s).1.presets
        ≡ (if among k names then err (not_found k) else get k s.presets)
  unfolding remove_referenced_presets
  referenced-get config_fault [] k s h = refl
  referenced-get config_fault (n ∷ ns) k s h =
      elim (Result-cases (remove_preset_references services config_fault (n ∷ ns) s).0) [
        | inr (e, failed) ↦ cc (rw (remove_referenced_presets, failed) at h)
        | inl (u, removed) ↦
            let s1 : Stores W = (remove_preset_references services config_fault (n ∷ ns) s).1 in
            elim (Result-cases (delete_each none (n ∷ ns) s1.presets).0) [
              | inr (e, failed) ↦ cc (rw (remove_referenced_presets, removed, failed) at h)
              | inl (v, done) ↦
                  rw (remove_referenced_presets, removed, done)
                    (delete_each-get (n ∷ ns) k s1.presets done
                      ∙ ap (λ f. if among k (n ∷ ns) then err (not_found k) else get k f)
                          (references-presets config_fault (n ∷ ns) s))
            ]
      ]

  -- Where the file system does what it is asked and a local model is deleted with no error, exactly
  -- the presets that name its file are gone from models.ini: `Get` does not find them, and every
  -- other name gets the answer that it got before.
  pub model_takes_presets :
      (config_fault : Option WriteFault) (path : Text) (cascade : Bool) (s : Stores W)
      (sections : List Section)
      → list s.presets ≡ ok sections
      → (delete_local_model services config_fault none none path cascade s).0 ≡ ok tt
      → (k : Text)
      → get k (delete_local_model services config_fault none none path cascade s).1.presets ≡ (
          if among k (find_references services.paths sections path).model_paths
          then err (not_found k)
          else get k s.presets)
  unfolding delete_local_model
  model_takes_presets config_fault path cascade s sections listed h k =
      elim (Result-cases
        (validate_model_cascade services (find_references services.paths sections path) cascade
          s.world).0) [
            | inr (e, invalid_now) ↦ cc (rw (delete_local_model, listed, invalid_now) at h)
            | inl (u, valid) ↦
                rw (delete_local_model, listed, valid)
                  (referenced-get config_fault
                    (find_references services.paths sections path).model_paths k
                    (record s {
                      world =
                          (validate_model_cascade services
                            (find_references services.paths sections path) cascade s.world).1;
                    })
                    (rw (delete_local_model, listed, valid) at h))
          ]

  not_confirmed :
      (refs : References) (n : Text) (ns : List Text) (w : W)
      → refs.model_paths ≡ n ∷ ns
      → validate_model_cascade services refs false w
        ≡ (err (core_error conflict (codes "model is referenced by Presets")), w)
  unfolding validate_model_cascade
  not_confirmed refs n ns w named = rw (validate_model_cascade, named, named)

  -- Without `cascade`, a model whose file a preset names is not deleted, whatever the file system
  -- answers: the answer is an error, and models.ini, config.yaml and the Router are as they were.
  pub referenced_model_stays :
      (config_fault fault : Option WriteFault) (deleted : Option RuntimeFailure) (path n : Text)
      (ns : List Text) (s : Stores W) (sections : List Section)
      → list s.presets ≡ ok sections
      → (find_references services.paths sections path).model_paths ≡ n ∷ ns
      → delete_local_model services config_fault fault deleted path false s
        ≡ (err (core_error conflict (codes "model is referenced by Presets")), s)
  unfolding delete_local_model
  referenced_model_stays config_fault fault deleted path n ns s sections listed named = rw (
    delete_local_model,
    listed,
    not_confirmed (find_references services.paths sections path) n ns s.world named,
    not_confirmed (find_references services.paths sections path) n ns s.world named,
  )
