-- ===== src/Experiments/Bucket/Published.antt =====
-- What is in the bucket of Experiments/Bucket after a deployment.
use Prim.Native.String.{◌++◌ as append}
use text.Mathlib.TextEquality.{eq_iff}
use text.Mathlib.TextLemmas.{append_cancel_left}
use mathlib.Core.Path.{subst}
use beeflow.Prelude.{
  ◌≡◌, refl, sym, ap, ◌∙◌, ◌⊎◌, true, false, Option, none, some, List, [], ◌∷◌, String,
  if◌then◌else◌, ◌==◌, string_eq, lookup, insert, lookup-insert, contains, inl, inr, Bool-cases,
  arith,
}
use beeflow.Prelude.Result.{Result, ok, err, ok_inj, Result-cases}
use beeflow.Experiments.Managers.{Error}
use beeflow.Experiments.Bucket.{
  Bucket, FileSystem, is_under, clear_dags, s3_key, upload_files, return_files, publish_listed,
  publish_dags,
}

s3_key_inj : (path : Option String) (f g : String) → s3_key path f ≡ s3_key path g → f ≡ g
s3_key_inj none f g h = h
s3_key_inj (some path) f g h =
    append_cancel_left "/" f g (append_cancel_left path (append "/" f) (append "/" g) h)

clear_dags-under :
    (path : Option String) (key : String) (bucket : Bucket)
    → lookup key (clear_dags path bucket) ≡ (if is_under path key then none else lookup key bucket)
unfolding clear_dags lookup
clear_dags-under path key [] = ground arith
clear_dags-under path key ((k, v) ∷ bucket) = elim (Bool-cases (k == key)) [
  | inl own ↦
      let same : is_under path k ≡ is_under path key = ap (is_under path) ((eq_iff k key).0 own) in
      ground (arith, same, own, clear_dags-under path key bucket)
  | inr other ↦ ground (arith, other, clear_dags-under path key bucket)
]

module _ (fs : FileSystem) (path : Option String) (dags_path : String) where
  abbrev uploaded : String → Result Error String
  uploaded file = fs.upload_file (fs.join dags_path file) (s3_key path file)

  -- The loop ends with this bucket, and has raised nothing.
  abbrev Uploads : List String → Bucket → Bucket → Type 0
  Uploads files bucket after = upload_files fs path dags_path files bucket ≡ (ok tt, after)

  first_upload :
      (f : String) (files : List String) (bucket after : Bucket)
      → Uploads (f ∷ files) bucket after
      → (content : String) × (uploaded f ≡ ok content)
        × Uploads files (insert (s3_key path f) content bucket) after
  unfolding upload_files
  first_upload f files bucket after h = elim (Result-cases (uploaded f)) [
    | inl (content, stored) ↦
        let step : upload_files fs path dags_path (f ∷ files) bucket
            ≡ upload_files fs path dags_path files (insert (s3_key path f) content bucket) =
          rw (upload_files, stored) refl in
        (content, stored, sym step ∙ h)
    | inr (e, raised) ↦
        let step : upload_files fs path dags_path (f ∷ files) bucket ≡ (err e, bucket) =
          rw (upload_files, raised) refl in
        cc
  ]

  upload_files-kept :
      (files : List String) (g content : String) (bucket after : Bucket)
      → uploaded g ≡ ok content
      → lookup (s3_key path g) bucket ≡ some content
      → Uploads files bucket after
      → lookup (s3_key path g) after ≡ some content
  unfolding upload_files
  upload_files-kept [] g content bucket after stored h ran =
      ap (λ r. lookup (s3_key path g) r.1) (sym ran) ∙ h
  upload_files-kept (f ∷ files) g content bucket after stored h ran =
      let (first, its_first, rest) = first_upload f files bucket after ran in
      let key = s3_key path f in
      upload_files-kept files g content (insert key first bucket) after stored
        (lookup-insert key (s3_key path g) first bucket ∙ elim (Bool-cases (key == s3_key path g)) [
          | inl own ↦
              let same : f ≡ g = s3_key_inj path f g ((eq_iff key (s3_key path g)).0 own) in
              rw own (ap (λ x. some x) (ok_inj (sym its_first ∙ ap uploaded same ∙ stored)))
          | inr other ↦ rw other h
        ])
        rest

  upload_files-there :
      (files : List String) (g : String) (bucket after : Bucket)
      → contains g files ≡ true
      → Uploads files bucket after
      → (content : String) × (uploaded g ≡ ok content)
        × (lookup (s3_key path g) after ≡ some content)
  unfolding upload_files contains
  upload_files-there [] g bucket after h ran = cc
  upload_files-there (f ∷ files) g bucket after h ran =
      let (first, its_first, rest) = first_upload f files bucket after ran in
      elim (Bool-cases (f == g)) [
        | inl own ↦
            let same : f ≡ g = (eq_iff f g).0 own in
            let key : (s3_key path f == s3_key path g) ≡ true =
              (eq_iff (s3_key path f) (s3_key path g)).1 (ap (s3_key path) same) in
            let stored = sym (ap uploaded same) ∙ its_first in
            (
              first,
              stored,
              upload_files-kept files g first (insert (s3_key path f) first bucket) after stored
                  (lookup-insert (s3_key path f) (s3_key path g) first bucket ∙ rw key refl) rest,
            )
        | inr other ↦
            upload_files-there files g (insert (s3_key path f) first bucket) after
              (ground (arith, other, h)) rest
      ]

  -- A key is that of a file, or has what it had.
  upload_files-cases :
      (files : List String) (key : String) (bucket after : Bucket)
      → Uploads files bucket after
      → (lookup key after ≡ lookup key bucket)
        ⊎ ((f : String) × (contains f files ≡ true) × (key ≡ s3_key path f))
  unfolding upload_files contains
  upload_files-cases [] key bucket after ran = inl (ap (λ r. lookup key r.1) (sym ran))
  upload_files-cases (f ∷ files) key bucket after ran =
      let (first, its_first, rest) = first_upload f files bucket after ran in
      elim (Bool-cases (s3_key path f == key)) [
        | inl own ↦ inr (f, rw ((eq_iff f f).1 refl) refl, sym ((eq_iff (s3_key path f) key).0 own))
        | inr away ↦
            elim (upload_files-cases files key (insert (s3_key path f) first bucket) after rest) [
              | inl same ↦
                  inl (same ∙ lookup-insert (s3_key path f) key first bucket ∙ rw away refl)
              | inr (g, listed, its_key) ↦ inr (g, ground (arith, listed), its_key)
            ]
      ]

  return_files-ok :
      (files names : List String) (r : Result Error (Unit {0}) × Bucket) (after : Bucket)
      → return_files names r ≡ (ok files, after)
      → (names ≡ files) × (r ≡ (ok tt, after))
  unfolding return_files
  return_files-ok files names (ok _, bucket) after h =
      (ok_inj (ap (λ p. p.0) h), ap (λ p. (ok tt, p.1)) h)
  return_files-ok files names (err e, bucket) after h = cc

  publish_dags-Uploads :
      (files : List String) (bucket after : Bucket)
      → publish_dags fs path dags_path bucket ≡ (ok files, after)
      → Uploads files bucket after
  unfolding publish_dags publish_listed
  publish_dags-Uploads files bucket after h = elim (Bool-cases (fs.isdir dags_path)) [
    | inr missing ↦ cc (rw missing at h)
    | inl there ↦ elim (Result-cases (fs.listdir dags_path)) [
      | inr (e, raised) ↦ cc (rw (there, raised) at h)
      | inl (names, listed) ↦
          let (same, ran) = return_files-ok files _ _ after (rw (there, listed) at h) in
          subst (λ fs. Uploads fs bucket after) same ran
    ]
  ]

-- What a key has after the DAGs were published: outside the prefix what it had before the bucket was
-- cleared, and under it nothing, unless it is that of a published file.
abbrev pub Holds : Option String → List String → Bucket → Bucket → String → Type 0
Holds path files bucket after key =
    ((is_under path key ≡ false) × (lookup key after ≡ lookup key bucket))
    ⊎ ((is_under path key ≡ true) × (lookup key after ≡ none))
    ⊎ ((f : String) × (contains f files ≡ true) × (key ≡ s3_key path f))

-- When the DAGs of a directory have been published after the bucket was cleared, every file that
-- `publish_dags` returns is in the bucket with what was uploaded for it. Any key is that of such a file,
-- or is under the prefix and gone, or is outside the prefix and has what it had before the bucket was
-- cleared.
pub publish_dags-clear_dags :
    (fs : FileSystem) (path : Option String) (dags_path : String) (bucket after : Bucket)
    (files : List String) (file key : String)
    → publish_dags fs path dags_path (clear_dags path bucket) ≡ (ok files, after)
    → contains file files ≡ true
    → ((content : String) × (fs.upload_file (fs.join dags_path file) (s3_key path file)
          ≡ ok content)
        × (lookup (s3_key path file) after ≡ some content))
      × Holds path files bucket after key
publish_dags-clear_dags fs path dags_path bucket after files file key h listed =
    let ran = publish_dags-Uploads fs path dags_path files (clear_dags path bucket) after h in
    let cleared = clear_dags-under path key bucket in
    (
      upload_files-there fs path dags_path files file (clear_dags path bucket) after listed ran,
      elim (upload_files-cases fs path dags_path files key (clear_dags path bucket) after ran) [
        | inr published ↦ inr (inr published)
        | inl same ↦ elim (Bool-cases (is_under path key)) [
          | inl under ↦ inr (inl (under, same ∙ cleared ∙ rw under refl))
          | inr outside ↦ inl (outside, same ∙ cleared ∙ rw outside refl)
        ]
      ],
    )
