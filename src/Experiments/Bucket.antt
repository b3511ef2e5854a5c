-- ===== src/Experiments/Bucket.antt =====
-- experiments/internal/services/bucket_manager/bucket_manager.py (under src/python/beeflow).
pub mod Published
use Prim.Native.String.{◌++◌ as append}
use text.Mathlib.Text.{starts_with}
use beeflow.Prelude.{
  Bool, not, ◌&&◌, Option, none, some, List, [], ◌∷◌, String, if◌then◌else◌, string_eq, insert,
  contains, filter,
}
use beeflow.Prelude.Result.{Result, ok, err}
use beeflow.Experiments.Managers.{Error, value_error}

-- The objects of the bucket: keys and contents.
abbrev pub Bucket : Type 0
Bucket = List (String × String)

-- `os` and `os.path`, and `upload_file`: the content that it stores for a path and a key. It raises, and
-- `listdir` does.
pub record FileSystem : Type 0 where
  pub isdir : String → Bool
  pub isfile : String → Bool
  pub listdir : String → Result Error (List String)
  pub join : String → String → String
  pub upload_file : String → String → Result Error String

-- `objects.filter(Prefix=...)` of S3: whether the key begins with the prefix. Without one, all do.
abbrev pub is_under : Option String → String → Bool
is_under none key = Bool.true
is_under (some prefix) key = starts_with key prefix

-- `clear_dags`, of which the deletion raises nothing.
unfoldable pub clear_dags : Option String → Bucket → Bucket
clear_dags s3_dags_path bucket =
    filter (λ (o : String × String). not (is_under s3_dags_path o.0)) bucket

-- The key of a file.
abbrev pub s3_key : Option String → String → String
s3_key none file = file
s3_key (some path) file = append path (append "/" file)

-- `files`, for the names that `listdir` returns.
abbrev pub files_of : FileSystem → String → List String → List String
files_of fs dags_path names =
    filter (λ f. fs.isfile (fs.join dags_path f) && not (contains f ("BUILD" ∷ []))) names

-- The loop over the files, and the bucket when it ends.
unfoldable pub upload_files :
    FileSystem → Option String → String → List String → Bucket → Result Error (Unit {0}) × Bucket
upload_files fs s3_dags_path dags_path [] bucket = (ok tt, bucket)
upload_files fs s3_dags_path dags_path (file ∷ files) bucket =
    elim (fs.upload_file (fs.join dags_path file) (s3_key s3_dags_path file)) [
      | err e ↦ (err e, bucket)
      | ok content ↦
          upload_files fs s3_dags_path dags_path files
            (insert (s3_key s3_dags_path file) content bucket)
    ]

-- `return files`, after the loop.
unfoldable pub return_files :
    List String → Result Error (Unit {0}) × Bucket → Result Error (List String) × Bucket
return_files files (ok _, bucket) = (ok files, bucket)
return_files files (err e, bucket) = (err e, bucket)

-- The function after the call of `listdir`.
unfoldable pub publish_listed :
    FileSystem
    → Option String
    → String
    → Result Error (List String)
    → Bucket
    → Result Error (List String) × Bucket
unfolding upload_files return_files
publish_listed fs s3_dags_path dags_path (err e) bucket = (err e, bucket)
publish_listed fs s3_dags_path dags_path (ok names) bucket =
    let files = files_of fs dags_path names in
    return_files files (upload_files fs s3_dags_path dags_path files bucket)

-- `publish_dags`: the files or what it raises, and the bucket after it.
unfoldable pub publish_dags :
    FileSystem → Option String → String → Bucket → Result Error (List String) × Bucket
unfolding publish_listed
publish_dags fs s3_dags_path dags_path bucket =
    if not (fs.isdir dags_path)
    then (err value_error, bucket)
    else publish_listed fs s3_dags_path dags_path (fs.listdir dags_path) bucket
