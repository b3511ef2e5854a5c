-- ===== src/Services/Downloads.antt =====
-- packages/dags_downloader/dags_downloader.py (under src/python/beeflow).
use text.Mathlib.Text.{starts_with}
use beeflow.Prelude.{
  ℕ, zero, suc, ◌+◌, ◌≡◌, List, [], ◌∷◌, ◌++◌, String, if◌then◌else◌, length, arith,
}

-- `os.path`, and the folder of the settings.
record Paths : Type 0 where
  pub dags_folder : String
  -- the directory and the name of a key
  pub split : String → String × String
  pub join : String → String → String

-- `text[n:]`
unfoldable drop_chars : ℕ → String → String
drop_chars zero s = s
drop_chars (suc n) String.[] = String.[]
drop_chars (suc n) (String.◌∷◌ c s) = drop_chars n s

-- `local_path`, for the directory of a key.
unfoldable local_path : Paths → String → String
unfolding drop_chars
local_path p path =
    let joined = p.join p.dags_folder path in
    if starts_with joined "dags/" then drop_chars 5 joined else joined

-- The downloader: what it has made and downloaded, and its counter.
record DagsDownloader : Type 0 where
  pub directories : List String
  pub files : List (String × String)
  pub downloaded_dag_files : ℕ

-- The loop's body, for the key of an object.
unfoldable download_one : Paths → String → DagsDownloader → DagsDownloader
unfolding local_path
download_one p key d =
    let (path, filename) = p.split key in
    let directory = local_path p path in
    record {
      directories = d.directories ++ directory ∷ [];
      files = d.files ++ (key, p.join directory filename) ∷ [];
      downloaded_dag_files = d.downloaded_dag_files + 1;
    }

-- `download_dags`, for the keys of the objects of the bucket.
unfoldable download_dags : Paths → List String → DagsDownloader → DagsDownloader
unfolding download_one
download_dags p [] d = d
download_dags p (key ∷ keys) d = download_dags p keys (download_one p key d)

-- The counter goes up by one for every object.
download_dags-count :
    (p : Paths) (keys : List String) (d : DagsDownloader)
    → (download_dags p keys d).downloaded_dag_files ≡ d.downloaded_dag_files + length keys
unfolding download_dags download_one
download_dags-count p [] d = omega arith
download_dags-count p (key ∷ keys) d =
    omega (arith, download_dags-count p keys (download_one p key d))
