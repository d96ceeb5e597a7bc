-- ===== src/DriverAgent/Download.antt =====
-- pkg/driveragent/download.go: `downloadFile` and `downloadAndExtract`.
use Prim.Native.String.{◌++◌ as cat}
use slingshot_operator.Prelude.{ℕ, String, not, ◌||◌, none, some, ◌⊎◌, inr, ◌==◌, if◌then◌else◌}
use slingshot_operator.Prelude.Text.{ends_with}
use slingshot_operator.Prelude.FilePath.{dir}
use slingshot_operator.Prelude.Decimal.{itoa}
use slingshot_operator.Prelude.Action.{Action, Error, pure, check, check_value, ◌>>=◌}
use slingshot_operator.Host.{HttpResponse, Host}
use slingshot_operator.DriverAgent.Archive.{extract_tar, extract_zip, mode_0755}

-- The mode of os.Create, 0666
abbrev pub mode_0666 : ℕ
mode_0666 = 438

module _ {W : Type 0} (host : Host W) where
  -- The common beginning: the directory is made, and the response must have the status 200.
  abbrev fetch : String → String → (HttpResponse → Action W Error) → Action W Error
  fetch directory url use_response =
      check "failed to create directory: " (host.mkdir_all directory mode_0755) (
        check_value "failed to download: " (host.http_get url) (λ (resp : HttpResponse).
          if not (resp.status_code == 200)
          then pure (some (cat "download failed with status: " (itoa resp.status_code)))
          else use_response resp))

  unfoldable pub download_file : String → String → Action W Error
  unfolding dir itoa
  download_file url dest = fetch (dir dest) url (λ (resp : HttpResponse).
      check "failed to create file: " (host.create_file dest mode_0666)
        (check "failed to write file: " (host.copy_content dest resp.body) (pure none)))

  -- The temporary file is removed in the end.
  download_zip : String → HttpResponse → Action W Error
  unfolding extract_zip
  download_zip dest resp =
      check_value "failed to create temp file: " host.create_temp (λ (tmp : String). do
        e ←
            check "failed to download zip: " (host.copy_content tmp resp.body)
              (extract_zip host dest tmp)
        _ ← host.remove tmp
        pure e)

  -- What is read: the body, or what it decompresses to.
  reader_of : String → String → String ⊎ String
  unfolding ends_with
  reader_of url body =
      if ends_with url ".gz" || ends_with url ".tgz" then host.gunzip body else inr body

  download_tar : String → String → HttpResponse → Action W Error
  unfolding reader_of extract_tar ends_with
  download_tar url dest resp =
      check_value "failed to create gzip reader: " (pure (reader_of url resp.body))
        (λ (reader : String).
          if ends_with url ".tar" || ends_with url ".tar.gz" || ends_with url ".tgz"
          then extract_tar host dest (host.tar_stream reader)
          else pure (some (cat "unsupported archive format: " url)))

  unfoldable pub download_and_extract : String → String → Action W Error
  unfolding download_zip download_tar ends_with itoa
  download_and_extract url dest = fetch dest url (λ (resp : HttpResponse).
      if ends_with url ".zip" then download_zip dest resp else download_tar url dest resp)
