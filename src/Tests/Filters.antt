-- ===== src/Tests/Filters.antt =====
-- crates/git-bale/src/filter_process.rs on a file of three bytes, with a session that keeps one file.
use baleforgit.Prelude.{[], arith, length, none, refl, replicate, some, true, ◌∷◌}
use baleforgit.Core.{Bytes}
use baleforgit.Filter.{RawConfig, Repo, Xet, XetFileInfo}
use baleforgit.Filter.Clean.{cache_hit}
use baleforgit.Filter.Pointer.{contains, encode_pointer_string, pointer_sentinel}
use baleforgit.Filter.RoundTrip.{Cleaned, Restored, handle_smudge-do_clean}
use baleforgit.Filter.Smudge.{is_safe_file_id}
use baleforgit.Prelude.Utf8.{is_utf8}
use baleforgit.Table.{get}

abbrev an_info : XetFileInfo
an_info = record { hash = replicate 64 b'0'; file_size = some 3 }

abbrev sample_xet : Xet Bytes
sample_xet = record {
  clean_bytes =
      λ content objects. some (record an_info { file_size = some (length content) }, content);
  download_local = λ info n objects. some objects;
  download_cold = λ info n. none;
  fetch_manifest = λ info. none;
  chunk_cache_get = λ hash start end. some none;
  no_objects = [];
  to_json = λ info. pointer_sentinel;
  from_json = λ text. some an_info;
  path_key = λ path. path;
  chunk_hash = λ bytes. length bytes;
}

abbrev content : Bytes
content = 1 ∷ 2 ∷ 3 ∷ []

abbrev empty_repo : Repo Bytes
empty_repo = record { markers = []; store = none; clean_cache = []; manifests = [] }

abbrev local : RawConfig
local = record { local_mode = true; max_inline = 2 }

content-Cleaned : Cleaned sample_xet content [] an_info content
unfolding is_safe_file_id encode_pointer_string contains is_utf8
content-Cleaned = record {
  stored = refl;
  size = refl;
  hex = refl;
  kept = refl;
  short = omega arith;
  text = refl;
  key = refl;
  json = refl;
}

handle_smudge-do_clean_example :
    Restored sample_xet local empty_repo
      (b'f' ∷ [])
      content
      (encode_pointer_string sample_xet an_info)
      []
      []
unfolding get cache_hit
handle_smudge-do_clean_example =
    handle_smudge-do_clean sample_xet local empty_repo (b'f' ∷ []) content [] [] an_info content
      content-Cleaned (omega arith) refl refl
