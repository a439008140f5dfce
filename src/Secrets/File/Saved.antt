-- ===== src/Secrets/File/Saved.antt =====
-- What a refund file holds after it is written.
use bullbitcoin_rnd.Base.{◌≡◌, refl, sym, ◌∙◌, ap, Option, some, String, ◌<>◌}
use bullbitcoin_rnd.Result.{Result, ok, err, panic}
use bullbitcoin_rnd.Secrets.Keys.{RefundSwapFile}
use bullbitcoin_rnd.Secrets.File.{Io, follow, FileLib, full_path, write_to_file, read_from_file}

-- What an operation with a result went through.
follow-ok {ℓ κ μ} :
    {Disk : Type ℓ} {A : Type κ} {B : Type μ} (step : Disk × Result A) (next : A → Io Disk B)
    {after : Disk} {value : B}
    → follow step next ≡ (after, ok value)
    → (disk : Disk) × (a : A) × (step ≡ (disk, ok a)) × (next a disk ≡ (after, ok value))
follow-ok (disk, ok a) next done = (disk, a, refl, done)
follow-ok (disk, err e) next done = cc
follow-ok (disk, panic m) next done = cc

-- The documented behaviour of the file functions, in terms of what the file of a path holds.
pub record FileLaws {Disk : Type 0} (files : FileLib Disk)
    (contents : String → Disk → Option String) : Type 0 where
  -- A created file is empty, also where there was one.
  pub created :
      (path : String) (disk after : Disk)
      → files.create path disk ≡ (after, ok tt)
      → contents path after ≡ some ""
  -- A text that is written to an empty file stands there, with a line break behind it.
  pub written :
      (path text : String) (disk after : Disk)
      → contents path disk ≡ some ""
      → files.writeln path text disk ≡ (after, ok tt)
      → contents path after ≡ some (text <> "\n")
  -- A file that is there opens and is read whole, and stays.
  pub opened :
      (path held : String) (disk : Disk)
      → contents path disk ≡ some held
      → files.open_file path disk ≡ (disk, ok tt)
  pub read :
      (path held : String) (disk : Disk)
      → contents path disk ≡ some held
      → files.read_to_string path disk ≡ (disk, ok held)

module _ {Disk : Type 0} (files : FileLib Disk) (contents : String → Disk → Option String)
    (laws : FileLaws files contents) where
  -- Where serde_json reads a refund file back from its text, a line break behind it included: after
  -- `write_to_file` has succeeded, also over an older file, `read_from_file` of that path gives the refund
  -- file.
  pub write_to_file-read_from_file :
      (self : RefundSwapFile) (path : String) (disk after : Disk)
      → ((json : String)
          → files.to_string_pretty self ≡ ok json
          → files.from_str (json <> "\n") ≡ ok self)
      → write_to_file files self path disk ≡ (after, ok tt)
      → read_from_file files (full_path files self path) after ≡ (after, ok self)
  unfolding write_to_file read_from_file
  write_to_file-read_from_file self path disk after reads_back wrote =
      let full = full_path files self path in
      let (made, _, is_made, rest) = follow-ok (files.create full disk) _ wrote in
      let (kept, json, is_json, ends) = follow-ok (made, files.to_string_pretty self) _ rest in
      let empty : contents full kept ≡ some "" =
        ap (contents full) (sym (ap (λ s. s.0) is_json)) ∙ laws.created full disk made is_made in
      let held : contents full after ≡ some (json <> "\n") =
        laws.written full json kept after empty ends in
      rw (
        laws.opened full (json <> "\n") after held,
        laws.read full (json <> "\n") after held,
        reads_back json (ap (λ s. s.1) is_json),
      )
