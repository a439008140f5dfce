-- ===== src/Secrets/File.antt =====
-- `RefundSwapFile::write_to_file` and `read_from_file`, as steps on the state of a disk.
pub mod Saved
use bullbitcoin_rnd.Base.{String, ◌<>◌}
use bullbitcoin_rnd.Result.{Result, ok, err, panic}
use bullbitcoin_rnd.Secrets.Keys.{RefundSwapFile, file_name}

-- An operation that reads and changes the disk.
abbrev pub Io {ℓ κ} : Type ℓ → Type κ → Type (ℓ ⊔ κ)
Io Disk A = Disk → Disk × Result A

-- A result that is made without the disk.
abbrev pub pure {ℓ κ} : {Disk : Type ℓ} {A : Type κ} → Result A → Io Disk A
pure result disk = (disk, result)

module _ {ℓ κ μ} {Disk : Type ℓ} {A : Type κ} {B : Type μ} where
  abbrev pub follow : Disk × Result A → (A → Io Disk B) → Disk × Result B
  follow (disk, ok value) next = next value disk
  follow (disk, err e) next = (disk, err e)
  follow (disk, panic m) next = (disk, panic m)

  infixl 5 ◌>>=◌ ◌>>◌
  -- `step?` and what follows it: a failed step keeps what it wrote.
  abbrev pub ◌>>=◌ : Io Disk A → (A → Io Disk B) → Io Disk B
  (step >>= next) disk = follow (step disk) next

  abbrev pub ◌>>◌ : Io Disk A → Io Disk B → Io Disk B
  step >> next = step >>= λ value. next

-- The file functions of the standard library, and serde_json on a refund file. An open file is its path.
pub record FileLib (Disk : Type 0) : Type 0 where
  -- `PathBuf::push`
  pub push : String → String → String
  -- `File::create`
  pub create : String → Io Disk (Unit {0})
  -- `writeln!` of a text
  pub writeln : String → String → Io Disk (Unit {0})
  -- `File::open`, and `read_to_string` from the start
  pub open_file : String → Io Disk (Unit {0})
  pub read_to_string : String → Io Disk String
  pub to_string_pretty : RefundSwapFile → Result String
  pub from_str : String → Result RefundSwapFile

module _ {Disk : Type 0} (files : FileLib Disk) where
  abbrev pub full_path : RefundSwapFile → String → String
  full_path self path = files.push path (file_name self)

  unfoldable pub write_to_file : RefundSwapFile → String → Io Disk (Unit {0})
  write_to_file self path = do
    files.create (full_path self path)
    json ← pure (files.to_string_pretty self)
    files.writeln (full_path self path) json

  unfoldable pub read_from_file : String → Io Disk RefundSwapFile
  read_from_file path = do
    files.open_file path
    contents ← files.read_to_string path
    pure (files.from_str contents)
