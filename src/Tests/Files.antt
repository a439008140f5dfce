-- ===== src/Tests/Files.antt =====
-- A refund file on a disk that is a list of paths with what they hold, and a text of hexadecimal digits.
use bullbitcoin_rnd.Base.{
  ◌≡◌, refl, sym, ap, ◌∙◌, arith, Option, none, some, List, [], ◌∷◌, String, ◌<>◌, str_eq,
  str_eq_iff, if◌then◌else◌,
}
use bullbitcoin_rnd.Error.{Error}
use bullbitcoin_rnd.Result.{Result, ok, err, ok-injective}
use bullbitcoin_rnd.Secrets.Keys.{RefundSwapFile}
use bullbitcoin_rnd.Secrets.File.{Io, FileLib, write_to_file, read_from_file}
use bullbitcoin_rnd.Secrets.File.Saved.{FileLaws, write_to_file-read_from_file}
use bullbitcoin_rnd.Liquid.HexText.{read_pairs, len, hex_to_bytes}
use bullbitcoin_rnd.Liquid.HexText.RoundTrip.{digit_char, print_hex, hex_to_bytes-print_hex}

abbrev Disk : Type 0
Disk = List (String × String)

abbrev contents : String → Disk → Option String
contents path [] = none
contents path ((name, text) ∷ disk) =
    let rest = contents path disk in if str_eq path name then some text else rest

abbrev missing : Error
missing = Error.io "No such file or directory"

abbrev joined : String → String → String
joined held text = if str_eq held "" then text <> "\n" else held <> text <> "\n"

abbrev append : Option String → String → String → Io Disk (Unit {0})
append none path text disk = (disk, err missing)
append (some held) path text disk = ((path, joined held text) ∷ disk, ok tt)

abbrev found : Option String → Result String
found none = err missing
found (some held) = ok held

abbrev exists : Option String → Result (Unit {0})
exists none = err missing
exists (some held) = ok tt

abbrev sample : RefundSwapFile
sample = record {
  id = "7";
  currency = "BTC";
  redeem_script = "a914";
  private_key = "01";
  timeout_block_height = 800000;
}

abbrev files : FileLib Disk
files = record {
  push = λ path name. path <> "/" <> name;
  create = λ path disk. ((path, "") ∷ disk, ok tt);
  writeln = λ path text disk. append (contents path disk) path text disk;
  open_file = λ path disk. (disk, exists (contents path disk));
  read_to_string = λ path disk. (disk, found (contents path disk));
  to_string_pretty = λ self. ok (self.id <> self.currency);
  from_str =
      λ text. if str_eq text "7BTC\n" then ok sample else err (Error.json "expected a refund file");
}

contents-top : (path text : String) (disk : Disk) → contents path ((path, text) ∷ disk) ≡ some text
contents-top path text disk = rw ((str_eq_iff path path).1 refl)

files-laws : FileLaws files contents
files-laws = record {
  created = λ path disk after is. ap (λ s. contents path s.0) (sym is) ∙ contents-top path "" disk;
  written = λ path text disk after empty is.
      ap (λ s. contents path s.0) (sym is ∙ ap (λ o. append o path text disk) empty)
      ∙ contents-top path (text <> "\n") disk;
  opened = λ path held disk is. ap (λ o. (disk, exists o)) is;
  read = λ path held disk is. ap (λ o. (disk, found o)) is;
}

-- The file is written over an older one.
abbrev before : Disk
before = ("/tmp/boltz-7.json", "old") ∷ []

abbrev after : Disk
after = ("/tmp/boltz-7.json", "7BTC\n") ∷ ("/tmp/boltz-7.json", "") ∷ before

is_written : write_to_file files sample "/tmp" before ≡ (after, ok tt)
unfolding write_to_file
is_written = refl

write_to_file-read_from_file_example :
    read_from_file files "/tmp/boltz-7.json" after ≡ (after, ok sample)
write_to_file-read_from_file_example =
    write_to_file-read_from_file files contents files-laws sample "/tmp" before after
      (λ json is. rw (sym (ok-injective is)) refl) is_written

-- A plus sign is taken where a digit is meant.
plus : hex_to_bytes "+5" ≡ ok (5 ∷ [])
unfolding hex_to_bytes read_pairs len
plus = refl

odd : hex_to_bytes "abc" ≡ err (Error.hex "Hex string must have an even length")
unfolding hex_to_bytes len
odd = refl

hex_to_bytes-print_hex_example :
    hex_to_bytes (print_hex (0 ∷ 171 ∷ 255 ∷ [])) ≡ ok (0 ∷ 171 ∷ 255 ∷ [])
hex_to_bytes-print_hex_example =
    hex_to_bytes-print_hex (0 ∷ 171 ∷ 255 ∷ []) (omega arith, (omega arith, (omega arith, tt)))

printed : print_hex (0 ∷ 171 ∷ 255 ∷ []) ≡ "00abff"
unfolding print_hex digit_char
printed = refl
